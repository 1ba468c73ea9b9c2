-- ===== src/Examples/OfCalinApiV1.antt =====
-- Polls of a credit reading.
use nxt_device_messaging.Common.{
  ◌⊎◌, ℕ, ◌+◌, ◌-◌, ◌*◌, Text, txt, text_discrete, ◌≡◌, ◌↔◌, refl, Bool, true, false, ◌&&◌, Option,
  none, some, [], ◌∷◌, leb, ◌==◌, if◌then◌else◌, decimal, starts_with,
}
use nxt_device_messaging.Message.{execution_success, read_credit}
use nxt_device_messaging.Engine.Outgoing
use nxt_device_messaging.CalinApiV1.{
  CommResult, Sent, answered, failed_with_text, task_type, ResponseData, credit,
  parse_response_data, split,
}
use nxt_device_messaging.CalinApiV1.Status.{fetch_status}
use nxt_device_messaging.CalinApiV1.Client.{Fetched, threw, an_object, no_object, send_request}
use nxt_device_messaging.CalinApiV1.Client.Polled.{hears, poll_none_iff}
use nxt_device_messaging.CalinApiV1.Tasks.{UtcDate, CommTask, requests, task_of, send_one}
use nxt_device_messaging.CalinApiV1.Tasks.Refusals.{
  is_given_up, AsksNothing, Rejected, Accepted, send_one-given_up, send_one-Accepted,
}
use nxt_device_messaging.Examples.Fixtures.{message}

abbrev pub is_space : ℕ → Bool
is_space c = c == 32

-- Whole numbers.
abbrev pub digits : ℕ → Text → Option ℕ
digits acc [] = some acc
digits acc (c ∷ cs) =
    let rest = digits (acc * 10 + (c - 48)) cs in if leb 48 c && leb c 57 then rest else none

abbrev rendered : ResponseData ℕ → Text
rendered content = txt "{}"

abbrev reading : CommResult
reading = record {
  task_no = txt "7001";
  status = some (txt "True");
  data_item = txt "Current Credit Register";
  content = txt "125,ON";
}

credit_parsed :
    parse_response_data (digits 0) is_space reading none
    ≡ record { status = execution_success; content = some (credit 125 true); failure_reason = none }
unfolding parse_response_data split text_discrete
credit_parsed = refl

-- The connection was reset.
abbrev reset : Text → Fetched
reset path = threw (an_object none none (an_object none (some (txt "ECONNRESET")) no_object))

reset_waits :
    send_request (reset [])
    ≡ failed_with_text
        (txt "[CALIN API-V1] abruptly closed its end of the connection")
        (txt "ECONNRESET")
unfolding text_discrete starts_with
reset_waits = refl

poll_none_iff_example :
    (fetch_status (digits 0) is_space rendered message (λ path. send_request (reset path)) ≡ none)
    ↔ (hears (task_type read_credit) reset ≡ false)
poll_none_iff_example = poll_none_iff (digits 0) is_space rendered message reset

-- Every date is a date of the calendar.
abbrev pub any_date : ℕ → ℕ → ℕ → UtcDate
any_date year month day = record { year = year; month = month; day = day; weekday = 4 }

abbrev scheduling : CommTask → Sent
scheduling t =
    answered (record { result = some reading; result_code = txt "00"; reason = some (txt "OK") })

send_one-given_up_example :
    (is_given_up any_date
        (digits 0)
        decimal
        is_space
        (send_one any_date (digits 0) decimal is_space scheduling message)
      ≡ true)
    ↔ (AsksNothing any_date is_space message.command_type message.request_data
        ⊎ ((t : CommTask) × (task_of any_date is_space message ≡ requests t)
            × Rejected any_date (digits 0) decimal is_space (scheduling t)))
send_one-given_up_example =
    send_one-given_up any_date (digits 0) decimal is_space scheduling message

scheduled :
    send_one any_date (digits 0) decimal is_space scheduling message
    ≡ Outgoing.accepted (txt "7001")
unfolding send_one task_of
scheduled = refl

send_one-Accepted_example :
    Accepted any_date (digits 0) decimal is_space scheduling message (txt "7001")
send_one-Accepted_example =
    send_one-Accepted any_date (digits 0) decimal is_space scheduling message (txt "7001") scheduled
