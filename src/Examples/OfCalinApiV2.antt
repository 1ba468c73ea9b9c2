-- ===== src/Examples/OfCalinApiV2.antt =====
-- A poll, two networks and a clock of CALIN API V2.
use nxt_device_messaging.Common.{
  ℕ, ◌+◌, ◌-◌, ◌*◌, ◌≤◌, Text, txt, decimal, decimal_within, pad_zeros, zeros, IsDigit, value, ◌≡◌,
  ◌≢◌, ◌↔◌, refl, true, false, Option, none, some, [], ◌∷◌, All, arith,
}
use nxt_device_messaging.Message.{read_credit}
use nxt_device_messaging.CalinApiV1.{task_type, split}
use nxt_device_messaging.CalinApiV2.{TaskContent, date, a_text, whole, read_clock}
use nxt_device_messaging.CalinApiV2.Status.{
  Polled, got, fetch_status, polls_on, fetch_status_open_iff,
}
use nxt_device_messaging.CalinApiV2.Client.{
  CachedToken, LoginAnswer, login_body, Posted, post_status, Session, read_jwt_exp_ms,
  fetch_token_within, post_within, send_request,
}
use nxt_device_messaging.CalinApiV2.Client.Bounds.{send_request-bounded}
use nxt_device_messaging.CalinApiV2.Client.Tokens.{IsMinted, send_request-IsMinted}
use nxt_device_messaging.CalinApiV2.Tasks.{format_date_time}
use nxt_device_messaging.CalinApiV2.Tasks.Readback.{read_clock-format_date_time}
use nxt_device_messaging.Examples.Fixtures.{message}
use nxt_device_messaging.Examples.OfCalinApiV1.{is_space, digits, any_date}

abbrev content_text : TaskContent ℕ → Text
content_text content = txt "{}"

-- The task of a reading is still open.
abbrev processing : Text → Polled ℕ
processing path = got (record {
  reason = some (txt "success");
  row = some (record { name = txt "Power"; status = whole 0; value = a_text (txt "") });
})

fetch_status_open_iff_example :
    (fetch_status (digits 0) decimal is_space content_text message processing ≡ none) ↔ (
      polls_on (digits 0) decimal is_space content_text message (task_type read_credit) processing
      ≡ true)
fetch_status_open_iff_example =
    fetch_status_open_iff (digits 0) decimal is_space content_text message processing

-- A network that counts: its login always gives a token, and its requests are unauthorized.
abbrev jwt : Text
jwt = txt "head.body.sign"

abbrev login : ℕ → LoginAnswer × ℕ
login w = (login_body (some jwt), w + 1)

abbrev post : Text → ℕ → Posted Text × ℕ
post bearer w = (post_status 401 none, w + 10)

abbrev in_1970 : ℕ → ℕ
in_1970 w = 5000

abbrev expires_at : Text → Option ℕ
expires_at payload = some 100

abbrev fresh_session : Session ℕ
fresh_session = record { wire = 0; cached_token = none }

-- Two logins and two POSTs.
refused_twice : (send_request expires_at login post in_1970 fresh_session).1.wire ≡ 22
unfolding send_request fetch_token_within post_within read_jwt_exp_ms split
refused_twice = refl

send_request-bounded_example :
    (send_request expires_at login post in_1970 fresh_session).1.wire ≤ 0 + 6 * 1 + 6 * 10
send_request-bounded_example =
    send_request-bounded expires_at login post in_1970 (λ w. w) 1 10 (λ w. refl) (λ bearer w. refl)
      fresh_session

abbrev old_token : CachedToken
old_token = record { token = jwt; exp_ms = 100000 }

jwt_exp : read_jwt_exp_ms expires_at jwt ≡ some 100000
unfolding read_jwt_exp_ms split
jwt_exp = refl

jwt_not_empty : jwt ≢ []
jwt_not_empty e = absurd (ground arith)

send_request-IsMinted_example :
    IsMinted expires_at login post in_1970
      (send_request expires_at login post in_1970
        (record { wire = 0; cached_token = some old_token })).1.cached_token
send_request-IsMinted_example =
    send_request-IsMinted expires_at login post in_1970
      (record { wire = 0; cached_token = some old_token }) (jwt_not_empty, jwt_exp)

digits-value : (acc : ℕ) (t : Text) → All IsDigit t → digits acc t ≡ some (value acc t)
digits-value acc [] d = refl
digits-value acc (c ∷ cs) ((low, high), d) = ground (arith, digits-value (acc * 10 + (c - 48)) cs d)

digit_no_space : (c : ℕ) → IsDigit c → is_space c ≡ false
digit_no_space c (low, high) = ground arith

new_year : format_date_time any_date is_space 24 1 31 ≡ some (txt "2024-01-31 00:00:00")
unfolding format_date_time decimal decimal_within pad_zeros zeros
new_year = refl

read_clock-format_date_time_example :
    read_clock (digits 0) decimal is_space (txt "2024-01-31 00:00:00")
    ≡ date (some 2024) (some 1) (some 31)
read_clock-format_date_time_example =
    read_clock-format_date_time (digits 0) decimal is_space (λ n. n)
      (λ t d ne small. digits-value 0 t d) digit_no_space any_date 24 1 31
      (txt "2024-01-31 00:00:00") new_year
