-- ===== src/CalinApiV1/Tasks.antt =====
-- src/plugins/calin-api-v1/outgoing.ts: the COMM task that a message asks for, and what becomes of its
-- creation. The company and its credentials are left out of the body. `utc` is JavaScript's Date.UTC and
-- the getters of its date, with months counted from one; a payload's numbers are whole.
pub mod Items
pub mod Refusals
use nxt_device_messaging.Common.{
  ℕ, ◌+◌, ◌%◌, Text, txt, is_text, decimal, pad_zeros, Bool, true, false, not, ◌&&◌, ◌||◌, Option,
  none, some, [], ◌∷◌, ◌++◌, ltb, ◌==◌, if◌then◌else◌,
}
use nxt_device_messaging.Message.{
  CommandType, read_voltage, read_current, read_power, read_power_limit, read_credit, read_version,
  read_date, read_time, turn_on, turn_off, set_date, set_time, clear_credit, clear_tamper,
  set_power_limit, top_up_kwh, deliver_preexisting_token, read_report, join_network, Phase, phase_a,
  phase_b, phase_c, RequestPayload, date_payload, time_payload, RequestData, DeviceMessage,
  FailureContext,
}
use nxt_device_messaging.Engine.Outgoing
use nxt_device_messaging.CalinApiV1.{
  CommResult, CommResponse, Sent, answered, failed, failed_with_text, failed_with_number, is_blank,
  to_safe_number_or_null,
}

-- What Date.UTC gives: months from one, days of the week from Sunday.
pub record UtcDate : Type 0 where
  pub year : ℕ
  pub month : ℕ
  pub day : ℕ
  pub weekday : ℕ

-- A code is a text, or a number written out.
pub data Code : Type 0 where
  text_code number_code : Text → Code

pub record CalinApiV1Error : Type 0 where
  pub message : Text
  pub code : Option Code
  pub skip_retry : Bool

pub data Fields : Type 0 where
  data_item : Text → Fields
  data_item_with : Text → Text → Fields
  token : Text → Fields

pub record CommTask : Type 0 where
  pub path : Text
  pub meter_no : Text
  pub fields : Fields

pub data Planned : Type 0 where
  requests : CommTask → Planned
  refuses : CalinApiV1Error → Planned

pub data Created : Type 0 where
  created : Text → Created
  not_created : CalinApiV1Error → Created

abbrev pub permanent : Text → CalinApiV1Error
permanent message = record { message = message; code = none; skip_retry = true }

abbrev pub phase_read : Text → Text → Text → Text → Option Phase → Text
phase_read whole a b c none = whole
phase_read whole a b c (some phase_a) = a
phase_read whole a b c (some phase_b) = b
phase_read whole a b c (some phase_c) = c

-- The data item of a read; none for a command that is no read of this vendor.
abbrev pub read_data_item : CommandType → Option Phase → Option Text
read_data_item read_credit phase = some (txt "Current Credit Register")
read_data_item read_voltage phase =
    some (phase_read (txt "Voltage") (txt "VoltageA") (txt "VoltageB") (txt "VoltageC") phase)
read_data_item read_power phase = some (txt "Power")
read_data_item read_current phase =
    some (phase_read (txt "Current") (txt "CurrentA") (txt "CurrentB") (txt "CurrentC") phase)
read_data_item read_power_limit phase = some (txt "Maximum power threshold")
read_data_item read_version phase = some (txt "Version")
read_data_item read_date phase = some (txt "Date")
read_data_item read_time phase = none
read_data_item turn_on phase = none
read_data_item turn_off phase = none
read_data_item set_date phase = none
read_data_item set_time phase = none
read_data_item clear_credit phase = none
read_data_item clear_tamper phase = none
read_data_item set_power_limit phase = none
read_data_item top_up_kwh phase = none
read_data_item deliver_preexisting_token phase = none
read_data_item read_report phase = none
read_data_item join_network phase = none

abbrev pub four_digit_year : ℕ → ℕ
four_digit_year year = if ltb year 100 then 2000 + year else year

-- `Number.isSafeInteger` of a whole number: below 2 ^ 53.
abbrev pub is_safe_integer : ℕ → Bool
is_safe_integer n = ltb n 9007199254740992

abbrev pub are_safe : ℕ → ℕ → ℕ → Bool
are_safe year month day = is_safe_integer year && is_safe_integer month && is_safe_integer day

module _ (utc : ℕ → ℕ → ℕ → UtcDate) where
  abbrev pub is_calendar_date : ℕ → ℕ → ℕ → Bool
  is_calendar_date year month day =
      ((utc year month day).year == year)
      && ((utc year month day).month == month)
      && ((utc year month day).day == day)

  -- `yymmddww`; none is the throw.
  abbrev pub format_date : ℕ → ℕ → ℕ → Option Text
  format_date year month day =
      if are_safe year month day && is_calendar_date (four_digit_year year) month day
      then some (
          pad_zeros 2 (decimal (four_digit_year year % 100))
          ++ (pad_zeros 2 (decimal month)
              ++ (pad_zeros 2 (decimal day)
                  ++ pad_zeros 2 (decimal (utc (four_digit_year year) month day).weekday))))
      else none

  abbrev pub write_of : Text → Option Text → Planned
  write_of meter_no none = refuses (permanent (txt "Invalid payload for setting date"))
  write_of meter_no (some content) = requests (record {
    path = txt "/COMM_RemoteWrite";
    meter_no = meter_no;
    fields = data_item_with (txt "Date") content;
  })

  -- A payload of a time has no year, month and day: they are no safe integers.
  abbrev pub write_date : Text → Option RequestPayload → Planned
  write_date meter_no none =
      refuses (permanent (txt "Can't perform a write request without a payload"))
  write_date meter_no (some (date_payload year month day)) =
      write_of meter_no (format_date year month day)
  write_date meter_no (some (time_payload hour minute second)) = write_of meter_no none

  abbrev pub payload_of : Option RequestData → Option RequestPayload
  payload_of none = none
  payload_of (some d) = d.payload

  abbrev pub token_of : Option RequestData → Option Text
  token_of none = none
  token_of (some d) = d.token

  abbrev pub no_token : Planned
  no_token = refuses (permanent (txt "Can't perform a token delivery without a token"))

  module _ (is_space : ℕ → Bool) where
    abbrev pub deliver_token : Text → Option Text → Planned
    deliver_token meter_no none = no_token
    deliver_token meter_no (some t) =
        if is_blank is_space t
        then no_token
        else requests
            (record { path = txt "/COMM_RemoteToken"; meter_no = meter_no; fields = token t })

    abbrev pub read_request : Text → Text → Planned
    read_request meter_no item =
        requests (record {
          path = txt "/COMM_RemoteReading";
          meter_no = meter_no;
          fields = data_item item;
        })

    abbrev pub control_request : Text → Text → Planned
    control_request meter_no item =
        requests (record {
          path = txt "/COMM_RemoteControl";
          meter_no = meter_no;
          fields = data_item item;
        })

    abbrev pub not_implemented : Planned
    not_implemented = refuses (permanent (txt "Not implemented"))

    -- The commands behind the reads.
    abbrev pub other_task : CommandType → Text → Option RequestData → Planned
    other_task turn_on meter_no d = control_request meter_no (txt "Switch On")
    other_task turn_off meter_no d = control_request meter_no (txt "Switch Off")
    other_task set_date meter_no d = write_date meter_no (payload_of d)
    other_task clear_credit meter_no d = deliver_token meter_no (token_of d)
    other_task clear_tamper meter_no d = deliver_token meter_no (token_of d)
    other_task set_power_limit meter_no d = deliver_token meter_no (token_of d)
    other_task top_up_kwh meter_no d = deliver_token meter_no (token_of d)
    other_task deliver_preexisting_token meter_no d = deliver_token meter_no (token_of d)
    other_task set_time meter_no d = not_implemented
    other_task read_voltage meter_no d = not_implemented
    other_task read_current meter_no d = not_implemented
    other_task read_power meter_no d = not_implemented
    other_task read_power_limit meter_no d = not_implemented
    other_task read_credit meter_no d = not_implemented
    other_task read_version meter_no d = not_implemented
    other_task read_date meter_no d = not_implemented
    other_task read_time meter_no d = not_implemented
    other_task read_report meter_no d = not_implemented
    other_task join_network meter_no d = not_implemented

    abbrev pub task_for : Option Text → DeviceMessage → Planned
    task_for none m = other_task m.command_type m.device.external_reference m.request_data
    task_for (some item) m = read_request m.device.external_reference item

    -- The task of a message.
    unfoldable pub task_of : DeviceMessage → Planned
    task_of m = task_for (read_data_item m.command_type m.phase) m

  module _ {N : Type 0} (number : Text → Option N) (show : N → Text) (is_space : ℕ → Bool) where
    abbrev pub number_code_of : Option N → Option Code
    number_code_of none = none
    number_code_of (some n) = some (number_code (show n))

    abbrev pub or_unknown : Option Text → Text
    or_unknown none = txt "unknown"
    or_unknown (some reason) = reason

    abbrev pub not_scheduled : CommResponse → Text
    not_scheduled r = txt "CALIN API-V1 did not schedule task because: " ++ or_unknown r.reason

    abbrev pub missing_task_id_message : CommTask → Fields → CommResponse → Text
    missing_task_id_message t (token k) r =
        if is_text (txt "99") r.result_code
        then txt "Token "
          ++ (k
              ++ (txt " was immediately rejected for meter "
                  ++ (t.meter_no ++ txt ", possibly already delivered")))
        else not_scheduled r
    missing_task_id_message t (data_item item) r = not_scheduled r
    missing_task_id_message t (data_item_with item content) r = not_scheduled r

    abbrev pub no_task_id : CommTask → CommResponse → Created
    no_task_id t r = not_created (record {
      message = missing_task_id_message t t.fields r;
      code = number_code_of (to_safe_number_or_null number is_space (some r.result_code));
      skip_retry = false;
    })

    -- A missing result, or an empty number of the task.
    abbrev pub with_task_no : CommTask → CommResponse → Text → Created
    with_task_no t r [] = no_task_id t r
    with_task_no t r (c ∷ cs) = created (c ∷ cs)

    abbrev pub from_result : CommTask → CommResponse → Option CommResult → Created
    from_result t r none = no_task_id t r
    from_result t r (some result) = with_task_no t r result.task_no

    abbrev pub from_sent : CommTask → Sent → Created
    from_sent t (answered r) = from_result t r r.result
    from_sent t (failed message) =
        not_created (record { message = message; code = none; skip_retry = false })
    from_sent t (failed_with_text message code) =
        not_created (record { message = message; code = some (text_code code); skip_retry = false })
    from_sent t (failed_with_number message code) =
        not_created
          (record { message = message; code = some (number_code code); skip_retry = false })

    abbrev pub code_text : Option Code → Option Text
    code_text none = none
    code_text (some (text_code c)) = some c
    code_text (some (number_code c)) = some c

    abbrev pub is_99 : Option Code → Bool
    is_99 none = false
    is_99 (some (text_code c)) = false
    is_99 (some (number_code c)) = is_text (txt "99") c

    -- Of a client error; others do not come from this model.
    abbrev pub parse_error : CalinApiV1Error → FailureContext
    parse_error e = record {
      reason = e.message;
      error_code = code_text e.code;
      details = none;
      skip_retry = e.skip_retry || is_99 e.code;
    }

    abbrev pub sent_of : Created → Outgoing.Sent
    sent_of (created id) = Outgoing.accepted id
    sent_of (not_created e) = Outgoing.refused (parse_error e)

    abbrev pub perform : (CommTask → Sent) → Planned → Outgoing.Sent
    perform send (requests t) = sent_of (from_sent t (send t))
    perform send (refuses e) = sent_of (not_created e)

    -- `sendOne`, with what `parseError` makes of its throw; `send` is the client's request.
    unfoldable pub send_one : (CommTask → Sent) → DeviceMessage → Outgoing.Sent
    send_one send m = perform send (task_of is_space m)
