-- ===== src/CalinApiV2/Tasks.antt =====
-- src/plugins/calin-api-v2/outgoing.ts: the remote meter task that a message asks for, and what becomes
-- of its creation. The customer and the company are left out of the body. `utc` is JavaScript's Date.UTC
-- and the getters of its date, with months counted from one; a payload's numbers are whole.
pub mod Readback
use nxt_device_messaging.Common.{
  ℕ, ◌+◌, Text, txt, decimal, pad_zeros, Bool, true, false, Option, none, some, [], ◌∷◌, ◌++◌, ◌&&◌,
  if◌then◌else◌,
}
use nxt_device_messaging.Message.{
  CommandType, read_voltage, read_current, read_power, read_power_limit, read_credit, read_version,
  read_date, read_time, turn_on, turn_off, set_date, set_time, clear_credit, clear_tamper,
  set_power_limit, top_up_kwh, deliver_preexisting_token, read_report, join_network, RequestPayload,
  date_payload, time_payload, RequestData, DeviceMessage, FailureContext,
}
use nxt_device_messaging.Engine.Outgoing
use nxt_device_messaging.CalinApiV1.{is_blank}
use nxt_device_messaging.CalinApiV1.Tasks.{UtcDate, four_digit_year, are_safe, is_calendar_date}
use nxt_device_messaging.CalinApiV2.Client.{Answer, answered, throws}

pub record MeterTask : Type 0 where
  pub path : Text
  pub meter_id : Text
  pub protocol_id : ℕ
  pub content : Option Text

pub record CreateTaskResponse : Type 0 where
  pub reason : Option Text
  pub id : Option Text

pub record CalinApiV2Error : Type 0 where
  pub message : Text
  pub skip_retry : Bool

pub data Task : Type 0 where
  asks : MeterTask → Task
  gives_up : CalinApiV2Error → Task

abbrev pub lasting : Text → CalinApiV2Error
lasting message = record { message = message; skip_retry = true }

abbrev pub passing : Text → CalinApiV2Error
passing message = record { message = message; skip_retry = false }

-- The protocol of a read; none for a command that is no read of this vendor.
abbrev pub read_protocol : CommandType → Option ℕ
read_protocol read_credit = some 39
read_protocol read_voltage = some 5
read_protocol read_power = some 11
read_protocol read_current = some 8
read_protocol read_power_limit = some 46
read_protocol read_version = some 45
read_protocol read_date = some 29
read_protocol read_time = none
read_protocol turn_on = none
read_protocol turn_off = none
read_protocol set_date = none
read_protocol set_time = none
read_protocol clear_credit = none
read_protocol clear_tamper = none
read_protocol set_power_limit = none
read_protocol top_up_kwh = none
read_protocol deliver_preexisting_token = none
read_protocol read_report = none
read_protocol join_network = none

module _ (utc : ℕ → ℕ → ℕ → UtcDate) (is_space : ℕ → Bool) where
  abbrev pub calendar_text : ℕ → ℕ → ℕ → Text
  calendar_text year month day =
      pad_zeros 4 (decimal year)
      ++ 45 ∷ (pad_zeros 2 (decimal month) ++ 45 ∷ (pad_zeros 2 (decimal day) ++ txt " 00:00:00"))

  -- `YYYY-MM-DD 00:00:00`; none is the throw.
  unfoldable pub format_date_time : ℕ → ℕ → ℕ → Option Text
  format_date_time year month day =
      if are_safe year month day && is_calendar_date utc (four_digit_year year) month day
      then some (calendar_text (four_digit_year year) month day)
      else none

  abbrev pub setting_of : Text → Option Text → Task
  setting_of meter_id none = gives_up (lasting (txt "Invalid payload for setting date"))
  setting_of meter_id (some content) = asks (record {
    path = txt "/API/RemoteMeterTask/CreateSettingTask";
    meter_id = meter_id;
    protocol_id = 10000;
    content = some content;
  })

  -- A payload of a time has no year, month and day: they are no safe integers.
  abbrev pub setting : Text → Option RequestPayload → Task
  setting meter_id none = gives_up (lasting (txt "Can't perform a write request without a payload"))
  setting meter_id (some (date_payload year month day)) =
      setting_of meter_id (format_date_time year month day)
  setting meter_id (some (time_payload hour minute second)) = setting_of meter_id none

  abbrev pub delivery_of : Text → Option Text → Task
  delivery_of meter_id none =
      gives_up (lasting (txt "Can't perform a token delivery without a token"))
  delivery_of meter_id (some token) =
      if is_blank is_space token
      then gives_up (lasting (txt "Can't perform a token delivery without a token"))
      else asks (record {
        path = txt "/API/RemoteMeterTask/CreateTokenTask";
        meter_id = meter_id;
        protocol_id = 30000;
        content = some token;
      })

  abbrev pub switching : Text → ℕ → Task
  switching meter_id protocol_id = asks (record {
    path = txt "/API/RemoteMeterTask/CreateControlTask";
    meter_id = meter_id;
    protocol_id = protocol_id;
    content = none;
  })

  abbrev pub unknown_command : Task
  unknown_command = gives_up (lasting (txt "Not implemented"))

  abbrev pub sent_payload : Option RequestData → Option RequestPayload
  sent_payload none = none
  sent_payload (some d) = d.payload

  abbrev pub sent_token : Option RequestData → Option Text
  sent_token none = none
  sent_token (some d) = d.token

  -- The commands behind the reads.
  abbrev pub command_task : CommandType → Text → Option RequestData → Task
  command_task turn_on meter_id d = switching meter_id 20000
  command_task turn_off meter_id d = switching meter_id 20001
  command_task set_date meter_id d = setting meter_id (sent_payload d)
  command_task clear_credit meter_id d = delivery_of meter_id (sent_token d)
  command_task clear_tamper meter_id d = delivery_of meter_id (sent_token d)
  command_task set_power_limit meter_id d = delivery_of meter_id (sent_token d)
  command_task top_up_kwh meter_id d = delivery_of meter_id (sent_token d)
  command_task deliver_preexisting_token meter_id d = delivery_of meter_id (sent_token d)
  command_task set_time meter_id d = unknown_command
  command_task read_voltage meter_id d = unknown_command
  command_task read_current meter_id d = unknown_command
  command_task read_power meter_id d = unknown_command
  command_task read_power_limit meter_id d = unknown_command
  command_task read_credit meter_id d = unknown_command
  command_task read_version meter_id d = unknown_command
  command_task read_date meter_id d = unknown_command
  command_task read_time meter_id d = unknown_command
  command_task read_report meter_id d = unknown_command
  command_task join_network meter_id d = unknown_command

  abbrev pub task_with : Option ℕ → DeviceMessage → Task
  task_with none m = command_task m.command_type m.device.external_reference m.request_data
  task_with (some protocol_id) m = asks (record {
    path = txt "/API/RemoteMeterTask/CreateReadingTask";
    meter_id = m.device.external_reference;
    protocol_id = protocol_id;
    content = none;
  })

  unfoldable pub meter_task : DeviceMessage → Task
  meter_task m = task_with (read_protocol m.command_type) m

  abbrev pub fallback : Option Text → Text
  fallback none = txt "unknown"
  fallback (some reason) = reason

  abbrev pub parse_task_error : CalinApiV2Error → FailureContext
  parse_task_error e = record {
    reason = e.message;
    error_code = none;
    details = none;
    skip_retry = e.skip_retry;
  }

  abbrev pub unscheduled : CreateTaskResponse → CalinApiV2Error
  unscheduled r = passing (txt "CALIN API-V2 did not schedule task because: " ++ fallback r.reason)

  -- A missing or empty id.
  abbrev pub task_scheduled : CreateTaskResponse → Option Text → Outgoing.Sent
  task_scheduled r none = Outgoing.refused (parse_task_error (unscheduled r))
  task_scheduled r (some []) = Outgoing.refused (parse_task_error (unscheduled r))
  task_scheduled r (some (c ∷ cs)) = Outgoing.accepted (c ∷ cs)

  abbrev pub create_task : Answer CreateTaskResponse → Outgoing.Sent
  create_task (answered r) = task_scheduled r r.id
  create_task (throws message) = Outgoing.refused (parse_task_error (passing message))

  abbrev pub run_task : (MeterTask → Answer CreateTaskResponse) → Task → Outgoing.Sent
  run_task send (asks t) = create_task (send t)
  run_task send (gives_up e) = Outgoing.refused (parse_task_error e)

  -- `sendOne`, with what `parseError` makes of its throw; `send` is the client's request.
  unfoldable pub send_meter_task :
      (MeterTask → Answer CreateTaskResponse) → DeviceMessage → Outgoing.Sent
  send_meter_task send m = run_task send (meter_task m)
