-- ===== src/Chirpstack/Decode.antt =====
-- src/plugins/calin-chirpstack/lib/decode-response-data.ts: what the bytes of an uplink frame say.
pub mod Checks
use nxt_device_messaging.Common.{
  ℕ, ◌+◌, ◌-◌, ◌*◌, ◌/◌, ◌%◌, ◌^◌, Text, txt, Bool, true, false, ◌&&◌, not, Option, none, some,
  List, [], ◌∷◌, length, take, drop, get_elem?, ltb, ◌==◌, if◌then◌else◌,
}
use nxt_device_messaging.Message.{
  Phase, phase_a, phase_b, phase_c, ResponseStatus, execution_success, execution_failure,
}
use nxt_device_messaging.Chirpstack.Readout.{
  subarray, ResponseData, decode_read_voltage, decode_read_power, decode_read_current,
  decode_read_credit, decode_read_time, decode_read_date, decode_read_report, power_limit,
  token_accepted, on_off_toggle_accepted,
}
use nxt_device_messaging.Chirpstack.{header_byte, end_byte, subtract_33h, sum_bytes}

pub data CalinControlCode : Type 0 where
  reading_success reading_failure writing_success writing_failure : CalinControlCode
  send_token_success send_token_failure : CalinControlCode

abbrev pub control_code_map : ℕ → Option CalinControlCode
control_code_map c =
    if c == 0x81
    then some reading_success
    else if c == 0xc1
    then some reading_failure
    else if c == 0x84
    then some writing_success
    else if c == 0xc4
    then some writing_failure
    else if c == 0x80
    then some send_token_success
    else if c == 0xc0
    then some send_token_failure
    else none

pub record DecodedEvent : Type 0 where
  pub status : ResponseStatus
  pub content : ResponseData
  pub failure_reason : Option Text
  pub unsolicited_read_report : Bool

-- The keys of the table, for the hexadecimal text of the identifier.
pub data Processor : Type 0 where
  voltage_of power_of current_of : Phase → Processor
  credit_of report_of date_of time_of : Processor

abbrev pub data_processor_map : ℕ → Option Processor
data_processor_map k =
    if k == 0xb611
    then some (voltage_of phase_a)
    else if k == 0xb612
    then some (voltage_of phase_b)
    else if k == 0xb613
    then some (voltage_of phase_c)
    else if k == 0xb630
    then some (power_of phase_a)
    else if k == 0xb631
    then some (power_of phase_b)
    else if k == 0xb632
    then some (power_of phase_c)
    else if k == 0xb621
    then some (current_of phase_a)
    else if k == 0xb622
    then some (current_of phase_b)
    else if k == 0xb623
    then some (current_of phase_c)
    else if k == 0xe421
    then some credit_of
    else if k == 0xc111
    then some report_of
    else if k == 0xc010
    then some date_of
    else if k == 0xc011
    then some time_of
    else none

unfoldable pub process : Processor → List ℕ → ResponseData
unfolding decode_read_voltage decode_read_power decode_read_current decode_read_credit
    decode_read_report decode_read_date decode_read_time
process (voltage_of phase) bytes = decode_read_voltage phase bytes
process (power_of phase) bytes = decode_read_power phase bytes
process (current_of phase) bytes = decode_read_current phase bytes
process credit_of bytes = decode_read_credit bytes
process report_of bytes = decode_read_report bytes
process date_of bytes = decode_read_date bytes
process time_of bytes = decode_read_time bytes

abbrev pub is_report : Processor → Bool
is_report report_of = true
is_report (voltage_of phase) = false
is_report (power_of phase) = false
is_report (current_of phase) = false
is_report credit_of = false
is_report date_of = false
is_report time_of = false

abbrev pub combined_pair : List ℕ → ℕ
combined_pair [] = 0
combined_pair (a ∷ []) = subtract_33h a
combined_pair (a ∷ b ∷ rest) = subtract_33h a + subtract_33h b * 2 ^ 8

-- The number that the two bytes of the identifier stand for.
abbrev pub data_identifier_of : List ℕ → ℕ
data_identifier_of bytes = combined_pair (subarray 10 12 bytes)

abbrev pub success : ResponseData → DecodedEvent
success content = record {
  status = execution_success;
  content = content;
  failure_reason = none;
  unsolicited_read_report = false;
}

abbrev pub failure : ResponseData → Text → DecodedEvent
failure content reason = record {
  status = execution_failure;
  content = content;
  failure_reason = some reason;
  unsolicited_read_report = false;
}

abbrev pub or_zero : Option ℕ → ℕ
or_zero none = 0
or_zero (some n) = n

abbrev pub read_outcome : CalinControlCode → Bool → ResponseData → DecodedEvent
read_outcome operation true content = record (success content) { unsolicited_read_report = true }
read_outcome reading_success false content = success content
read_outcome operation false content =
    failure content (txt "Delivery was successful but the readout was not (successfully) executed")

-- A frame shorter than the size it declares is refused.
abbrev pub decode_processed : CalinControlCode → List ℕ → Option Processor → Option DecodedEvent
decode_processed operation bytes none = none
decode_processed operation bytes (some processor) =
    if ltb (length bytes) (12 + or_zero (get_elem? bytes 9))
    then none
    else some (read_outcome operation (is_report processor) (process processor bytes))

abbrev pub decode_operation : CalinControlCode → List ℕ → Option DecodedEvent
decode_operation send_token_success bytes = some (success (token_accepted true))
decode_operation send_token_failure bytes =
    some (
      failure (token_accepted false) (txt "Delivery was successful but the token was not accepted"))
decode_operation writing_success bytes = some (success (on_off_toggle_accepted true))
decode_operation writing_failure bytes = some (
    failure (on_off_toggle_accepted false)
      (txt "Delivery was successful but the command was not (successfully) executed"))
decode_operation reading_success bytes =
    decode_processed reading_success bytes (data_processor_map (data_identifier_of bytes))
decode_operation reading_failure bytes =
    decode_processed reading_failure bytes (data_processor_map (data_identifier_of bytes))

abbrev pub is_byte : ℕ → Option ℕ → Bool
is_byte n none = false
is_byte n (some b) = b == n

abbrev pub has_headers : List ℕ → Bool
has_headers bytes =
    is_byte header_byte (get_elem? bytes 0)
    && is_byte header_byte (get_elem? bytes 7)
    && is_byte end_byte (get_elem? bytes (length bytes - 1))

abbrev pub control_code_of : Option ℕ → Option CalinControlCode
control_code_of none = none
control_code_of (some c) = control_code_map c

-- The checksum is the byte before the last, over all before it.
abbrev pub checksum_matches : List ℕ → Bool
checksum_matches bytes =
    is_byte (sum_bytes (take (length bytes - 2) bytes) % 256) (get_elem? bytes (length bytes - 2))

abbrev pub decode_controlled : List ℕ → Option CalinControlCode → Option DecodedEvent
decode_controlled bytes none = none
decode_controlled bytes (some operation) =
    if checksum_matches bytes then decode_operation operation bytes else none

unfoldable pub decode_frame : List ℕ → Option DecodedEvent
decode_frame bytes =
    if has_headers bytes
    then decode_controlled bytes (control_code_of (get_elem? bytes 8))
    else none

abbrev pub big_endian : ℕ → List ℕ → ℕ
big_endian acc [] = acc
big_endian acc (b ∷ bs) = big_endian (acc * 256 + b) bs

-- The last four bytes, as one number.
abbrev pub decode_dlms : List ℕ → ResponseData
decode_dlms bytes = power_limit (big_endian 0 (drop (length bytes - 4) bytes))

-- None is a frame that is invalid or not supported.
unfoldable pub decode_response_data : List ℕ → Option DecodedEvent
unfolding decode_frame
decode_response_data bytes =
    if is_byte 0 (get_elem? bytes 0) then some (success (decode_dlms bytes)) else decode_frame bytes
