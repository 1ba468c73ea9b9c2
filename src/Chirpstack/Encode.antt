-- ===== src/Chirpstack/Encode.antt =====
-- src/plugins/calin-chirpstack/lib/encode-request-data.ts: a command as the bytes of a downlink frame.
-- A payload has the fields that the request schema gives it, all of them whole numbers.
pub mod Frame
pub mod Readback
use nxt_device_messaging.Common.{
  ℕ, zero, suc, ◌+◌, ◌-◌, ◌*◌, ◌/◌, ◌%◌, Text, Bool, true, false, ◌&&◌, ◌||◌, not, Option, none,
  some, List, [], ◌∷◌, ◌++◌, map, reverse, length, ltb, ◌==◌, if◌then◌else◌,
}
use nxt_device_messaging.Common.Maybe.{◌>>=◌}
use nxt_device_messaging.Message.{
  CommandType, read_voltage, read_current, read_power, read_power_limit, read_credit, read_version,
  read_date, read_time, turn_on, turn_off, set_date, set_time, clear_credit, clear_tamper,
  set_power_limit, top_up_kwh, deliver_preexisting_token, read_report, join_network, Phase, phase_a,
  phase_b, phase_c, RequestPayload, date_payload, time_payload,
}
use nxt_device_messaging.Chirpstack.{
  header_byte, end_byte, add_33h, sum_bytes, to_bcd, hex_to_bytes, pad_start,
}

pub record ToEncode : Type 0 where
  pub device_identifier : Text
  pub device_phase : Phase
  pub request_type : CommandType
  pub token : Option Text
  pub payload : Option RequestPayload

pub record CommandConfig : Type 0 where
  pub control_code : ℕ
  pub data_identifier : List ℕ
  pub raw_write_data : List ℕ
  pub requires_password : Bool

abbrev pub is_leap_year : ℕ → Bool
is_leap_year y = ((y % 4 == 0) && not (y % 100 == 0)) || (y % 400 == 0)

-- Days from the first of January to the first of the month, in a common year; month 0 is January.
abbrev pub days_before_month : ℕ → ℕ
days_before_month zero = 0
days_before_month (suc zero) = 31
days_before_month (suc (suc zero)) = 59
days_before_month (suc (suc (suc zero))) = 90
days_before_month (suc (suc (suc (suc zero)))) = 120
days_before_month (suc (suc (suc (suc (suc zero))))) = 151
days_before_month (suc (suc (suc (suc (suc (suc zero)))))) = 181
days_before_month (suc (suc (suc (suc (suc (suc (suc zero))))))) = 212
days_before_month (suc (suc (suc (suc (suc (suc (suc (suc zero)))))))) = 243
days_before_month (suc (suc (suc (suc (suc (suc (suc (suc (suc zero))))))))) = 273
days_before_month (suc (suc (suc (suc (suc (suc (suc (suc (suc (suc zero)))))))))) = 304
days_before_month (suc (suc (suc (suc (suc (suc (suc (suc (suc (suc (suc n))))))))))) = 334

-- Days from the first of January of the year 1 to that of the year `y`, for `y` from 1 on.
abbrev pub days_before_year : ℕ → ℕ
days_before_year y = 365 * (y - 1) + (y - 1) / 4 + (y - 1) / 400 - (y - 1) / 100

abbrev pub leap_day : ℕ → ℕ → ℕ
leap_day y month = if ltb 1 month && is_leap_year y then 1 else 0

-- The number of a day, counted from 1 for the first of January of the year 1, of a year from 1 on; months
-- count from one. A month past the twelfth, month 0 and a day that the month does not have run over into
-- their neighbours.
abbrev pub days_until : ℕ → ℕ → ℕ → ℕ
days_until y month day =
    let months = 12 * y + month - 1 in
    days_before_year (months / 12)
    + days_before_month (months % 12)
    + leap_day (months / 12) (months % 12)
    + day

-- `new Date(Date.UTC(y, month - 1, day)).getUTCDay()` for a year from 100 on. None is NaN: a date is at
-- most 100000000 days after the first of January 1970, which is day 719163. The first of January of the
-- year 1 was a Monday.
unfoldable pub utc_weekday : ℕ → ℕ → ℕ → Option ℕ
utc_weekday y month day =
    if ltb 100719163 (days_until y month day) then none else some (days_until y month day % 7)

abbrev pub full_year : ℕ → ℕ
full_year year = if ltb year 100 then 2000 + year else year

-- Year first: the frame reverses it.
unfoldable pub encode_date_bytes : ℕ → ℕ → ℕ → Option (List ℕ)
unfolding utc_weekday
encode_date_bytes year month day = do
  year_bcd ← to_bcd (full_year year % 100)
  month_bcd ← to_bcd month
  day_bcd ← to_bcd day
  weekday ← utc_weekday (full_year year) month day
  weekday_bcd ← to_bcd weekday
  some (year_bcd ∷ month_bcd ∷ day_bcd ∷ weekday_bcd ∷ [])

abbrev pub or_second : Option ℕ → ℕ
or_second none = 0
or_second (some s) = s

unfoldable pub encode_time_bytes : ℕ → ℕ → Option ℕ → Option (List ℕ)
encode_time_bytes hour minute second = do
  hour_bcd ← to_bcd hour
  minute_bcd ← to_bcd minute
  second_bcd ← to_bcd (or_second second)
  some (hour_bcd ∷ minute_bcd ∷ second_bcd ∷ [])

abbrev pub is_token_command : CommandType → Bool
is_token_command clear_credit = true
is_token_command clear_tamper = true
is_token_command set_power_limit = true
is_token_command top_up_kwh = true
is_token_command deliver_preexisting_token = true
is_token_command read_voltage = false
is_token_command read_current = false
is_token_command read_power = false
is_token_command read_power_limit = false
is_token_command read_credit = false
is_token_command read_version = false
is_token_command read_date = false
is_token_command read_time = false
is_token_command turn_on = false
is_token_command turn_off = false
is_token_command set_date = false
is_token_command set_time = false
is_token_command read_report = false
is_token_command join_network = false

abbrev pub phase_code : ℕ → Phase → ℕ
phase_code base phase_a = base
phase_code base phase_b = base + 1
phase_code base phase_c = base + 2

abbrev pub read_current_by_phase : Phase → List ℕ
read_current_by_phase phase = 0xb6 ∷ phase_code 0x21 phase ∷ []

abbrev pub read_power_by_phase : Phase → List ℕ
read_power_by_phase phase = 0xb6 ∷ phase_code 0x30 phase ∷ []

abbrev pub read_voltage_by_phase : Phase → List ℕ
read_voltage_by_phase phase = 0xb6 ∷ phase_code 0x11 phase ∷ []

abbrev pub reading : List ℕ → CommandConfig
reading data_identifier = record {
  control_code = 0x01;
  data_identifier = data_identifier;
  raw_write_data = [];
  requires_password = false;
}

abbrev pub writing : List ℕ → List ℕ → CommandConfig
writing data_identifier raw_write_data = record {
  control_code = 0x04;
  data_identifier = data_identifier;
  raw_write_data = raw_write_data;
  requires_password = true;
}

abbrev pub sending_token : List ℕ → CommandConfig
sending_token token_bytes = record {
  control_code = 0x00;
  data_identifier = 0xa1 ∷ 0x20 ∷ [];
  raw_write_data = reverse (map add_33h token_bytes);
  requires_password = false;
}

-- A missing token and an empty one are malformed.
abbrev pub token_config : Option Text → Option CommandConfig
token_config none = none
token_config (some token) = do token_bytes ← hex_to_bytes token; some (sending_token token_bytes)

abbrev pub date_config : Option RequestPayload → Option CommandConfig
date_config none = none
date_config (some (time_payload hour minute second)) = none
date_config (some (date_payload year month day)) = do
  raw ← encode_date_bytes year month day
  some (writing (0xc0 ∷ 0x10 ∷ []) raw)

abbrev pub time_config : Option RequestPayload → Option CommandConfig
time_config none = none
time_config (some (date_payload year month day)) = none
time_config (some (time_payload hour minute second)) = do
  raw ← encode_time_bytes hour minute second
  some (writing (0xc0 ∷ 0x11 ∷ []) raw)

-- The commands that are not deliveries of a token.
abbrev pub plain_config : CommandType → Phase → Option RequestPayload → Option CommandConfig
plain_config turn_on phase payload = some (writing (0xc0 ∷ 0x3d ∷ []) (0x96 ∷ []))
plain_config turn_off phase payload = some (writing (0xc0 ∷ 0x3c ∷ []) (0x35 ∷ []))
plain_config set_date phase payload = date_config payload
plain_config set_time phase payload = time_config payload
plain_config read_credit phase payload = some (reading (0xe4 ∷ 0x21 ∷ []))
plain_config read_date phase payload = some (reading (0xc0 ∷ 0x10 ∷ []))
plain_config read_time phase payload = some (reading (0xc0 ∷ 0x11 ∷ []))
plain_config read_voltage phase payload = some (reading (read_voltage_by_phase phase))
plain_config read_power phase payload = some (reading (read_power_by_phase phase))
plain_config read_current phase payload = some (reading (read_current_by_phase phase))
plain_config read_power_limit phase payload = none
plain_config read_version phase payload = none
plain_config clear_credit phase payload = none
plain_config clear_tamper phase payload = none
plain_config set_power_limit phase payload = none
plain_config top_up_kwh phase payload = none
plain_config deliver_preexisting_token phase payload = none
plain_config read_report phase payload = none
plain_config join_network phase payload = none

unfoldable pub determine_command_config : ToEncode → Option CommandConfig
determine_command_config r =
    if is_token_command r.request_type
    then token_config r.token
    else plain_config r.request_type r.device_phase r.payload

abbrev pub encode_dlms : List ℕ
encode_dlms =
    0x00 ∷ 0x01 ∷ 0x00 ∷ 0x66 ∷ 0x00 ∷ 0x01 ∷ 0x00 ∷ 0x0d ∷ 0xc0 ∷ 0x01 ∷ 0xc1 ∷ 0x00 ∷ 0x47 ∷ 0x00
    ∷ 0x00 ∷ 0x11 ∷ 0x00 ∷ 0x00 ∷ 0xff ∷ 0x03 ∷ 0x00 ∷ []

abbrev pub password_bytes : List ℕ
password_bytes = 0x00 ∷ 0x00 ∷ 0x00 ∷ 0x00 ∷ []

abbrev pub write_bytes : CommandConfig → List ℕ
write_bytes c =
    if c.requires_password
    then reverse (map add_33h password_bytes) ++ reverse (map add_33h c.raw_write_data)
    else c.raw_write_data

abbrev pub frame_body : List ℕ → CommandConfig → List ℕ
frame_body address c =
    header_byte ∷ address
    ++ (header_byte
          ∷ c.control_code
          ∷ (2 + length (write_bytes c))
          ∷ reverse (map add_33h c.data_identifier)
        ++ write_bytes c)

abbrev pub with_checksum : List ℕ → List ℕ
with_checksum body = body ++ (sum_bytes body % 256) ∷ end_byte ∷ []

-- Six bytes, or none.
abbrev pub if_six : List ℕ → Option (List ℕ)
if_six bytes = if length bytes == 6 then some bytes else none

-- 48 is the character 0.
unfoldable pub meter_address : Text → Option (List ℕ)
meter_address device_identifier = do
  bytes ← hex_to_bytes (pad_start 12 48 device_identifier)
  six ← if_six bytes
  some (reverse six)

abbrev pub encode_calin : ToEncode → Option (List ℕ)
encode_calin r = do
  address ← meter_address r.device_identifier
  config ← determine_command_config r
  some (with_checksum (frame_body address config))

abbrev pub is_read_power_limit : CommandType → Bool
is_read_power_limit read_power_limit = true
is_read_power_limit _ = false

-- None is a command or payload that cannot be encoded.
unfoldable pub encode_request_data : ToEncode → Option (List ℕ)
encode_request_data r =
    if is_read_power_limit r.request_type then some encode_dlms else encode_calin r
