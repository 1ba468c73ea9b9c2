-- ===== src/Examples/OfChirpstack.antt =====
-- The frame theorems at frames of a real size.
use nxt_device_messaging.Common.{
  ℕ, ◌≡◌, refl, ◌%◌, Text, txt, none, some, List, [], ◌∷◌, ◌++◌, set, true, false, arith, Option,
  ◌↔◌, ◌⊎◌,
}
use nxt_device_messaging.Message.{read_power, phase_a, phase_b, DeviceMessage}
use nxt_device_messaging.Chirpstack.{hex_pairs, hex_to_bytes}
use nxt_device_messaging.Chirpstack.Encode.{
  ToEncode, encode_request_data, determine_command_config, encode_date_bytes, encode_time_bytes,
  utc_weekday, meter_address, full_year,
}
use nxt_device_messaging.Chirpstack.Encode.Frame.{encode_request_data-valid}
use nxt_device_messaging.Chirpstack.Encode.Readback.{
  encode_request_data-identifies, to_set_date, to_set_time, decode_read_date-encode,
  without_password, two_digits,
}
use nxt_device_messaging.Chirpstack.Decode.{
  has_headers, checksum_matches, decode_frame, decode_response_data, DecodedEvent, failure,
  power_of, data_processor_map, data_identifier_of,
}
use nxt_device_messaging.Chirpstack.Readout.{token_accepted, decode_read_date, date}
use nxt_device_messaging.Chirpstack.Decode.Checks.{decode_response_data_one_byte_error}
use nxt_device_messaging.Chirpstack.Outgoing.{Enqueued, enqueue_failed, send_one, request_of}
use nxt_device_messaging.Chirpstack.Outgoing.GivenUp.{
  GivenUp, FrameUnregistered, send_one-GivenUp_iff,
}
use nxt_device_messaging.Examples.Fixtures.{message}

-- Wednesday, the 12th of August 2026, Thursday, the 29th of February 2024, the same day of 1900, which is
-- the first of March, the month 13 of 2025, which is January 2026, the month 0 of 2026, which is December
-- 2025, and the last day that Date has, with the one after it.
utc_weekday_test :
    (utc_weekday 2026 8 12
      ∷ utc_weekday 2024 2 29
      ∷ utc_weekday 1900 2 29
      ∷ utc_weekday 2025 13 1
      ∷ utc_weekday 2026 0 1
      ∷ utc_weekday 275760 9 13
      ∷ utc_weekday 275760 9 14
      ∷ [])
    ≡ (some 3 ∷ some 4 ∷ some 4 ∷ some 4 ∷ some 1 ∷ some 6 ∷ none ∷ [])
unfolding utc_weekday
utc_weekday_test = refl

abbrev meter_number : Text
meter_number = txt "47003123456"

abbrev to_read_power : ToEncode
to_read_power = record {
  device_identifier = meter_number;
  device_phase = phase_b;
  request_type = read_power;
  token = none;
  payload = none;
}

abbrev power_frame : List ℕ
power_frame =
    0x68 ∷ 0x56 ∷ 0x34 ∷ 0x12 ∷ 0x03 ∷ 0x70 ∷ 0x04 ∷ 0x68 ∷ 0x01 ∷ 0x02 ∷ 0x64 ∷ 0xe9 ∷ 0x33 ∷ 0x16
    ∷ []

power_frame_encoded : encode_request_data to_read_power ≡ some power_frame
unfolding encode_request_data determine_command_config meter_address hex_to_bytes hex_pairs
power_frame_encoded = refl

encode_request_data-valid_example :
    (has_headers power_frame ≡ true) × (checksum_matches power_frame ≡ true)
encode_request_data-valid_example =
    encode_request_data-valid to_read_power power_frame refl power_frame_encoded

encode_request_data-identifies_example :
    data_processor_map (data_identifier_of power_frame) ≡ some (power_of phase_b)
encode_request_data-identifies_example =
    encode_request_data-identifies to_read_power power_frame (power_of phase_b) refl
      power_frame_encoded

abbrev date_frame : List ℕ
date_frame =
    0x68 ∷ 0x56 ∷ 0x34 ∷ 0x12 ∷ 0x03 ∷ 0x70 ∷ 0x04 ∷ 0x68 ∷ 0x04 ∷ 0x0a ∷ 0x43 ∷ 0xf3 ∷ 0x33 ∷ 0x33
    ∷ 0x33 ∷ 0x33 ∷ 0x36 ∷ 0x45 ∷ 0x3b ∷ 0x59 ∷ 0x02 ∷ 0x16 ∷ []

date_frame_encoded :
    encode_request_data (to_set_date meter_number phase_a none 26 8 12) ≡ some date_frame
unfolding encode_request_data determine_command_config meter_address hex_to_bytes hex_pairs
    encode_date_bytes utc_weekday
date_frame_encoded = refl

decode_read_date-encode_example :
    decode_read_date (without_password date_frame)
    ≡ date (two_digits 12) (two_digits 8) (txt "20" ++ two_digits (full_year 26 % 100))
decode_read_date-encode_example =
    decode_read_date-encode meter_number phase_a none 26 8 12 date_frame date_frame_encoded

abbrev time_frame : List ℕ
time_frame =
    0x68 ∷ 0x56 ∷ 0x34 ∷ 0x12 ∷ 0x03 ∷ 0x70 ∷ 0x04 ∷ 0x68 ∷ 0x04 ∷ 0x09 ∷ 0x44 ∷ 0xf3 ∷ 0x33 ∷ 0x33
    ∷ 0x33 ∷ 0x33 ∷ 0x33 ∷ 0x8c ∷ 0x56 ∷ 0x08 ∷ 0x16 ∷ []

time_frame_encoded :
    encode_request_data (to_set_time meter_number phase_a none 23 59 none) ≡ some time_frame
unfolding encode_request_data determine_command_config meter_address hex_to_bytes hex_pairs
    encode_time_bytes
time_frame_encoded = refl

-- A meter's refusal of a token.
abbrev pub refusal : List ℕ
refusal =
    0x68 ∷ 0x23 ∷ 0x36 ∷ 0x33 ∷ 0x03 ∷ 0x70 ∷ 0x04 ∷ 0x68 ∷ 0xc0 ∷ 0x01 ∷ 0x34 ∷ 0xc8 ∷ 0x16 ∷ []

abbrev pub refused_event : DecodedEvent
refused_event =
    failure (token_accepted false) (txt "Delivery was successful but the token was not accepted")

refusal_decoded : decode_frame refusal ≡ some refused_event
unfolding decode_frame
refusal_decoded = refl

refusal_read : decode_response_data refusal ≡ some refused_event
unfolding decode_response_data decode_frame
refusal_read = refl

-- The code of the refusal, flipped to that of an acceptance on its way.
decode_response_data_one_byte_error_example : decode_response_data (set refusal 8 0x80) ≡ none
decode_response_data_one_byte_error_example =
    decode_response_data_one_byte_error refusal refused_event 8 0xc0 0x80 refusal_read
      (λ e. absurd (ground arith)) (λ e. absurd (ground arith)) (omega arith) refl (omega arith)
      (omega arith) (omega arith)

-- The answer to a reading of 1234.5 watts.
abbrev power_head : List ℕ
power_head = 0x68 ∷ 0x56 ∷ 0x34 ∷ 0x12 ∷ 0x03 ∷ 0x70 ∷ 0x04 ∷ 0x68 ∷ 0x81 ∷ 0x06 ∷ 0x64 ∷ 0xe9 ∷ []

abbrev power_read : DeviceMessage
power_read = record message {
  command_type = read_power;
  device = record { external_reference = meter_number; relay_node = none };
}

abbrev unknown_to : Text → List ℕ → Enqueued
unknown_to eui bytes =
    enqueue_failed (some (txt "2")) (some (txt "violates device_queue_item_dev_eui_fkey"))

abbrev power_read_frame : Option (List ℕ)
power_read_frame = encode_request_data (request_of power_read)

send_one-GivenUp_iff_example :
    GivenUp (send_one unknown_to power_read)
    ↔ ((power_read_frame ≡ none) ⊎ FrameUnregistered unknown_to power_read power_read_frame)
send_one-GivenUp_iff_example = send_one-GivenUp_iff unknown_to power_read
