-- ===== src/Chirpstack/Encode/Readback.antt =====
-- What encode-request-data.ts writes is what decode-response-data.ts reads, field by field.
use nxt_device_messaging.Common.{
  ℕ, ◌+◌, ◌*◌, ◌/◌, ◌%◌, ◌≤◌, ◌<◌, ◌≡◌, refl, sym, ◌∙◌, subst, ◌^◌, Text, txt, false, Option, none,
  some, some_inj, List, [], ◌∷◌, ◌++◌, take, drop, arith,
}
use nxt_device_messaging.Common.Maybe.{>>=-eq-some}
use nxt_device_messaging.Message.{
  CommandType, read_voltage, read_current, read_power, read_credit, read_date, read_time,
  read_power_limit, read_version, turn_on, turn_off, set_date, set_time, clear_credit, clear_tamper,
  set_power_limit, top_up_kwh, deliver_preexisting_token, read_report, join_network, Phase, phase_a,
  phase_b, phase_c, RequestPayload, date_payload, time_payload,
}
use nxt_device_messaging.Chirpstack.{add_33h, subtract_33h, to_bcd}
use nxt_device_messaging.Chirpstack.Encode.{
  plain_config, read_voltage_by_phase, read_power_by_phase, read_current_by_phase, is_token_command,
  ToEncode, CommandConfig, encode_request_data, determine_command_config, encode_date_bytes,
  encode_time_bytes, full_year, utc_weekday, or_second, frame_body, with_checksum, writing, reading,
  is_read_power_limit,
}
use nxt_device_messaging.Chirpstack.Encode.Frame.{encode-Parts, IsAddress, six}
use nxt_device_messaging.Chirpstack.Decode.{
  Processor, voltage_of, power_of, current_of, credit_of, date_of, time_of, data_processor_map,
  data_identifier_of,
}
use nxt_device_messaging.Chirpstack.Readout.{
  decode_read_date, decode_read_time, date, time, byte_text,
}

-- Adding and taking away 0x33 gives the byte back.
subtract_33h-add_33h : (b : ℕ) → b < 256 → subtract_33h (add_33h b) ≡ b
subtract_33h-add_33h b h = omega arith

-- A value below a hundred in two decimal digits.
abbrev pub two_digits : ℕ → Text
two_digits n = (n / 10 + 48) ∷ (n % 10 + 48) ∷ []

to_bcd-le : (n b : ℕ) → to_bcd n ≡ some b → (n ≤ 99) × (b ≡ n / 10 * 16 + n % 10)
to_bcd-le n b e = ground arith

byte_text-to_bcd :
    (n b : ℕ) → to_bcd n ≡ some b → byte_text (some (subtract_33h (add_33h b))) ≡ two_digits n
byte_text-to_bcd n b e =
    let (small, same) = to_bcd-le n b e in
    rw (subtract_33h-add_33h b (omega arith), same) (ground arith)

-- The processor for the answer to a reading, by the request.
abbrev pub processor_for : CommandType → Phase → Option Processor
processor_for read_voltage phase = some (voltage_of phase)
processor_for read_power phase = some (power_of phase)
processor_for read_current phase = some (current_of phase)
processor_for read_credit phase = some credit_of
processor_for read_date phase = some date_of
processor_for read_time phase = some time_of
processor_for _ phase = none

-- The frame of an address and a configuration.
abbrev framed : List ℕ → CommandConfig → List ℕ
framed address c = with_checksum (frame_body address c)

-- The identifier of a configuration is read back as `p`, whatever the address.
abbrev Identifies : CommandConfig → Processor → Type 0
Identifies c p =
    (address : List ℕ)
    → IsAddress address
    → data_processor_map (data_identifier_of (framed address c)) ≡ some p

identified :
    (d e : ℕ) (p q : Processor)
    → data_processor_map (subtract_33h (add_33h e) + subtract_33h (add_33h d) * 2 ^ 8) ≡ some p
    → some p ≡ some q
    → Identifies (reading (d ∷ e ∷ [])) q
identified d e p q known same address (six a1 a2 a3 a4 a5 a6) = known ∙ same

plain-Identifies :
    (t : CommandType) (phase : Phase) (payload : Option RequestPayload) (c : CommandConfig)
    (p : Processor)
    → plain_config t phase payload ≡ some c
    → processor_for t phase ≡ some p
    → Identifies c p
plain-Identifies read_voltage phase payload c p e f =
    subst (λ (x : CommandConfig). Identifies x p) (some_inj e) (voltage_phase phase f)
  where
    voltage_phase :
        (phase : Phase)
        → some (voltage_of phase) ≡ some p
        → Identifies (reading (read_voltage_by_phase phase)) p
    voltage_phase phase_a f = identified 0xb6 0x11 (voltage_of phase_a) p refl f
    voltage_phase phase_b f = identified 0xb6 0x12 (voltage_of phase_b) p refl f
    voltage_phase phase_c f = identified 0xb6 0x13 (voltage_of phase_c) p refl f
plain-Identifies read_power phase payload c p e f =
    subst (λ (x : CommandConfig). Identifies x p) (some_inj e) (power_phase phase f)
  where
    power_phase :
        (phase : Phase)
        → some (power_of phase) ≡ some p
        → Identifies (reading (read_power_by_phase phase)) p
    power_phase phase_a f = identified 0xb6 0x30 (power_of phase_a) p refl f
    power_phase phase_b f = identified 0xb6 0x31 (power_of phase_b) p refl f
    power_phase phase_c f = identified 0xb6 0x32 (power_of phase_c) p refl f
plain-Identifies read_current phase payload c p e f =
    subst (λ (x : CommandConfig). Identifies x p) (some_inj e) (current_phase phase f)
  where
    current_phase :
        (phase : Phase)
        → some (current_of phase) ≡ some p
        → Identifies (reading (read_current_by_phase phase)) p
    current_phase phase_a f = identified 0xb6 0x21 (current_of phase_a) p refl f
    current_phase phase_b f = identified 0xb6 0x22 (current_of phase_b) p refl f
    current_phase phase_c f = identified 0xb6 0x23 (current_of phase_c) p refl f
plain-Identifies read_credit phase payload c p e f =
    subst (λ (x : CommandConfig). Identifies x p) (some_inj e)
      (identified 0xe4 0x21 credit_of p refl f)
plain-Identifies read_date phase payload c p e f =
    subst (λ (x : CommandConfig). Identifies x p) (some_inj e)
      (identified 0xc0 0x10 date_of p refl f)
plain-Identifies read_time phase payload c p e f =
    subst (λ (x : CommandConfig). Identifies x p) (some_inj e)
      (identified 0xc0 0x11 time_of p refl f)
plain-Identifies read_power_limit phase payload c p e f = cc
plain-Identifies read_version phase payload c p e f = cc
plain-Identifies turn_on phase payload c p e f = cc
plain-Identifies turn_off phase payload c p e f = cc
plain-Identifies set_date phase payload c p e f = cc
plain-Identifies set_time phase payload c p e f = cc
plain-Identifies clear_credit phase payload c p e f = cc
plain-Identifies clear_tamper phase payload c p e f = cc
plain-Identifies set_power_limit phase payload c p e f = cc
plain-Identifies top_up_kwh phase payload c p e f = cc
plain-Identifies deliver_preexisting_token phase payload c p e f = cc
plain-Identifies read_report phase payload c p e f = cc
plain-Identifies join_network phase payload c p e f = cc

-- A reading is no delivery of a token, and is not the fixed frame.
is_reading :
    (t : CommandType) (phase : Phase) (p : Processor)
    → processor_for t phase ≡ some p
    → (is_token_command t ≡ false) × (is_read_power_limit t ≡ false)
is_reading t phase p e = ground arith

-- The frame of a reading carries the identifier under which the decoder has the processor for the
-- answer, with the phase that was asked for.
pub encode_request_data-identifies :
    (r : ToEncode) (frame : List ℕ) (p : Processor)
    → processor_for r.request_type r.device_phase ≡ some p
    → encode_request_data r ≡ some frame
    → data_processor_map (data_identifier_of frame) ≡ some p
unfolding determine_command_config
encode_request_data-identifies r frame p asked e =
    let (plain, other) = is_reading r.request_type r.device_phase p asked in
    let parts = encode-Parts r frame other e in
    let config : plain_config r.request_type r.device_phase r.payload ≡ some parts.config =
      rw plain at parts.found_config in
    rw (parts.made) (
      plain-Identifies r.request_type r.device_phase r.payload parts.config p config asked
        parts.address parts.found_address)

-- A written value starts behind the four bytes of the password.
abbrev pub without_password : List ℕ → List ℕ
without_password frame = take 12 frame ++ drop 16 frame

date_framed :
    (address : List ℕ) (y m d w : ℕ)
    → IsAddress address
    → decode_read_date
        (without_password (framed address (writing (0xc0 ∷ 0x10 ∷ []) (y ∷ m ∷ d ∷ w ∷ []))))
      ≡ date
          (byte_text (some (subtract_33h (add_33h d))))
          (byte_text (some (subtract_33h (add_33h m))))
          (txt "20" ++ byte_text (some (subtract_33h (add_33h y))))
unfolding decode_read_date
date_framed address y m d w (six a1 a2 a3 a4 a5 a6) = refl

time_framed :
    (address : List ℕ) (h m s : ℕ)
    → IsAddress address
    → decode_read_time
        (without_password (framed address (writing (0xc0 ∷ 0x11 ∷ []) (h ∷ m ∷ s ∷ []))))
      ≡ time
          (byte_text (some (subtract_33h (add_33h h))))
          (byte_text (some (subtract_33h (add_33h m))))
          (byte_text (some (subtract_33h (add_33h s))))
unfolding decode_read_time
time_framed address h m s (six a1 a2 a3 a4 a5 a6) = refl

module _ (device_identifier : Text) (phase : Phase) (token : Option Text) where
  abbrev pub to_set_date : ℕ → ℕ → ℕ → ToEncode
  to_set_date year month day = record {
    device_identifier = device_identifier;
    device_phase = phase;
    request_type = set_date;
    token = token;
    payload = some (date_payload year month day);
  }

  abbrev pub to_set_time : ℕ → ℕ → Option ℕ → ToEncode
  to_set_time hour minute second = record {
    device_identifier = device_identifier;
    device_phase = phase;
    request_type = set_time;
    token = token;
    payload = some (time_payload hour minute second);
  }

  -- A date that is set is the date that a reading of the same bytes gives, the password left out: the
  -- day and the month in two digits, and the year as 20 and its last two digits.
  pub decode_read_date-encode :
      (year month day : ℕ) (frame : List ℕ)
      → encode_request_data (to_set_date year month day) ≡ some frame
      → decode_read_date (without_password frame)
        ≡ date (two_digits day) (two_digits month) (txt "20" ++ two_digits (full_year year % 100))
  unfolding determine_command_config encode_date_bytes
  decode_read_date-encode year month day frame e =
      let parts = encode-Parts (to_set_date year month day) frame refl e in
      let (raw, e1, made) = >>=-eq-some (encode_date_bytes year month day) _ parts.found_config in
      let (y, ey, r1) = >>=-eq-some (to_bcd (full_year year % 100)) _ e1 in
      let (m, em, r2) = >>=-eq-some (to_bcd month) _ r1 in
      let (d, ed, r3) = >>=-eq-some (to_bcd day) _ r2 in
      let (weekday, ek, r5) = >>=-eq-some (utc_weekday (full_year year) month day) _ r3 in
      let (w, ew, r4) = >>=-eq-some (to_bcd weekday) _ r5 in
      rw
        (
          parts.made,
          sym (some_inj made),
          sym (some_inj r4),
          date_framed parts.address y m d w parts.found_address,
          byte_text-to_bcd day d ed,
          byte_text-to_bcd month m em,
          byte_text-to_bcd (full_year year % 100) y ey,
        )
        refl

  -- A time that is set is the time that a reading of the same bytes gives, the password left out, each
  -- part in two digits; a missing second is 00.
  pub decode_read_time-encode :
      (hour minute : ℕ) (second : Option ℕ) (frame : List ℕ)
      → encode_request_data (to_set_time hour minute second) ≡ some frame
      → decode_read_time (without_password frame)
        ≡ time (two_digits hour) (two_digits minute) (two_digits (or_second second))
  unfolding determine_command_config encode_time_bytes
  decode_read_time-encode hour minute second frame e =
      let parts = encode-Parts (to_set_time hour minute second) frame refl e in
      let (raw, e1, made) =
        >>=-eq-some (encode_time_bytes hour minute second) _ parts.found_config in
      let (h, eh, r1) = >>=-eq-some (to_bcd hour) _ e1 in
      let (m, em, r2) = >>=-eq-some (to_bcd minute) _ r1 in
      let (s, es, r3) = >>=-eq-some (to_bcd (or_second second)) _ r2 in
      rw
        (
          parts.made,
          sym (some_inj made),
          sym (some_inj r3),
          time_framed parts.address h m s parts.found_address,
          byte_text-to_bcd hour h eh,
          byte_text-to_bcd minute m em,
          byte_text-to_bcd (or_second second) s es,
        )
        refl
