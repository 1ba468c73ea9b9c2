-- ===== src/Chirpstack/Readout.antt =====
-- src/plugins/calin-chirpstack/lib/decode-response-data.ts: the readouts. A value that the code divides
-- by a power of ten is kept undivided, a float as the four bytes of its pattern, and none where a
-- missing byte makes the code's value NaN.
use nxt_device_messaging.Common.{
  ℕ, suc, ◌+◌, ◌-◌, ◌*◌, ◌/◌, ◌%◌, ◌^◌, Text, txt, ℤ, pos, negsuc, neg_ℕ, Bool, false, Option, none,
  some, List, [], ◌∷◌, ◌++◌, map, reverse, length, take, drop, get_elem?, ltb, ◌==◌, if◌then◌else◌,
}
use nxt_device_messaging.Message.{Phase}
use nxt_device_messaging.Chirpstack.{subtract_33h}

-- `bytes.subarray(a, b)`.
abbrev pub subarray : ℕ → ℕ → List ℕ → List ℕ
subarray a b bytes = take (b - a) (drop a bytes)

-- The decimal digits of a half byte: two of them from ten on.
abbrev pub nibble_digits : ℕ → ℕ → ℕ
nibble_digits acc n = if ltb n 10 then acc * 10 + n else acc * 100 + n

abbrev pub bcd_fold : ℕ → List ℕ → ℕ
bcd_fold acc [] = acc
bcd_fold acc (b ∷ bs) = bcd_fold (nibble_digits (nibble_digits acc (b / 16)) (b % 16)) bs

-- The last byte is the most significant one. `parseInt` of no digits is NaN.
unfoldable pub bcd_to_integer : List ℕ → Option ℕ
bcd_to_integer [] = none
bcd_to_integer (b ∷ bs) = some (bcd_fold 0 (reverse (b ∷ bs)))

abbrev pub hex_char : ℕ → ℕ
hex_char n = if ltb n 10 then n + 48 else n + 87

-- The last two characters of a zero and the byte in hexadecimal; of "NaN", where there is no byte.
abbrev pub byte_text : Option ℕ → Text
byte_text none = txt "aN"
byte_text (some b) = hex_char (b / 16) ∷ hex_char (b % 16) ∷ []

abbrev pub byte_at : List ℕ → ℕ → Option ℕ
byte_at bytes i = subtracted (get_elem? bytes i)
  where
    subtracted : Option ℕ → Option ℕ
    subtracted none = none
    subtracted (some b) = some (subtract_33h b)

abbrev pub parse_date_time_byte : List ℕ → ℕ → Text
parse_date_time_byte bytes i = byte_text (byte_at bytes i)

-- `byte << 24` in 32 bits with a sign, for the fourth byte; the rest of a longer array does not occur.
abbrev pub shifted_24 : ℕ → ℤ
shifted_24 b = if ltb b 128 then pos (b * 2 ^ 24) else neg_ℕ ((256 - b) * 2 ^ 24)

abbrev pub plus : ℕ → ℤ → ℤ
plus n (pos m) = pos (n + m)
plus n (negsuc m) = if ltb m n then pos (n - suc m) else negsuc (m - n)

-- Little-endian, of at most four bytes.
abbrev pub reverse_and_combine : List ℕ → ℤ
reverse_and_combine [] = pos 0
reverse_and_combine (a ∷ []) = pos (subtract_33h a)
reverse_and_combine (a ∷ b ∷ []) = pos (subtract_33h a + subtract_33h b * 2 ^ 8)
reverse_and_combine (a ∷ b ∷ c ∷ []) =
    pos (subtract_33h a + subtract_33h b * 2 ^ 8 + subtract_33h c * 2 ^ 16)
reverse_and_combine (a ∷ b ∷ c ∷ d ∷ rest) =
    plus (subtract_33h a + subtract_33h b * 2 ^ 8 + subtract_33h c * 2 ^ 16)
      (shifted_24 (subtract_33h d))

-- Big-endian pattern of a 32-bit float.
abbrev pub process_float_from_bytes : List ℕ → Option (List ℕ)
process_float_from_bytes bytes =
    if length bytes == 4 then some (reverse (map subtract_33h bytes)) else none

abbrev pub bit : ℕ → Option ℕ → Bool
bit k none = false
bit k (some s) = s / 2 ^ k % 2 == 1

pub record MeterStatus : Type 0 where
  pub relay_open : Bool
  pub battery_low : Bool
  pub magnetic_interference : Bool
  pub terminal_cover_open : Bool
  pub cover_open : Bool
  pub source2_activated : Bool
  pub current_reverse : Bool
  pub current_unbalance : Bool

pub record ReadReport : Type 0 where
  pub freeze_time : Text
  pub consumption_source1 : ℤ
  pub purchase_remain_source1 : Option (List ℕ)
  pub consumption_source2 : ℤ
  pub purchase_remain_source2 : Option (List ℕ)
  pub interval_demand : ℤ
  pub voltage : ℤ
  pub current : ℤ
  pub meter_status : MeterStatus

-- `power_limit` in watts; `voltage` and `current` in hundredths, `power` in tenths, `credit` in
-- hundredths of a kilowatt hour with its level and whether the relay is on.
pub data ResponseData : Type 0 where
  power_limit : ℕ → ResponseData
  token_accepted on_off_toggle_accepted : Bool → ResponseData
  voltage power current : Option ℕ → Phase → ResponseData
  credit : Option ℕ → Option ℕ → Bool → ResponseData
  report : ReadReport → ResponseData
  date : Text → Text → Text → ResponseData
  time : Text → Text → Text → ResponseData

unfoldable pub decode_read_voltage : Phase → List ℕ → ResponseData
decode_read_voltage phase bytes =
    voltage (bcd_to_integer (map subtract_33h (subarray 13 16 bytes))) phase

unfoldable pub decode_read_power : Phase → List ℕ → ResponseData
decode_read_power phase bytes =
    power (bcd_to_integer (map subtract_33h (subarray 12 16 bytes))) phase

unfoldable pub decode_read_current : Phase → List ℕ → ResponseData
decode_read_current phase bytes =
    current (bcd_to_integer (map subtract_33h (subarray 12 14 bytes))) phase

abbrev pub is_zero : Option ℕ → Bool
is_zero none = false
is_zero (some n) = n == 0

unfoldable pub decode_read_credit : List ℕ → ResponseData
decode_read_credit bytes =
    credit (bcd_to_integer (map subtract_33h (subarray 12 16 bytes))) (byte_at bytes 16)
      (is_zero (byte_at bytes 17))

-- Seconds first on the wire.
unfoldable pub decode_read_time : List ℕ → ResponseData
decode_read_time bytes =
    time (parse_date_time_byte bytes 14) (parse_date_time_byte bytes 13)
      (parse_date_time_byte bytes 12)

-- Day, month and year; the weekday in byte 12 is not returned.
unfoldable pub decode_read_date : List ℕ → ResponseData
decode_read_date bytes =
    date (parse_date_time_byte bytes 13) (parse_date_time_byte bytes 14)
      (txt "20" ++ parse_date_time_byte bytes 15)

abbrev pub meter_status_of : Option ℕ → MeterStatus
meter_status_of s = record {
  relay_open = bit 0 s;
  battery_low = bit 1 s;
  magnetic_interference = bit 2 s;
  terminal_cover_open = bit 3 s;
  cover_open = bit 4 s;
  source2_activated = bit 5 s;
  current_reverse = bit 6 s;
  current_unbalance = bit 7 s;
}

unfoldable pub decode_read_report : List ℕ → ResponseData
decode_read_report bytes = report (record {
  freeze_time =
      txt "20"
      ++ (parse_date_time_byte bytes 17
          ++ (txt "-"
              ++ (parse_date_time_byte bytes 16
                  ++ (txt "-"
                      ++ (parse_date_time_byte bytes 15
                          ++ (txt " "
                              ++ (parse_date_time_byte bytes 14
                                  ++ (txt ":" ++ parse_date_time_byte bytes 13))))))));
  consumption_source1 = reverse_and_combine (subarray 18 22 bytes);
  purchase_remain_source1 = process_float_from_bytes (subarray 22 26 bytes);
  consumption_source2 = reverse_and_combine (subarray 26 30 bytes);
  purchase_remain_source2 = process_float_from_bytes (subarray 30 34 bytes);
  interval_demand = reverse_and_combine (subarray 34 38 bytes);
  voltage = reverse_and_combine (subarray 38 40 bytes);
  current = reverse_and_combine (subarray 40 44 bytes);
  meter_status = meter_status_of (byte_at bytes 44);
})
