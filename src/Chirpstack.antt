-- ===== src/Chirpstack.antt =====
-- src/plugins/calin-chirpstack: the bytes of the meters' protocol. A frame is a list of bytes; the
-- base64 around it and the gRPC client are left out.
pub mod Encode
pub mod Readout
pub mod Decode
pub mod Correlate
pub mod Incoming
pub mod Outgoing
use nxt_device_messaging.Common.{
  ℕ, ◌+◌, ◌-◌, ◌*◌, ◌/◌, ◌%◌, ◌<◌, Text, ◌&&◌, Option, none, some, List, [], ◌∷◌, ◌++◌, replicate,
  length, leb, ltb, if◌then◌else◌,
}
use nxt_device_messaging.Common.Maybe.{◌>>=◌}

abbrev pub header_byte : ℕ
header_byte = 0x68

abbrev pub end_byte : ℕ
end_byte = 0x16

abbrev pub IsByte : ℕ → Type 0
IsByte b = b < 256

-- `(byte + 0x33) & 0xFF`.
abbrev pub add_33h : ℕ → ℕ
add_33h b = (b + 0x33) % 256

-- `(byte - 0x33 + 256) % 256`.
abbrev pub subtract_33h : ℕ → ℕ
subtract_33h b = (b + 205) % 256

abbrev pub sum_bytes : List ℕ → ℕ
sum_bytes [] = 0
sum_bytes (b ∷ bs) = b + sum_bytes bs

-- A decimal value up to 99 as one byte with a digit in each half.
abbrev pub to_bcd : ℕ → Option ℕ
to_bcd value = if ltb 99 value then none else some (value / 10 * 16 + value % 10)

-- The value of a character of [0-9a-fA-F].
abbrev pub hex_digit : ℕ → Option ℕ
hex_digit c =
    if leb 48 c && leb c 57
    then some (c - 48)
    else if leb 97 c && leb c 102
    then some (c - 87)
    else if leb 65 c && leb c 70
    then some (c - 55)
    else none

unfoldable pub hex_pairs : Text → Option (List ℕ)
hex_pairs [] = some []
hex_pairs (a ∷ []) = none
hex_pairs (a ∷ b ∷ rest) = do
  x ← hex_digit a
  y ← hex_digit b
  bytes ← hex_pairs rest
  some ((x * 16 + y) ∷ bytes)

-- The empty text, an odd length and any other character are malformed.
unfoldable pub hex_to_bytes : Text → Option (List ℕ)
unfolding hex_pairs
hex_to_bytes [] = none
hex_to_bytes (c ∷ cs) = hex_pairs (c ∷ cs)

-- `t.padStart(n, c)`, for one character.
abbrev pub pad_start : ℕ → ℕ → Text → Text
pad_start n c t = replicate (n - length t) c ++ t
