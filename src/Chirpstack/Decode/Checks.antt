-- ===== src/Chirpstack/Decode/Checks.antt =====
-- What the checksum of decode-response-data.ts catches, and what its numbers mean.
use mathlib.Core.List.{reverse_aux}
use nxt_device_messaging.Common.{
  ℕ, zero, suc, ◌+◌, ◌-◌, ◌*◌, ◌/◌, ◌%◌, ◌<◌, ◌≡◌, ◌≢◌, refl, sym, ap, ◌∙◌, true, false, Bool-cases,
  inl, inr, Option, none, some, some_inj, List, [], ◌∷◌, ◌++◌, map, length, take, get_elem?, set,
  length-set, get_elem?-set_ne, take-set, get_elem?-take, drop-append, All, arith,
}
use nxt_device_messaging.Message.{Phase}
use nxt_device_messaging.Chirpstack.{add_33h, subtract_33h, sum_bytes}
use nxt_device_messaging.Chirpstack.Decode.{
  CalinControlCode, DecodedEvent, decode_response_data, decode_frame, decode_controlled,
  has_headers, control_code_of, checksum_matches, is_byte,
}
use nxt_device_messaging.Chirpstack.Readout.{
  bcd_to_integer, bcd_fold, nibble_digits, decode_read_power, power,
}

sum_bytes-set :
    (xs : List ℕ) (i x v : ℕ)
    → get_elem? xs i ≡ some x
    → sum_bytes (set xs i v) + x ≡ sum_bytes xs + v
sum_bytes-set [] i x v e = cc
sum_bytes-set (y ∷ xs) zero x v e = omega (arith, some_inj e)
sum_bytes-set (y ∷ xs) (suc i) x v e = omega (arith, sum_bytes-set xs i x v e)

is_byte-eq : (n : ℕ) (o : Option ℕ) → is_byte n o ≡ true → o ≡ some n
is_byte-eq n none e = cc
is_byte-eq n (some b) e = ap some (ground arith)

checksum_differs :
    (bytes : List ℕ) (i x v : ℕ)
    → checksum_matches bytes ≡ true
    → i < length bytes - 2
    → get_elem? bytes i ≡ some x
    → x < 256
    → v < 256
    → x ≢ v
    → checksum_matches (set bytes i v) ≡ false
checksum_differs bytes i x v ok inside e hx hv ne =
    let n = length bytes - 2 in
    let total = sum_bytes (take n bytes) in
    let same : get_elem? (set bytes i v) n ≡ some (total % 256) =
      get_elem?-set_ne bytes i n v inside ∙ is_byte-eq (total % 256) (get_elem? bytes n) ok in
    let moved : sum_bytes (set (take n bytes) i v) + x ≡ total + v =
      sum_bytes-set (take n bytes) i x v (get_elem?-take bytes i n inside ∙ e) in
    rw (length-set bytes i v, same, take-set bytes i n v) (ground arith)

refused : (bytes : List ℕ) → checksum_matches bytes ≡ false → decode_frame bytes ≡ none
unfolding decode_frame
refused bytes e = elim (Bool-cases (has_headers bytes)) [
  | inl h ↦ rw h (controlled (control_code_of (get_elem? bytes 8)))
  | inr h ↦ rw h refl
]
  where
    controlled : (o : Option CalinControlCode) → decode_controlled bytes o ≡ none
    controlled none = refl
    controlled (some c) = rw e refl

accepted :
    (bytes : List ℕ) (event : DecodedEvent)
    → decode_frame bytes ≡ some event
    → checksum_matches bytes ≡ true
accepted bytes event e = elim (Bool-cases (checksum_matches bytes)) [
  | inl ok ↦ ok
  | inr wrong ↦ cc (refused bytes wrong, e)
]

decode_frame_one_byte_error :
    (bytes : List ℕ) (event : DecodedEvent) (i x v : ℕ)
    → decode_frame bytes ≡ some event
    → i < length bytes - 2
    → get_elem? bytes i ≡ some x
    → x < 256
    → v < 256
    → x ≢ v
    → decode_frame (set bytes i v) ≡ none
decode_frame_one_byte_error bytes event i x v e inside there hx hv ne =
    refused (set bytes i v)
      (checksum_differs bytes i x v (accepted bytes event e) inside there hx hv ne)

is_byte-other : (n : ℕ) (o : Option ℕ) → o ≢ some n → is_byte n o ≡ false
is_byte-other n none ne = refl
is_byte-other n (some b) ne = elim (Bool-cases (is_byte n (some b))) [
  | inl e ↦ absurd (ne (is_byte-eq n (some b) e))
  | inr e ↦ e
]

framed :
    (bytes : List ℕ) → get_elem? bytes 0 ≢ some 0 → decode_response_data bytes ≡ decode_frame bytes
unfolding decode_response_data
framed bytes start = rw (is_byte-other 0 (get_elem? bytes 0) start) refl

-- A frame that the decoder accepts, and that does not begin with the byte zero, is refused after any one
-- byte before the checksum has changed to another byte, unless the frame now begins with zero: what
-- begins with zero is read as DLMS, which has no checksum.
pub decode_response_data_one_byte_error :
    (bytes : List ℕ) (event : DecodedEvent) (i x v : ℕ)
    → decode_response_data bytes ≡ some event
    → get_elem? bytes 0 ≢ some 0
    → get_elem? (set bytes i v) 0 ≢ some 0
    → i < length bytes - 2
    → get_elem? bytes i ≡ some x
    → x < 256
    → v < 256
    → x ≢ v
    → decode_response_data (set bytes i v) ≡ none
decode_response_data_one_byte_error bytes event i x v e start start' inside there hx hv ne =
    framed (set bytes i v) start'
    ∙ decode_frame_one_byte_error bytes event i x v (sym (framed bytes start) ∙ e) inside there hx
        hv ne

-- A pair of decimal digits as a byte.
abbrev pub bcd_byte : ℕ → ℕ
bcd_byte n = n / 10 * 16 + n % 10

-- The number with these pairs of digits, the lowest pair first.
abbrev pub of_pairs : List ℕ → ℕ
of_pairs [] = 0
of_pairs (x ∷ xs) = x + 100 * of_pairs xs

abbrev pub IsPair : ℕ → Type 0
IsPair n = n < 100

nibbles :
    (acc x : ℕ)
    → x < 100
    → nibble_digits (nibble_digits acc (bcd_byte x / 16)) (bcd_byte x % 16) ≡ acc * 100 + x
nibbles acc x h = ground arith

bcd_fold-reverse :
    (xs ys : List ℕ)
    → All IsPair xs
    → bcd_fold 0 (reverse_aux (map bcd_byte xs) ys) ≡ bcd_fold (of_pairs xs) ys
bcd_fold-reverse [] ys h = refl
bcd_fold-reverse (x ∷ xs) ys h =
    bcd_fold-reverse xs (bcd_byte x ∷ ys) h.1
    ∙ ap (λ (n : ℕ). bcd_fold n ys) (omega (arith, nibbles (of_pairs xs) x h.0))

-- Pairs of decimal digits, the lowest first, are read back as the number that they write.
pub bcd_to_integer-bcd_byte :
    (x : ℕ) (xs : List ℕ)
    → All IsPair (x ∷ xs)
    → bcd_to_integer (map bcd_byte (x ∷ xs)) ≡ some (of_pairs (x ∷ xs))
unfolding bcd_to_integer
bcd_to_integer-bcd_byte x xs h = ap some (bcd_fold-reverse (x ∷ xs) [] h)

-- A byte of digits as it stands on the wire.
abbrev pub on_wire : ℕ → ℕ
on_wire n = add_33h (bcd_byte n)

off_wire : (xs : List ℕ) → All IsPair xs → map subtract_33h (map on_wire xs) ≡ map bcd_byte xs
off_wire [] h = refl
off_wire (x ∷ xs) h = grind (arith, off_wire xs h.1, off_one x h.0)
  where
    off_one : (x : ℕ) → x < 100 → subtract_33h (on_wire x) ≡ bcd_byte x
    off_one x h = omega arith

-- A reading of power is the number in the four bytes behind the identifier, lowest pair of digits
-- first, whatever stands before and behind them.
pub decode_read_power_lem :
    (phase : Phase) (before pairs behind : List ℕ)
    → length before ≡ 12
    → length pairs ≡ 4
    → All IsPair pairs
    → decode_read_power phase (before ++ (map on_wire pairs ++ behind))
      ≡ power (some (of_pairs pairs)) phase
unfolding decode_read_power
decode_read_power_lem phase before (a ∷ b ∷ c ∷ d ∷ []) behind h4 h12 h =
    rw (sym h4, drop-append before _)
      (ap (λ (o : Option ℕ). power o phase)
        (ap bcd_to_integer (off_wire (a ∷ b ∷ c ∷ d ∷ []) h)
          ∙ bcd_to_integer-bcd_byte a (b ∷ c ∷ d ∷ []) h))
decode_read_power_lem phase before [] behind h4 h12 h = absurd (omega arith)
decode_read_power_lem phase before (a ∷ []) behind h4 h12 h = absurd (omega arith)
decode_read_power_lem phase before (a ∷ b ∷ []) behind h4 h12 h = absurd (omega arith)
decode_read_power_lem phase before (a ∷ b ∷ c ∷ []) behind h4 h12 h = absurd (omega arith)
decode_read_power_lem phase before (a ∷ b ∷ c ∷ d ∷ e ∷ xs) behind h4 h12 h = absurd (omega arith)
