-- ===== src/Chirpstack/Encode/Frame.antt =====
-- The frames that src/plugins/calin-chirpstack/lib/encode-request-data.ts writes are well formed, by
-- the checks that decode-response-data.ts makes.
use nxt_device_messaging.Common.{
  ℕ, ◌+◌, ◌-◌, ◌%◌, ◌≡◌, refl, sym, ap, ◌∙◌, subst, Text, true, false, some, some_inj, List, [],
  ◌∷◌, reverse, length, length-append, length-reverse, take-append, get_elem?,
  get_elem?-append_right, arith,
}
use nxt_device_messaging.Common.Maybe.{>>=-eq-some}
use nxt_device_messaging.Chirpstack.{end_byte, sum_bytes, hex_to_bytes, pad_start}
use nxt_device_messaging.Chirpstack.Encode.{
  ToEncode, CommandConfig, encode_request_data, encode_calin, meter_address, if_six,
  determine_command_config, frame_body, with_checksum, is_read_power_limit,
}
use nxt_device_messaging.Chirpstack.Decode.{has_headers, checksum_matches}

-- The six bytes of an address.
pub data IsAddress : List ℕ → Type 0 where
  six : (a b c d e f : ℕ) → IsAddress (a ∷ b ∷ c ∷ d ∷ e ∷ f ∷ [])

IsAddress-six : (xs : List ℕ) → length xs ≡ 6 → IsAddress xs
IsAddress-six (a ∷ b ∷ c ∷ d ∷ e ∷ f ∷ []) h = six a b c d e f
IsAddress-six [] h = absurd (omega arith)
IsAddress-six (a ∷ []) h = absurd (omega arith)
IsAddress-six (a ∷ b ∷ []) h = absurd (omega arith)
IsAddress-six (a ∷ b ∷ c ∷ []) h = absurd (omega arith)
IsAddress-six (a ∷ b ∷ c ∷ d ∷ []) h = absurd (omega arith)
IsAddress-six (a ∷ b ∷ c ∷ d ∷ e ∷ []) h = absurd (omega arith)
IsAddress-six (a ∷ b ∷ c ∷ d ∷ e ∷ f ∷ g ∷ xs) h = absurd (omega arith)

if_six-length : (xs ys : List ℕ) → if_six xs ≡ some ys → length ys ≡ 6
if_six-length xs ys e = ground arith

meter_address-IsAddress :
    (t : Text) (address : List ℕ) → meter_address t ≡ some address → IsAddress address
unfolding meter_address
meter_address-IsAddress t address e =
    let (bytes, e1, r1) = >>=-eq-some (hex_to_bytes (pad_start 12 48 t)) _ e in
    let (xs, e2, r2) = >>=-eq-some (if_six bytes) _ r1 in
    subst IsAddress (some_inj r2)
      (IsAddress-six (reverse xs) (length-reverse xs ∙ if_six-length bytes xs e2))

-- What a frame that is not the fixed one is made of.
pub record Parts (r : ToEncode) (frame : List ℕ) : Type 0 where
  pub address : List ℕ
  pub config : CommandConfig
  pub found_address : IsAddress address
  pub found_config : determine_command_config r ≡ some config
  pub made : frame ≡ with_checksum (frame_body address config)

pub encode-Parts :
    (r : ToEncode) (frame : List ℕ)
    → is_read_power_limit r.request_type ≡ false
    → encode_request_data r ≡ some frame
    → Parts r frame
unfolding encode_request_data
encode-Parts r frame other e =
    let calin : encode_calin r ≡ some frame = rw other at e in
    let (address, e1, r1) = >>=-eq-some (meter_address r.device_identifier) _ calin in
    let (config, e2, r2) = >>=-eq-some (determine_command_config r) _ r1 in
    record {
      address = address;
      config = config;
      found_address = meter_address-IsAddress r.device_identifier address e1;
      found_config = e2;
      made = sym (some_inj r2);
    }

length-with_checksum : (body : List ℕ) → length (with_checksum body) ≡ length body + 2
length-with_checksum body =
    omega (arith, length-append body ((sum_bytes body % 256) ∷ end_byte ∷ []))

with_checksum-last :
    (body : List ℕ)
    → get_elem? (with_checksum body) (length (with_checksum body) - 1) ≡ some end_byte
with_checksum-last body =
    let place : length (with_checksum body) - 1 ≡ length body + 1 =
      omega (arith, length-with_checksum body) in
    ap (get_elem? (with_checksum body)) place ∙ get_elem?-append_right body _ 1

with_checksum-matches : (body : List ℕ) → checksum_matches (with_checksum body) ≡ true
with_checksum-matches body =
    let len : length (with_checksum body) - 2 ≡ length body =
      omega (arith, length-with_checksum body) in
    let at_checksum : get_elem? (with_checksum body) (length body) ≡ some (sum_bytes body % 256) =
      (let place : length body ≡ length body + 0 = omega arith in
        ap (get_elem? (with_checksum body)) place ∙ get_elem?-append_right body _ 0) in
    rw (len, at_checksum, take-append body _) (ground arith)

headers :
    (address : List ℕ) (c : CommandConfig)
    → IsAddress address
    → has_headers (with_checksum (frame_body address c)) ≡ true
headers address c (six a1 a2 a3 a4 a5 a6) =
    rw (with_checksum-last (frame_body (a1 ∷ a2 ∷ a3 ∷ a4 ∷ a5 ∷ a6 ∷ []) c)) refl

-- Every frame that is encoded, but for the fixed one of READ_POWER_LIMIT, has both headers and the end
-- byte in their places, and the checksum that the decoder computes.
pub encode_request_data-valid :
    (r : ToEncode) (frame : List ℕ)
    → is_read_power_limit r.request_type ≡ false
    → encode_request_data r ≡ some frame
    → (has_headers frame ≡ true) × (checksum_matches frame ≡ true)
encode_request_data-valid r frame other e =
    let p = encode-Parts r frame other e in
    rw (p.made) (
      headers p.address p.config p.found_address,
      with_checksum-matches (frame_body p.address p.config),
    )
