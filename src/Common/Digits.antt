-- ===== src/Common/Digits.antt =====
-- Numbers written out, and texts taken apart at a separator.
use Prim.Native.Nat.{ℕ, zero, suc, ◌+◌, ◌-◌, ◌*◌, ◌/◌, ◌%◌, ◌≤◌, ◌<◌}
use mathlib.Core.Path.{◌≡◌, refl, ap, ◌∙◌}
use mathlib.Core.Logic.{◌≢◌}
use mathlib.Core.List.{[], ◌∷◌, ◌++◌}
use native.Mathlib.Omega.{arith}
use nxt_device_messaging.Common.Tests.{ltb, if◌then◌else◌}
use native.Mathlib.Decide.{dec_lt}
use nxt_device_messaging.Common.Lists.{length, All, All-append}
use nxt_device_messaging.Common.Texts.{Text, decimal, decimal_within, zeros, pad_zeros}

abbrev pub IsDigit : ℕ → Type 0
IsDigit c = (48 ≤ c) × (c ≤ 57)

-- The number that the digits write, behind those that write `acc`.
abbrev pub value : ℕ → Text → ℕ
value acc [] = acc
value acc (c ∷ cs) = value (acc * 10 + (c - 48)) cs

value-append : (acc : ℕ) (t : Text) (c : ℕ) → value acc (t ++ c ∷ []) ≡ value acc t * 10 + (c - 48)
value-append acc [] c = refl
value-append acc (x ∷ t) c = value-append (acc * 10 + (x - 48)) t c

decimal_within-IsDigit : (fuel n : ℕ) → All IsDigit (decimal_within fuel n)
unfolding decimal_within
decimal_within-IsDigit zero n = tt
decimal_within-IsDigit (suc fuel) n = elim (dec_lt n 10) [
  | yes p ↦ ground arith
  | no p ↦
      let rest =
        All-append IsDigit (decimal_within fuel (n / 10)) ((n % 10 + 48) ∷ [])
          (decimal_within-IsDigit fuel (n / 10)) (((omega arith), (omega arith)), tt) in
      ground arith
]

decimal_within-value : (fuel n : ℕ) → n < fuel → value 0 (decimal_within fuel n) ≡ n
unfolding decimal_within
decimal_within-value zero n h = absurd (omega arith)
decimal_within-value (suc fuel) n h = elim (dec_lt n 10) [
  | yes p ↦ ground arith
  | no p ↦
      let front = decimal_within-value fuel (n / 10) (omega arith) in
      let whole = value-append 0 (decimal_within fuel (n / 10)) (n % 10 + 48) in ground arith
]

append_ne_nil : (t u : Text) → u ≢ [] → t ++ u ≢ []
append_ne_nil [] u h e = h e
append_ne_nil (x ∷ t) u h e = absurd (ground arith)

cons_ne_nil : (c : ℕ) (t : Text) → c ∷ t ≢ []
cons_ne_nil c t e = absurd (ground arith)

decimal_within-ne_nil : (fuel n : ℕ) → 0 < fuel → decimal_within fuel n ≢ []
unfolding decimal_within
decimal_within-ne_nil zero n h e = absurd (omega arith)
decimal_within-ne_nil (suc fuel) n h e = elim (dec_lt n 10) [
  | yes p ↦ absurd (ground (arith, cons_ne_nil (n + 48) []))
  | no p ↦ absurd (
      ground (
        arith,
        append_ne_nil (decimal_within fuel (n / 10)) ((n % 10 + 48) ∷ []) (cons_ne_nil _ []),
      ))
]

zeros-IsDigit : (n : ℕ) → All IsDigit (zeros n)
unfolding zeros
zeros-IsDigit zero = tt
zeros-IsDigit (suc n) = (((omega arith), (omega arith)), zeros-IsDigit n)

zeros-value : (n : ℕ) (t : Text) → value 0 (zeros n ++ t) ≡ value 0 t
unfolding zeros
zeros-value zero t = refl
zeros-value (suc n) t = zeros-value n t

-- A padded number is written in digits, is not empty, and reads as the number.
pub padded-IsDigit : (width n : ℕ) → All IsDigit (pad_zeros width (decimal n))
unfolding pad_zeros decimal
padded-IsDigit width n =
    All-append IsDigit _ (decimal_within (n + 1) n) (zeros-IsDigit _)
      (decimal_within-IsDigit (n + 1) n)

pub padded_ne_nil : (width n : ℕ) → pad_zeros width (decimal n) ≢ []
unfolding pad_zeros decimal
padded_ne_nil width n =
    append_ne_nil _ (decimal_within (n + 1) n) (decimal_within-ne_nil (n + 1) n (omega arith))

pub padded-value : (width n : ℕ) → value 0 (pad_zeros width (decimal n)) ≡ n
unfolding pad_zeros decimal
padded-value width n =
    zeros-value (width - length (decimal n)) (decimal_within (n + 1) n)
    ∙ decimal_within-value (n + 1) n (omega arith)

-- Any fuel above the number gives its decimal text.
pub decimal_within-enough :
    (fuel more n : ℕ) → n < fuel → n < more → decimal_within fuel n ≡ decimal_within more n
unfolding decimal_within
decimal_within-enough zero more n h k = ground arith
decimal_within-enough (suc fuel) zero n h k = ground arith
decimal_within-enough (suc fuel) (suc more) n h k =
    let rest = decimal_within-enough fuel more (n / 10) in
    elim (dec_lt n 10) [
      | yes small ↦ ground arith
      | no large ↦
          ap (λ front. if ltb n 10 then (n + 48) ∷ [] else front ++ (n % 10 + 48) ∷ [])
            (rest (omega arith) (omega arith))
    ]
