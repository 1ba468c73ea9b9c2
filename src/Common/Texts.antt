-- ===== src/Common/Texts.antt =====
-- A text is the list of its code units, so that it can be taken apart and joined.
use Prim.Native.Nat.{ℕ, zero, suc, ◌+◌, ◌-◌, ◌/◌, ◌%◌}
use Prim.Native.Char.{code}
use Prim.Native.String.{String}
use mathlib.Core.List.{List, [], ◌∷◌, ◌++◌}
use mathlib.Core.Logic.{ite}
use mathlib.Core.Bool.{Bool, true, false, ◌||◌}
use native.Mathlib.Decide.{ℕ_discrete}
use nxt_device_messaging.Common.Tests.{ltb, if◌then◌else◌}
use nxt_device_messaging.Common.Lists.{length}

abbrev pub Text : Type 0
Text = List ℕ

-- A literal as a text.
abbrev pub txt : String → Text
txt String.[] = []
txt (String.◌∷◌ c s) = code c ∷ txt s

unfoldable pub text_discrete : Discrete Text
unfolding ℕ_discrete
text_discrete = hlevel ℕ_discrete

abbrev pub is_text : Text → Text → Bool
is_text t u = ite (text_discrete u t) true false

-- `t.startsWith(prefix)` and `t.includes(part)`.
unfoldable pub starts_with : Text → Text → Bool
starts_with [] t = true
starts_with (p ∷ ps) [] = false
starts_with (p ∷ ps) (c ∷ cs) = ite (ℕ_discrete c p) (starts_with ps cs) false

unfoldable pub includes_text : Text → Text → Bool
unfolding starts_with
includes_text part [] = starts_with part []
includes_text part (c ∷ cs) = starts_with part (c ∷ cs) || includes_text part cs

-- `String(n)` of a whole number, and `padStart(width, '0')`.
unfoldable pub decimal_within : ℕ → ℕ → Text
decimal_within zero n = []
decimal_within (suc fuel) n =
    let front = decimal_within fuel (n / 10) in
    if ltb n 10 then (n + 48) ∷ [] else front ++ (n % 10 + 48) ∷ []

unfoldable pub decimal : ℕ → Text
unfolding decimal_within
decimal n = decimal_within (n + 1) n

unfoldable pub zeros : ℕ → Text
zeros zero = []
zeros (suc n) = 48 ∷ zeros n

unfoldable pub pad_zeros : ℕ → Text → Text
unfolding zeros
pad_zeros width t = zeros (width - length t) ++ t
