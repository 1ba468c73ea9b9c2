-- ===== src/CalinApiV2/Tasks/Readback.antt =====
-- A clock that src/plugins/calin-api-v2/outgoing.ts sets is read back by its incoming.ts.
use mathlib.Core.List.{append_assoc}
use nxt_device_messaging.Common.{
  ℕ, ◌<◌, Text, txt, decimal, pad_zeros, IsDigit, value, padded-IsDigit, padded_ne_nil,
  padded-value, ◌≡◌, ◌≢◌, refl, sym, ap, ◌∙◌, Bool, true, false, ◌&&◌, Bool-cases, inl, inr, Option,
  some, some_inj, List, [], ◌∷◌, ◌++◌, All, ◌==◌, get_elem?, arith,
}
use nxt_device_messaging.CalinApiV1.{split, space, hyphen, to_safe_number_or_null}
use nxt_device_messaging.CalinApiV1.Tasks.{UtcDate, four_digit_year, are_safe, is_calendar_date}
use nxt_device_messaging.CalinApiV2.{date, read_clock}
use nxt_device_messaging.CalinApiV2.Tasks.{calendar_text, format_date_time}

abbrev Free : ℕ → Text → Type 0
Free d t = All (λ c. (c == d) ≡ false) t

digits-Free : (d : ℕ) (t : Text) → (IsDigit d → ⊥) → All IsDigit t → Free d t
digits-Free d [] h digits = tt
digits-Free d (c ∷ cs) h (digit, digits) =
    let ne : (c == d) ≡ false = ground arith in (ne, digits-Free d cs h digits)

-- A part without the separator stays whole.
split-end : (d : ℕ) (t : Text) → Free d t → split d t ≡ t ∷ []
unfolding split
split-end d [] free = refl
split-end d (c ∷ cs) (ne, free) = rw (ne, split-end d cs free) refl

split-part : (d : ℕ) (t u : Text) → Free d t → split d (t ++ d ∷ u) ≡ t ∷ split d u
unfolding split
split-part d [] u free = let same : (d == d) ≡ true = ground arith in rw same refl
split-part d (c ∷ cs) u (ne, free) = rw (ne, split-part d cs u free) refl

Free-append : (d : ℕ) (t u : Text) → Free d t → Free d u → Free d (t ++ u)
Free-append d [] u ft fu = fu
Free-append d (c ∷ cs) u (ne, ft) fu = (ne, Free-append d cs u ft fu)

module _ {N : Type 0} (number : Text → Option N) (show : N → Text) (is_space : ℕ → Bool)
    (of : ℕ → N)
    (reads : (t : Text)
      → All IsDigit t
      → t ≢ []
      → value 0 t < 9007199254740992
      → number t ≡ some (of (value 0 t)))
    (no_space : (c : ℕ) → IsDigit c → is_space c ≡ false) where
  digits-number :
      (t : Text)
      → All IsDigit t
      → t ≢ []
      → value 0 t < 9007199254740992
      → to_safe_number_or_null number is_space (some t) ≡ some (of (value 0 t))
  digits-number [] digits ne small = absurd (ne refl)
  digits-number (c ∷ cs) (digit, digits) ne small =
      rw (no_space c digit) (reads (c ∷ cs) (digit, digits) ne small)

  padded-number :
      (width n : ℕ)
      → n < 9007199254740992
      → to_safe_number_or_null number is_space (some (pad_zeros width (decimal n))) ≡ some (of n)
  padded-number width n small =
      digits-number (pad_zeros width (decimal n)) (padded-IsDigit width n) (padded_ne_nil width n)
        (omega (arith, padded-value width n))
      ∙ ap (λ k. some (of k)) (padded-value width n)

  module _ (utc : ℕ → ℕ → ℕ → UtcDate) (year month day : ℕ) where
    abbrev yyyy : Text
    yyyy = pad_zeros 4 (decimal year)

    abbrev mm : Text
    mm = pad_zeros 2 (decimal month)

    abbrev dd : Text
    dd = pad_zeros 2 (decimal day)

    free : (d width n : ℕ) → (IsDigit d → ⊥) → Free d (pad_zeros width (decimal n))
    free d width n h = digits-Free d (pad_zeros width (decimal n)) h (padded-IsDigit width n)

    hyphen_no_digit : IsDigit hyphen → ⊥
    hyphen_no_digit (a, b) = absurd (omega arith)

    space_no_digit : IsDigit space → ⊥
    space_no_digit (a, b) = absurd (omega arith)

    -- The parts of the date, in front of the space.
    date_parts : split hyphen (yyyy ++ hyphen ∷ (mm ++ hyphen ∷ dd)) ≡ yyyy ∷ mm ∷ dd ∷ []
    date_parts =
        split-part hyphen yyyy (mm ++ hyphen ∷ dd) (free hyphen 4 year hyphen_no_digit)
        ∙ ap (λ (ws : List Text). yyyy ∷ ws)
            (split-part hyphen mm dd (free hyphen 2 month hyphen_no_digit)
              ∙ ap (λ (ws : List Text). mm ∷ ws)
                  (split-end hyphen dd (free hyphen 2 day hyphen_no_digit)))

    abbrev date_of : Text
    date_of = yyyy ++ hyphen ∷ (mm ++ hyphen ∷ dd)

    abbrev clock : Text
    clock = txt "00:00:00"

    calendar_text-eq : calendar_text utc is_space year month day ≡ date_of ++ space ∷ clock
    calendar_text-eq = sym (
        append_assoc yyyy (hyphen ∷ (mm ++ hyphen ∷ dd)) (space ∷ clock)
        ∙ ap (λ (t : Text). yyyy ++ hyphen ∷ t) (append_assoc mm (hyphen ∷ dd) (space ∷ clock)))

    date_of-Free : Free space date_of
    date_of-Free =
        Free-append space yyyy (hyphen ∷ (mm ++ hyphen ∷ dd)) (free space 4 year space_no_digit) (
          refl,
          Free-append space mm (hyphen ∷ dd) (free space 2 month space_no_digit)
              (refl, free space 2 day space_no_digit),
        )

    first_part :
        get_elem? (split space (calendar_text utc is_space year month day)) 0 ≡ some date_of
    first_part =
        ap (λ (t : Text). get_elem? (split space t) 0) calendar_text-eq
        ∙ ap (λ (ws : List Text). get_elem? ws 0) (split-part space date_of clock date_of-Free)

    calendar_text-read :
        year < 9007199254740992
        → month < 9007199254740992
        → day < 9007199254740992
        → read_clock number show is_space (calendar_text utc is_space year month day)
          ≡ date (some (of year)) (some (of month)) (some (of day))
    calendar_text-read y m d =
        rw (first_part, date_parts)
          (rw (padded-number 4 year y, padded-number 2 month m, padded-number 2 day d) refl)

  -- A date that is sent in a task is read back from the text of that task as its full year, its month
  -- and its day, if Number() reads digits as the number that they write, below 2 ^ 53, and no digit is
  -- white space.
  pub read_clock-format_date_time :
      (utc : ℕ → ℕ → ℕ → UtcDate) (year month day : ℕ) (t : Text)
      → format_date_time utc is_space year month day ≡ some t
      → read_clock number show is_space t
        ≡ date (some (of (four_digit_year year))) (some (of month)) (some (of day))
  unfolding format_date_time
  read_clock-format_date_time utc year month day t e =
      elim (Bool-cases
        (are_safe year month day && is_calendar_date utc (four_digit_year year) month day)) [
          | inl f ↦
              let same : calendar_text utc is_space (four_digit_year year) month day ≡ t =
                some_inj (sym (rw f refl) ∙ e) in
              rw (← same) (
                calendar_text-read utc (four_digit_year year) month day (ground arith)
                  (ground arith) (ground arith))
          | inr f ↦ absurd (ground (arith, e, f))
        ]
