-- ===== src/Engine/InFlight.antt =====
-- src/engine/in-flight-sends.ts: the sends that this process still awaits. A promise is named by a
-- number, equal exactly for one and the same promise; the map of promises is a function. `size` and
-- `drain` only read and are left out.
pub mod Awaited
use nxt_device_messaging.Common.{
  ℕ, Text, text_discrete, ◌≡◌, ◌≢◌, ◌↔◌, ◌⊎◌, refl, sym, ap, ◌∙◌, Bool, true, false, Option, none,
  some, inl, inr, List, [], ◌∷◌, ◌++◌, All, arith, ◌==◌, if◌then◌else◌,
}
use nxt_device_messaging.Redis.{at}

abbrev pub Sends : Type 0
Sends = Text → Option ℕ

-- A call of `track`, or a tracked promise that settles.
pub data SendEvent : Type 0 where
  tracked settled : Text → ℕ → SendEvent

abbrev pub track : Text → ℕ → Sends → Sends
track message_id promise sends = at sends message_id (some promise)

abbrev is_current : ℕ → Option ℕ → Bool
is_current promise none = false
is_current promise (some p) = p == promise

-- The `finally` of a tracked promise.
abbrev pub on_settled : Text → ℕ → Sends → Sends
on_settled message_id promise sends =
    if is_current promise (sends message_id) then at sends message_id none else sends

abbrev is_held : Option ℕ → Bool
is_held none = false
is_held (some promise) = true

abbrev pub has : Text → Sends → Bool
has message_id sends = is_held (sends message_id)

abbrev pub happen : SendEvent → Sends → Sends
happen (tracked id promise) = track id promise
happen (settled id promise) = on_settled id promise

-- The set after a history, the latest event first.
unfoldable pub sends_after : List SendEvent → Sends
sends_after [] = λ id. none
sends_after (e ∷ before) = happen e (sends_after before)

-- An event that does not touch a send: no later send of the message, and not its own end.
abbrev pub Leaves : Text → ℕ → SendEvent → Type 0
Leaves id promise (tracked j p) = j ≢ id
Leaves id promise (settled j p) = (j ≢ id) ⊎ (p ≢ promise)

-- A send that has been tracked, and neither settled nor replaced since.
pub record Outstanding (id : Text) (promise : ℕ) (history : List SendEvent) : Type 0 where
  pub after : List SendEvent
  pub before : List SendEvent
  pub split : history ≡ after ++ tracked id promise ∷ before
  pub untouched : All (Leaves id promise) after

happen-kept :
    (e : SendEvent) (s : Sends) (id : Text) (promise : ℕ)
    → Leaves id promise e
    → s id ≡ some promise
    → happen e s id ≡ some promise
happen-kept (tracked j p) s id promise l h = ground arith
happen-kept (settled j p) s id promise (inl ne) h = ground arith
happen-kept (settled j p) s id promise (inr ne) h = ground arith

kept :
    (after before : List SendEvent) (id : Text) (promise : ℕ)
    → All (Leaves id promise) after
    → sends_after (after ++ tracked id promise ∷ before) id ≡ some promise
unfolding sends_after
kept [] before id promise l = ground arith
kept (e ∷ after) before id promise l =
    happen-kept e _ id promise l.0 (kept after before id promise l.1)

-- What holds a message after an event held it before, or is the send that the event starts.
pub record Stayed (e : SendEvent) (s : Sends) (id : Text) (promise : ℕ) : Type 0 where
  pub held : s id ≡ some promise
  pub left : Leaves id promise e

tracked-eq : (j id : Text) (p promise : ℕ) → j ≡ id → p ≡ promise → tracked j p ≡ tracked id promise
tracked-eq j id p promise e f = cc

happen-held :
    (e : SendEvent) (s : Sends) (id : Text) (promise : ℕ)
    → happen e s id ≡ some promise
    → (e ≡ tracked id promise) ⊎ Stayed e s id promise
happen-held (tracked j p) s id promise h = elim (text_discrete id j) [
  | yes same ↦ inl (tracked-eq j id p promise (sym same) (ground arith))
  | no ne ↦ inr (record { held = ground arith; left = λ e. ne (sym e) })
]
happen-held (settled j p) s id promise h = elim (text_discrete id j) [
  | yes same ↦ inr (record { held = ground arith; left = inr (λ e. absurd (ground arith)) })
  | no ne ↦ inr (record { held = ground arith; left = inl (λ e. ne (sym e)) })
]

grown :
    (e : SendEvent) (before : List SendEvent) (id : Text) (promise : ℕ)
    → Leaves id promise e
    → Outstanding id promise before
    → Outstanding id promise (e ∷ before)
grown e before id promise l o = record {
  after = e ∷ o.after;
  before = o.before;
  split = ap (λ h. e ∷ h) o.split;
  untouched = (l, o.untouched);
}

started :
    (e : SendEvent) (before : List SendEvent) (id : Text) (promise : ℕ)
    → e ≡ tracked id promise
    → Outstanding id promise (e ∷ before)
started e before id promise same = record {
  after = [];
  before = before;
  split = ap (λ x. x ∷ before) same;
  untouched = tt;
}

held-Outstanding :
    (history : List SendEvent) (id : Text) (promise : ℕ)
    → sends_after history id ≡ some promise
    → Outstanding id promise history
unfolding sends_after
held-Outstanding [] id promise h = cc
held-Outstanding (e ∷ before) id promise h =
    let rest = held-Outstanding before id promise in
    elim (happen-held e (sends_after before) id promise h) [
      | inl same ↦ started e before id promise same
      | inr stayed ↦ grown e before id promise stayed.left (rest stayed.held)
    ]

has_held : (o : Option ℕ) → is_held o ≡ true → (promise : ℕ) × (o ≡ some promise)
has_held none h = cc
has_held (some promise) h = (promise, refl)

-- The set has a message after a history exactly when some send of it is outstanding: tracked, and since
-- then neither settled nor replaced by a later send of the same message, whose end does not count for it.
pub has_iff :
    (history : List SendEvent) (id : Text)
    → (has id (sends_after history) ≡ true) ↔ ((promise : ℕ) × Outstanding id promise history)
has_iff history id = (to, from)
  where
    to : has id (sends_after history) ≡ true → (promise : ℕ) × Outstanding id promise history
    to h =
        let (promise, e) = has_held (sends_after history id) h in
        (promise, held-Outstanding history id promise e)

    from : (promise : ℕ) × Outstanding id promise history → has id (sends_after history) ≡ true
    from (promise, o) =
        ap (λ h. has id (sends_after h)) o.split
        ∙ ap is_held (kept o.after o.before id promise o.untouched)
