-- ===== src/Redis/Memory.antt =====
-- A Redis that keeps the history of its commands: it shows that what the model asks of Redis can be
-- met, and it runs the concrete inputs.
use nxt_device_messaging.Common.{
  ℕ, zero, suc, ◌+◌, ◌≤◌, ◌≡◌, refl, sym, ap, ◌∙◌, inl, inr, Text, text_discrete, ℤ, pos_part,
  neg_part, ◌≤ℤ◌, Bool, true, false, Bool-cases, Option, none, some, List, [], ◌∷◌, All, length,
  take, length-take-le, leb, if◌then◌else◌, arith,
}
use nxt_device_messaging.Redis.{
  Keyspace, Command, zadd, zadd_xx, zrem, hset, hdel, expire, sadd, srem, set_ex, set_px_nx, del,
  apply, Listed, InSet, scard_after, IsFirst, IsEmpty, IsDue, Redis,
}

-- The newest command stands first.
abbrev pub History : Type 0
History = List Command

abbrev empty : Keyspace
empty = record {
  zset = λ _ _. none;
  hash = λ _. none;
  set = λ _ _. false;
  string = λ _. none;
  ttl = λ _. none;
}

unfoldable pub view_of : History → Keyspace
view_of [] = empty
view_of (c ∷ h) = apply c (view_of h)

unfoldable pub scard_of : History → Text → ℕ
unfolding view_of
scard_of [] k = 0
scard_of (c ∷ h) k = scard_after k c (view_of h) (scard_of h k)

-- The members that the history has added to some sorted set.
mentions : History → List Text
mentions [] = []
mentions (zadd k score m ∷ h) = m ∷ mentions h
mentions (zadd_xx k score m ∷ h) = m ∷ mentions h
mentions (_ ∷ h) = mentions h

module _ (k m : Text) where
  Listed-mentions :
      (h : History) (score : ℤ) → (view_of h).zset k m ≡ some score → Listed m (mentions h)
  unfolding view_of mentions
  Listed-mentions [] score e = ground arith
  Listed-mentions (zadd j s n ∷ h) score e = elim (text_discrete m n) [
    | yes p ↦ inl p
    | no p ↦ inr (Listed-mentions h score (ground arith))
  ]
  Listed-mentions (zadd_xx j s n ∷ h) score e = elim (text_discrete m n) [
    | yes p ↦ inl p
    | no p ↦ inr (Listed-mentions h score (ground arith))
  ]
  Listed-mentions (zrem j n ∷ h) score e = Listed-mentions h score (ground arith)
  Listed-mentions (hset j fields ∷ h) score e = Listed-mentions h score e
  Listed-mentions (hdel j f ∷ h) score e = Listed-mentions h score e
  Listed-mentions (expire j n ∷ h) score e = Listed-mentions h score e
  Listed-mentions (sadd j n ∷ h) score e = Listed-mentions h score e
  Listed-mentions (srem j n ∷ h) score e = Listed-mentions h score e
  Listed-mentions (set_ex j v n ∷ h) score e = Listed-mentions h score e
  Listed-mentions (set_px_nx j v n ∷ h) score e = Listed-mentions h score e
  Listed-mentions (del j ∷ h) score e = Listed-mentions h score (ground arith)

leb_ℤ : ℤ → ℤ → Bool
leb_ℤ x y = leb (pos_part x + neg_part y) (pos_part y + neg_part x)

choose : Text → Option ℤ → Option (Text × ℤ) → Option (Text × ℤ)
unfolding leb_ℤ
choose m none best = best
choose m (some score) none = some (m, score)
choose m (some score) (some (n, lowest)) =
    if leb_ℤ score lowest then some (m, score) else some (n, lowest)

module _ (f : Text → Option ℤ) where
  lowest_of : List Text → Option (Text × ℤ)
  unfolding choose
  lowest_of [] = none
  lowest_of (m ∷ ms) = choose m (f m) (lowest_of ms)

  abbrev Found : Option (Text × ℤ) → Type 0
  Found none = Unit
  Found (some (m, score)) = f m ≡ some score

  abbrev Bounds : Option (Text × ℤ) → ℤ → Type 0
  Bounds none other = ⊥
  Bounds (some (m, score)) other = score ≤ℤ other

  choose-Found :
      (m : Text) (o : Option ℤ) (best : Option (Text × ℤ))
      → f m ≡ o
      → Found best
      → Found (choose m o best)
  unfolding choose
  choose-Found m none best e h = h
  choose-Found m (some score) none e h = e
  choose-Found m (some score) (some (b, low)) e h = elim (Bool-cases (leb_ℤ score low)) [
    | inl p ↦ rw p e
    | inr p ↦ rw p h
  ]

  choose-Bounds :
      (m : Text) (score : ℤ) (best : Option (Text × ℤ)) → Bounds (choose m (some score) best) score
  unfolding choose
  choose-Bounds m score none = omega arith
  choose-Bounds m score (some (b, low)) = ground arith

  choose_keeps :
      (m : Text) (o : Option ℤ) (best : Option (Text × ℤ)) (other : ℤ)
      → Bounds best other
      → Bounds (choose m o best) other
  unfolding choose
  choose_keeps m none best other h = h
  choose_keeps m (some score) none other h = elim h [ ]
  choose_keeps m (some score) (some (b, low)) other h = ground arith

  lowest_of-Found : (ms : List Text) → Found (lowest_of ms)
  unfolding lowest_of
  lowest_of-Found [] = tt
  lowest_of-Found (m ∷ ms) = choose-Found m (f m) (lowest_of ms) refl (lowest_of-Found ms)

  lowest_of-Bounds :
      (ms : List Text) (n : Text) (other : ℤ)
      → Listed n ms
      → f n ≡ some other
      → Bounds (lowest_of ms) other
  unfolding lowest_of
  lowest_of-Bounds [] n other l e = elim l [ ]
  lowest_of-Bounds (m ∷ ms) n other (inl p) e =
      rw (ap f (sym p) ∙ e) (choose-Bounds m other (lowest_of ms))
  lowest_of-Bounds (m ∷ ms) n other (inr l) e =
      choose_keeps m (f m) (lowest_of ms) other (lowest_of-Bounds ms n other l e)

abbrev member_of : Option (Text × ℤ) → Option Text
member_of none = none
member_of (some (m, score)) = some m

unfoldable pub first_of_history : History → Text → Option Text
unfolding lowest_of mentions
first_of_history h k = member_of (lowest_of ((view_of h).zset k) (mentions h))

pub first_of_history-IsFirst :
    (h : History) (k : Text) → IsFirst (view_of h) k (first_of_history h k)
unfolding first_of_history
first_of_history-IsFirst h k =
    go (lowest_of ((view_of h).zset k) (mentions h))
      (lowest_of-Found ((view_of h).zset k) (mentions h))
      (λ n other e.
        lowest_of-Bounds ((view_of h).zset k) (mentions h) n other (Listed-mentions k n h other e)
          e)
  where
    none_of : (n : Text) (o : Option ℤ) → ((other : ℤ) → o ≡ some other → ⊥) → o ≡ none
    none_of n none absent = refl
    none_of n (some other) absent = absurd (absent other refl)

    go :
        (best : Option (Text × ℤ))
        → Found ((view_of h).zset k) best
        → ((n : Text) (other : ℤ)
            → (view_of h).zset k n ≡ some other
            → Bounds ((view_of h).zset k) best other)
        → IsFirst (view_of h) k (member_of best)
    go none found bounds = λ n. none_of n ((view_of h).zset k n) (bounds n)
    go (some (m, score)) found bounds = (score, found, bounds)

is_none : Option Text → Bool
is_none none = true
is_none (some m) = false

unfoldable pub empty_in : History → Text → Bool
unfolding is_none first_of_history
empty_in h k = is_none (first_of_history h k)

pub empty_in-IsEmpty : (h : History) (k : Text) → IsEmpty (view_of h) k (empty_in h k)
unfolding empty_in
empty_in-IsEmpty h k = go (first_of_history h k) (first_of_history-IsFirst h k)
  where
    go : (r : Option Text) → IsFirst (view_of h) k r → IsEmpty (view_of h) k (is_none r)
    go none f = f
    go (some m) f = (m, (f.0, f.1))

is_due : ℕ → Option ℤ → Bool
unfolding leb_ℤ
is_due cutoff none = false
is_due cutoff (some score) = leb_ℤ score (ℤ.pos cutoff)

due_of : (Text → Option ℤ) → ℕ → List Text → List Text
unfolding is_due
due_of f cutoff [] = []
due_of f cutoff (m ∷ ms) =
    let rest = due_of f cutoff ms in if is_due cutoff (f m) then m ∷ rest else rest

unfoldable pub range_of_history : History → Text → ℕ → ℕ → List Text
unfolding due_of mentions
range_of_history h k cutoff limit = take limit (due_of ((view_of h).zset k) cutoff (mentions h))

All-take : (P : Text → Type 0) (n : ℕ) (xs : List Text) → All P xs → All P (take n xs)
All-take P zero xs h = tt
All-take P (suc n) [] h = tt
All-take P (suc n) (x ∷ xs) h = (h.0, All-take P n xs h.1)

is_due-score :
    (cutoff : ℕ) (o : Option ℤ)
    → is_due cutoff o ≡ true
    → (score : ℤ) × (o ≡ some score) × (score ≤ℤ ℤ.pos cutoff)
unfolding is_due
is_due-score cutoff none e = cc
is_due-score cutoff (some score) e = (score, refl, ground arith)

due_of-IsDue :
    (s : Keyspace) (k : Text) (cutoff : ℕ) (ms : List Text)
    → All (IsDue s k cutoff) (due_of (s.zset k) cutoff ms)
unfolding due_of
due_of-IsDue s k cutoff [] = tt
due_of-IsDue s k cutoff (m ∷ ms) = elim (Bool-cases (is_due cutoff (s.zset k m))) [
  | inl e ↦ rw e (is_due-score cutoff (s.zset k m) e, due_of-IsDue s k cutoff ms)
  | inr e ↦ rw e (due_of-IsDue s k cutoff ms)
]

pub range-IsDue :
    (h : History) (k : Text) (cutoff limit : ℕ)
    → All (IsDue (view_of h) k cutoff) (range_of_history h k cutoff limit)
unfolding range_of_history
range-IsDue h k cutoff limit =
    All-take (IsDue (view_of h) k cutoff) limit _ (due_of-IsDue (view_of h) k cutoff (mentions h))

pub length-range :
    (h : History) (k : Text) (cutoff limit : ℕ) → length (range_of_history h k cutoff limit) ≤ limit
unfolding range_of_history
length-range h k cutoff limit = length-take-le limit _

-- The members that the history has added to some set.
added : History → List Text
added [] = []
added (sadd k m ∷ h) = m ∷ added h
added (_ ∷ h) = added h

selected : (Text → Bool) → List Text → List Text
selected f [] = []
selected f (m ∷ ms) = let rest = selected f ms in if f m then m ∷ rest else rest

-- A member is listed once for every time that it was added.
unfoldable pub members_of : History → Text → List Text
unfolding added selected
members_of h k = selected ((view_of h).set k) (added h)

selected-InSet :
    (s : Keyspace) (k : Text) (ms : List Text) → All (InSet s k) (selected (s.set k) ms)
unfolding selected
selected-InSet s k [] = tt
selected-InSet s k (m ∷ ms) = elim (Bool-cases (s.set k m)) [
  | inl e ↦ rw e (e, selected-InSet s k ms)
  | inr e ↦ rw e (selected-InSet s k ms)
]

selected-Listed :
    (f : Text → Bool) (m : Text) (ms : List Text)
    → f m ≡ true
    → Listed m ms
    → Listed m (selected f ms)
unfolding selected
selected-Listed f m [] e l = l
selected-Listed f m (n ∷ ns) e (inl same) = rw (ap f (sym same) ∙ e) (inl same)
selected-Listed f m (n ∷ ns) e (inr l) = elim (Bool-cases (f n)) [
  | inl t ↦ rw t (inr (selected-Listed f m ns e l))
  | inr t ↦ rw t (selected-Listed f m ns e l)
]

module _ (k m : Text) where
  Listed-added : (h : History) → (view_of h).set k m ≡ true → Listed m (added h)
  unfolding view_of added
  Listed-added [] e = absurd (ground arith)
  Listed-added (sadd j n ∷ h) e = elim (text_discrete m n) [
    | yes p ↦ inl p
    | no p ↦ inr (Listed-added h (ground arith))
  ]
  Listed-added (srem j n ∷ h) e = Listed-added h (ground arith)
  Listed-added (del j ∷ h) e = Listed-added h (ground arith)
  Listed-added (zadd j s n ∷ h) e = Listed-added h e
  Listed-added (zadd_xx j s n ∷ h) e = Listed-added h e
  Listed-added (zrem j n ∷ h) e = Listed-added h e
  Listed-added (hset j fields ∷ h) e = Listed-added h e
  Listed-added (hdel j f ∷ h) e = Listed-added h e
  Listed-added (expire j n ∷ h) e = Listed-added h e
  Listed-added (set_ex j v n ∷ h) e = Listed-added h e
  Listed-added (set_px_nx j v n ∷ h) e = Listed-added h e

pub members_of-InSet : (h : History) (k : Text) → All (InSet (view_of h) k) (members_of h k)
unfolding members_of
members_of-InSet h k = selected-InSet (view_of h) k (added h)

pub members_of-Listed :
    (h : History) (k m : Text) → InSet (view_of h) k m → Listed m (members_of h k)
unfolding members_of
members_of-Listed h k m e = selected-Listed ((view_of h).set k) m (added h) e (Listed-added k m h e)

pub view_of-cons : (c : Command) (h : History) → view_of (c ∷ h) ≡ apply c (view_of h)
unfolding view_of
view_of-cons c h = refl

pub scard_of-cons :
    (k : Text) (c : Command) (h : History)
    → scard_of (c ∷ h) k ≡ scard_after k c (view_of h) (scard_of h k)
unfolding scard_of
scard_of-cons k c h = refl

abbrev pub memory : Redis
memory = record {
  Db = History;
  view = view_of;
  call = λ c h. c ∷ h;
  scard = scard_of;
  first = first_of_history;
  zcard_zero = empty_in;
  smembers = members_of;
  range_by_score = range_of_history;
  view-call = view_of-cons;
  scard-call = scard_of-cons;
  first-IsFirst = first_of_history-IsFirst;
  zcard_zero-IsEmpty = empty_in-IsEmpty;
  smembers-InSet = members_of-InSet;
  smembers-Listed = members_of-Listed;
  range_by_score-IsDue = range-IsDue;
  length-range_by_score = length-range;
}
