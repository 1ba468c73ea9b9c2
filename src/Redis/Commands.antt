-- ===== src/Redis/Commands.antt =====
-- Sequences of commands: joining them, and those that only take things away.
use nxt_device_messaging.Common.{
  Text, ℤ, ◌≡◌, refl, ◌⊎◌, inl, inr, true, false, Bool-cases, none, some, Option-cases, List, [],
  ◌∷◌, ◌++◌, All, arith,
}
use nxt_device_messaging.Redis.{
  MessageHash, Keyspace, Command, zadd, zadd_xx, zrem, hset, hdel, expire, sadd, srem, set_ex,
  set_px_nx, del, apply, apply_all,
}

pub apply_all-append :
    (xs ys : List Command) (s : Keyspace) → apply_all (xs ++ ys) s ≡ apply_all ys (apply_all xs s)
apply_all-append [] ys s = refl
apply_all-append (c ∷ xs) ys s = apply_all-append xs ys (apply c s)

-- ZREM, SREM and DEL.
abbrev pub TakesAway : Command → Type 0
TakesAway (zrem k m) = Unit
TakesAway (srem k m) = Unit
TakesAway (del k) = Unit
TakesAway (zadd k score m) = ⊥
TakesAway (zadd_xx k score m) = ⊥
TakesAway (hset k fields) = ⊥
TakesAway (hdel k f) = ⊥
TakesAway (expire k seconds) = ⊥
TakesAway (sadd k m) = ⊥
TakesAway (set_ex k v seconds) = ⊥
TakesAway (set_px_nx k v ms) = ⊥

-- What is there afterwards was there before.
pub record Within (s' s : Keyspace) : Type 0 where
  pub zsets : (q i : Text) (score : ℤ) → s'.zset q i ≡ some score → s.zset q i ≡ some score
  pub hashes : (k : Text) (h : MessageHash) → s'.hash k ≡ some h → s.hash k ≡ some h
  pub sets : (k m : Text) → s'.set k m ≡ true → s.set k m ≡ true
  pub strings : (k v : Text) → s'.string k ≡ some v → s.string k ≡ some v

Within-refl : (s : Keyspace) → Within s s
Within-refl s = record {
  zsets = λ q i score e. e;
  hashes = λ k h e. e;
  sets = λ k m e. e;
  strings = λ k v e. e;
}

Within-trans : {s s' s'' : Keyspace} → Within s'' s' → Within s' s → Within s'' s
Within-trans a b = record {
  zsets = λ q i score e. b.zsets q i score (a.zsets q i score e);
  hashes = λ k h e. b.hashes k h (a.hashes k h e);
  sets = λ k m e. b.sets k m (a.sets k m e);
  strings = λ k v e. b.strings k v (a.strings k v e);
}

Within-apply : (c : Command) (s : Keyspace) → TakesAway c → Within (apply c s) s
Within-apply (zrem k m) s t = record {
  zsets = λ q i score e. ground arith;
  hashes = λ j h e. e;
  sets = λ j n e. e;
  strings = λ j v e. e;
}
Within-apply (srem k m) s t = record {
  zsets = λ q i score e. e;
  hashes = λ j h e. e;
  sets = λ j n e. ground arith;
  strings = λ j v e. e;
}
Within-apply (del k) s t = record {
  zsets = λ q i score e. ground arith;
  hashes = λ j h e. ground arith;
  sets = λ j n e. ground arith;
  strings = λ j v e. ground arith;
}
Within-apply (zadd k score m) s t = elim t [ ]
Within-apply (zadd_xx k score m) s t = elim t [ ]
Within-apply (hset k fields) s t = elim t [ ]
Within-apply (hdel k f) s t = elim t [ ]
Within-apply (expire k seconds) s t = elim t [ ]
Within-apply (sadd k m) s t = elim t [ ]
Within-apply (set_ex k v seconds) s t = elim t [ ]
Within-apply (set_px_nx k v ms) s t = elim t [ ]

pub Within-apply_all :
    (cs : List Command) (s : Keyspace) → All TakesAway cs → Within (apply_all cs s) s
Within-apply_all [] s t = Within-refl s
Within-apply_all (c ∷ cs) s t =
    Within-trans (Within-apply_all cs (apply c s) t.1) (Within-apply c s t.0)

-- A command of the sequence stays done, for the commands after it only take away.
abbrev pub Has : Command → List Command → Type 0
Has c [] = ⊥
Has c (d ∷ ds) = (c ≡ d) ⊎ Has c ds

pub Has-append_right : (c : Command) (xs ys : List Command) → Has c ys → Has c (xs ++ ys)
Has-append_right c [] ys h = h
Has-append_right c (x ∷ xs) ys h = inr (Has-append_right c xs ys h)

pub Has-append_left : (c : Command) (xs ys : List Command) → Has c xs → Has c (xs ++ ys)
Has-append_left c (x ∷ xs) ys (inl e) = inl e
Has-append_left c (x ∷ xs) ys (inr h) = inr (Has-append_left c xs ys h)
Has-append_left c [] ys h = elim h [ ]

-- The sequence leaves no more than the command alone does, in some earlier state.
pub Has-Within :
    (c : Command) (cs : List Command) (s : Keyspace)
    → All TakesAway cs
    → Has c cs
    → (before : Keyspace) × Within (apply_all cs s) (apply c before)
Has-Within c (d ∷ cs) s t (inl e) = (s, rw e (Within-apply_all cs (apply d s) t.1))
Has-Within c (d ∷ cs) s t (inr h) = Has-Within c cs (apply d s) t.1 h
Has-Within c [] s t h = elim h [ ]

module _ (cs : List Command) (s : Keyspace) (t : All TakesAway cs) where
  pub zrem_gone : (q i : Text) → Has (zrem q i) cs → (apply_all cs s).zset q i ≡ none
  zrem_gone q i h = elim (Option-cases ((apply_all cs s).zset q i)) [
    | inl e ↦ e
    | inr (score, e) ↦
        let (before, w) = Has-Within (zrem q i) cs s t h in
        absurd (still before score (w.zsets q i score e))
  ]
    where
      still : (k : Keyspace) (score : ℤ) → (apply (zrem q i) k).zset q i ≡ some score → ⊥
      still k score e = ground arith

  pub srem_gone : (q i : Text) → Has (srem q i) cs → (apply_all cs s).set q i ≡ false
  srem_gone q i h = elim (Bool-cases ((apply_all cs s).set q i)) [
    | inr e ↦ e
    | inl e ↦
        let (before, w) = Has-Within (srem q i) cs s t h in absurd (still before (w.sets q i e))
  ]
    where
      still : (k : Keyspace) → (apply (srem q i) k).set q i ≡ true → ⊥
      still k e = ground arith

  pub del_gone_hash : (k : Text) → Has (del k) cs → (apply_all cs s).hash k ≡ none
  del_gone_hash k h = elim (Option-cases ((apply_all cs s).hash k)) [
    | inl e ↦ e
    | inr (g, e) ↦
        let (before, w) = Has-Within (del k) cs s t h in absurd (still before g (w.hashes k g e))
  ]
    where
      still : (j : Keyspace) (g : MessageHash) → (apply (del k) j).hash k ≡ some g → ⊥
      still j g e = ground arith

  pub del_gone_string : (k : Text) → Has (del k) cs → (apply_all cs s).string k ≡ none
  del_gone_string k h = elim (Option-cases ((apply_all cs s).string k)) [
    | inl e ↦ e
    | inr (v, e) ↦
        let (before, w) = Has-Within (del k) cs s t h in absurd (still before v (w.strings k v e))
  ]
    where
      still : (j : Keyspace) (v : Text) → (apply (del k) j).string k ≡ some v → ⊥
      still j v e = ground arith
