-- ===== src/Redis/AdmissionStore.antt =====
-- src/lib/redis-repository/admission-store.ts: spacing locks and concurrency slots. A pipeline that
-- Redis does not run, and an EXISTS that fails in it, are not modelled.
use nxt_device_messaging.Common.{
  ℕ, suc, Text, txt, ◌≡◌, sym, ap, ◌∙◌, Bool, true, false, Bool-cases, inl, inr, Option, none, some,
  List, [], ◌∷◌, All, if◌then◌else◌,
}
use nxt_device_messaging.Redis.{Command, srem, set_px_nx, Redis, calls, view-calls, Listed}
use nxt_device_messaging.Redis.Keys.{message_key}
use nxt_device_messaging.Redis.Commands.{TakesAway, Has, Within, Within-apply_all, srem_gone}

abbrev is_free : Option Text → Bool
is_free none = true
is_free (some v) = false

abbrev exists {ℓ} : {A : Type ℓ} → Option A → Bool
exists none = false
exists (some x) = true

-- The SREM of every dead member.
abbrev pub srem_all : Text → List Text → List Command
srem_all key [] = []
srem_all key (m ∷ ms) = srem key m ∷ srem_all key ms

module _ (R : Redis) where
  open R use {Db, view, call}

  -- SET key "locked" PX duration NX, true for its OK.
  unfoldable pub lock_queue_for_time_ms : Text → ℕ → Db → Bool × Db
  lock_queue_for_time_ms queue_key duration_ms db = (
    is_free ((view db).string queue_key),
    call (set_px_nx queue_key (txt "locked") duration_ms) db,
  )

  -- The members that have no hash, and the number of the others.
  unfoldable pub dead_members : List Text → Db → List Text × ℕ
  dead_members [] db = ([], 0)
  dead_members (m ∷ ms) db =
      let (dead, live) = dead_members ms db in
      if exists ((view db).hash (message_key m)) then (dead, suc live) else (m ∷ dead, live)

  -- The number of live members, with the dead ones taken out.
  unfoldable pub validate_and_clean_concurrency_rate_limit : Text → Db → ℕ × Db
  unfolding dead_members
  validate_and_clean_concurrency_rate_limit key db =
      let (dead, live) = dead_members (R.smembers db key) db in
      (live, calls R (srem_all key dead) db)

  All-srem_all : (key : Text) (ms : List Text) → All TakesAway (srem_all key ms)
  All-srem_all key [] = tt
  All-srem_all key (m ∷ ms) = (tt, All-srem_all key ms)

  -- The cleaning only takes away.
  pub validate-Within :
      (key : Text) (db : Db)
      → Within (view (validate_and_clean_concurrency_rate_limit key db).1) (view db)
  unfolding validate_and_clean_concurrency_rate_limit
  validate-Within key db =
      let dead = (dead_members (R.smembers db key) db).0 in
      rw (view-calls R (srem_all key dead) db)
        (Within-apply_all (srem_all key dead) (view db) (All-srem_all key dead))

  Has-srem : (key m : Text) (ms : List Text) → Listed m ms → Has (srem key m) (srem_all key ms)
  Has-srem key m [] l = elim l [ ]
  Has-srem key m (n ∷ ns) (inl e) = inl (ap (srem key) e)
  Has-srem key m (n ∷ ns) (inr l) = inr (Has-srem key m ns l)

  Listed-dead :
      (m : Text) (ms : List Text) (db : Db)
      → (view db).hash (message_key m) ≡ none
      → Listed m ms
      → Listed m (dead_members ms db).0
  unfolding dead_members
  Listed-dead m [] db e l = l
  Listed-dead m (n ∷ ns) db e (inl same) =
      rw (ap (λ (i : Text). (view db).hash (message_key i)) (sym same) ∙ e) (inl same)
  Listed-dead m (n ∷ ns) db e (inr l) =
      elim (Bool-cases (exists ((view db).hash (message_key n)))) [
        | inl t ↦ rw t (Listed-dead m ns db e l)
        | inr t ↦ rw t (inr (Listed-dead m ns db e l))
      ]

  -- No key of a dead message stays in the set.
  pub validate_drops_dead :
      (key m : Text) (db : Db)
      → (view db).hash (message_key m) ≡ none
      → (view (validate_and_clean_concurrency_rate_limit key db).1).set key m ≡ false
  unfolding validate_and_clean_concurrency_rate_limit
  validate_drops_dead key m db e =
      let dead = (dead_members (R.smembers db key) db).0 in
      elim (Bool-cases ((view db).set key m)) [
        | inl held ↦ rw (view-calls R (srem_all key dead) db) (
            srem_gone (srem_all key dead) (view db) (All-srem_all key dead) key m (
              Has-srem key m dead
                (Listed-dead m (R.smembers db key) db e (R.smembers-Listed db key m held))))
        | inr gone ↦
            elim (Bool-cases
              ((view (validate_and_clean_concurrency_rate_limit key db).1).set key m)) [
                | inr e ↦ e
                | inl there ↦ cc ((validate-Within key db).sets key m there, gone)
              ]
      ]
