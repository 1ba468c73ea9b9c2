-- ===== src/Lifecycle/Moves/Retry.antt =====
-- `enterRetry` of src/engine/lifecycle/moves.ts: what its MULTI does.
use nxt_device_messaging.Common.{
  ℕ, ◌+◌, Text, ℤ, pos, ◌≡◌, ◌≢◌, true, false, ◌⊎◌, refl, sym, ap, ◌∙◌, Option, none, some,
  Option-cases, inl, inr, List, [], ◌∷◌, arith,
}
use nxt_device_messaging.Message.{to_retry}
use nxt_device_messaging.Plugin.{DeliveryPlugin, DeliveryConfig}
use nxt_device_messaging.Redis.{
  MessageHash, Keyspace, Command, zadd, zrem, hset, hdel, delivery_queue_id_field, apply_all,
  merged, without, at, Redis, view-calls,
}
use nxt_device_messaging.Redis.Commands.{apply_all-append}
use nxt_device_messaging.Redis.Keys.{message_key, index_external_delivery_id}
use nxt_device_messaging.Lifecycle.Stages.{queue_retry_key, stage_key_for, stage_for_status}
use nxt_device_messaging.Lifecycle.Home.{
  Registry, owner, home, AtHome, Relocated, Relocated-AtHome, Relocated-AtHome_unowned,
}
use nxt_device_messaging.Lifecycle.Moves.{
  Instant, EnterRetryArgs, enter_retry, enter_if_placed, enter_retry_commands, unindex_commands,
  release_commands, retry_fields,
}

-- Dropping the stale index leaves the message hashes, and adds no member.
unindex-hash :
    (stale : Option Text) (s : Keyspace) (i : Text)
    → (apply_all (unindex_commands stale) s).hash (message_key i) ≡ s.hash (message_key i)
unfolding message_key index_external_delivery_id
unindex-hash none s i = refl
unindex-hash (some []) s i = refl
unindex-hash (some (x ∷ xs)) s i = ground arith

unindex-zset :
    (stale : Option Text) (s : Keyspace) (q i : Text) (score : ℤ)
    → (apply_all (unindex_commands stale) s).zset q i ≡ some score
    → s.zset q i ≡ some score
unindex-zset none s q i score e = e
unindex-zset (some []) s q i score e = e
unindex-zset (some (x ∷ xs)) s q i score e = ground arith

-- Releasing the slot takes the slot's key out of the hash, if there was one.
abbrev released : Option Text → MessageHash → MessageHash
released none h = h
released (some []) h = h
released (some (x ∷ xs)) h = record h { concurrency_rate_limit_key = none }

release-hash :
    (slot : Option Text) (id : Text) (s : Keyspace) (h : MessageHash) (k : Text)
    → s.hash (message_key id) ≡ some h
    → (apply_all (release_commands slot id) s).hash k
      ≡ at s.hash (message_key id) (some (released slot h)) k
release-hash none id s h k e = ground arith
release-hash (some []) id s h k e = ground arith
release-hash (some (x ∷ xs)) id s h k e = ground arith

release-zset :
    (slot : Option Text) (id : Text) (s : Keyspace)
    → (apply_all (release_commands slot id) s).zset ≡ s.zset
release-zset none id s = refl
release-zset (some []) id s = refl
release-zset (some (x ∷ xs)) id s = refl

-- The message waits in the retry queue, and its hash says so.
pub record EnteredRetry (a : EnterRetryArgs) (s : Keyspace) : Type 0 where
  pub h : MessageHash
  pub hash : s.hash (message_key a.message_id) ≡ some h
  pub count : h.retry_count ≡ some (a.current_retry_count + 1)
  pub status : h.delivery_status ≡ some to_retry
  pub history : h.failure_history ≡ some a.failure_history
  pub unsent : h.delivery_queue_id ≡ none
  pub place : s.zset queue_retry_key a.message_id ≢ none

module _ (a : EnterRetryArgs) (due : ℕ) (stale slot : Option Text) (s : Keyspace) where
  -- The hash after the MULTI.
  abbrev pub retried : MessageHash
  retried = released slot (
      without delivery_queue_id_field (merged (retry_fields a) (s.hash (message_key a.message_id))))

  abbrev core_commands : List Command
  core_commands =
      hset (message_key a.message_id) (retry_fields a)
      ∷ hdel (message_key a.message_id) delivery_queue_id_field
      ∷ zrem a.from_key a.message_id
      ∷ zadd queue_retry_key (pos due) a.message_id
      ∷ []

  abbrev core : Keyspace
  core = apply_all core_commands s

  abbrev after : Keyspace
  after = apply_all (enter_retry_commands a due stale slot) s

  after-eq :
      after
      ≡ apply_all (release_commands slot a.message_id) (apply_all (unindex_commands stale) core)
  after-eq = apply_all-append (unindex_commands stale) (release_commands slot a.message_id) core

  core-hash :
      (k : Text)
      → core.hash k
        ≡ at s.hash
            (message_key a.message_id)
            (some (
              without delivery_queue_id_field
                (merged (retry_fields a) (s.hash (message_key a.message_id)))))
            k
  core-hash k = ground arith

  abbrev unindexed : Keyspace
  unindexed = apply_all (unindex_commands stale) core

  abbrev rewritten : MessageHash
  rewritten =
      without delivery_queue_id_field (merged (retry_fields a) (s.hash (message_key a.message_id)))

  unindexed-own : unindexed.hash (message_key a.message_id) ≡ some rewritten
  unindexed-own =
      ground (arith, unindex-hash stale core a.message_id, core-hash (message_key a.message_id))

  after-zset : (q i : Text) (score : ℤ) → after.zset q i ≡ some score → core.zset q i ≡ some score
  after-zset q i score e = unindex-zset stale core q i score (
      ap (λ (f : Text → Text → Option ℤ). f q i) (sym (release-zset slot a.message_id unindexed))
      ∙ (ap (λ (k : Keyspace). k.zset q i) (sym after-eq) ∙ e))

  after-hash :
      (i : Text)
      → after.hash (message_key i)
        ≡ at s.hash (message_key a.message_id) (some retried) (message_key i)
  after-hash i =
      ap (λ (k : Keyspace). k.hash (message_key i)) after-eq
      ∙ (release-hash slot a.message_id unindexed rewritten (message_key i) unindexed-own
          ∙ ground (arith, unindex-hash stale core i, core-hash (message_key i)))

  -- The id leaves `fromKey` for the retry queue, whatever HMGET has read.
  pub enter_retry-Relocated : Relocated a.message_id a.from_key queue_retry_key retried s after
  enter_retry-Relocated = record {
    zsets = λ q i score e. ground (arith, after-zset q i score e);
    hashes = after-hash;
  }

  unindexed_place : unindexed.zset queue_retry_key a.message_id ≡ some (pos due)
  unfolding queue_retry_key index_external_delivery_id
  unindexed_place = place stale
    where
      place :
          (o : Option Text)
          → (apply_all (unindex_commands o) core).zset queue_retry_key a.message_id ≡ some (pos due)
      place none = ground arith
      place (some []) = ground arith
      place (some (x ∷ xs)) = ground arith

  -- The id is in the retry queue after the MULTI, due at `due`.
  after_place : after.zset queue_retry_key a.message_id ≡ some (pos due)
  after_place =
      ap (λ (k : Keyspace). k.zset queue_retry_key a.message_id) after-eq
      ∙ (ap (λ (f : Text → Text → Option ℤ). f queue_retry_key a.message_id)
            (release-zset slot a.message_id unindexed)
          ∙ unindexed_place)

  -- The hash counts the attempt, says that the message waits for a retry, and names no delivery.
  pub EnteredRetry-after : EnteredRetry a after
  EnteredRetry-after = record {
    h = retried;
    hash = ground (arith, after-hash a.message_id);
    count = ground arith;
    status = ground arith;
    history = ground arith;
    unsent = ground arith;
    place = ground (arith, after_place);
  }

  pub retried-status : retried.delivery_status ≡ some to_retry
  retried-status = ground arith

  pub retried-plugin :
      (h : MessageHash)
      → s.hash (message_key a.message_id) ≡ some h
      → retried.plugin_id ≡ h.plugin_id
  retried-plugin h e = ground arith

  retried-home : (p : DeliveryPlugin) → home p retried ≡ some queue_retry_key
  unfolding stage_for_status stage_key_for
  retried-home p = ground arith

  pub retried-unowned :
      (reg : Registry) → s.hash (message_key a.message_id) ≡ none → owner reg retried ≡ none
  retried-unowned reg e = ground arith

  enter_retry_commands-AtHome :
      (reg : Registry) (score : ℤ)
      → s.zset a.from_key a.message_id ≡ some score
      → AtHome reg s
      → AtHome reg after
  enter_retry_commands-AtHome reg score z h =
      elim (Option-cases (s.hash (message_key a.message_id))) [
        | inl e ↦ Relocated-AtHome_unowned enter_retry-Relocated reg (retried-unowned reg e) h
        | inr (g, e) ↦
            Relocated-AtHome enter_retry-Relocated reg g score e z (retried-plugin g e) h
              (λ p own. retried-home p)
      ]

module _ (R : Redis) (reg : Registry) (config : DeliveryConfig) (db : R.Db) (t : Instant)
    (a : EnterRetryArgs) where
  open R use {view}

  enter_if_placed-AtHome :
      (o : Option ℤ)
      → (view db).zset a.from_key a.message_id ≡ o
      → AtHome reg (view db)
      → AtHome reg (view (enter_if_placed R config t a o db).1)
  unfolding enter_if_placed
  enter_if_placed-AtHome none e h = h
  enter_if_placed-AtHome (some score) e h =
      rw view-calls (enter_retry_commands-AtHome a _ _ _ (view db) reg score e h)

  pub enter_retry-AtHome : AtHome reg (view db) → AtHome reg (view (enter_retry R config t a db).1)
  unfolding enter_retry
  enter_retry-AtHome h = enter_if_placed-AtHome ((view db).zset a.from_key a.message_id) refl h

  enter_if_placed-EnteredRetry :
      (o : Option ℤ)
      → ((o ≡ none) × (enter_if_placed R config t a o db ≡ (false, db)))
        ⊎ (((enter_if_placed R config t a o db).0 ≡ true)
            × EnteredRetry a (view (enter_if_placed R config t a o db).1))
  unfolding enter_if_placed
  enter_if_placed-EnteredRetry none = inl (refl, refl)
  enter_if_placed-EnteredRetry (some score) =
      inr (refl, rw view-calls (EnteredRetry-after a _ _ _ (view db)))

  -- Either the member is not in the queue and nothing changes, or the message enters the retry queue.
  pub enter_retry-EnteredRetry :
      (((view db).zset a.from_key a.message_id ≡ none)
        × (enter_retry R config t a db ≡ (false, db)))
      ⊎ (((enter_retry R config t a db).0 ≡ true)
          × EnteredRetry a (view (enter_retry R config t a db).1))
  unfolding enter_retry
  enter_retry-EnteredRetry = enter_if_placed-EnteredRetry ((view db).zset a.from_key a.message_id)
