-- ===== src/Engine/Outgoing/Distribute/Sends.antt =====
-- Which message the distribution of src/engine/outgoing.ts hands to a plugin, and how often.
use nxt_device_messaging.Common.{
  ℕ, Text, txt, ℤ, ◌≡◌, ◌≢◌, refl, sym, ap, ◌∙◌, Bool, true, false, inl, inr, Option, none, some,
  some_inj, Option-cases, [], ◌∷◌, arith,
}
use nxt_device_messaging.Message.{DeviceMessage, sent_to_ns}
use nxt_device_messaging.Plugin.{DeliveryPlugin, DeliveryConfig, Admission, spacing}
use nxt_device_messaging.Plugin.QueueKey.{get_plugin_id_from_initial_queue_key}
use nxt_device_messaging.Redis.{Redis, Keyspace, MessageHash, at, or_else}
use nxt_device_messaging.Redis.Keys.{message_key, lock_for_queue}
use nxt_device_messaging.Redis.AdmissionStore.{lock_queue_for_time_ms}
use nxt_device_messaging.Redis.MessageStore.Fields.{ReadFrom, deserialize_message-ReadFrom}
use nxt_device_messaging.Redis.Scripts.{FetchArgs}
use nxt_device_messaging.Redis.Scripts.Fetch.{
  FetchOutcome, refused, picked, picked_hash, claimed, fetch-FetchOutcome,
}
use nxt_device_messaging.Redis.Scripts.Strings.{fetch-string}
use nxt_device_messaging.Lifecycle.Stages.{queue_ns_key}
use nxt_device_messaging.Lifecycle.Home.{Registry}
use nxt_device_messaging.Lifecycle.Moves.{
  Instant, ConcurrencyRateLimit, pick_into_ns, pick_args, deserialize_picked,
}
use nxt_device_messaging.Engine.{Call, World}
use nxt_device_messaging.Engine.Outgoing.Distribute.{
  can_admit, concurrency_rate_limit, owner_of_queue, distribute_admitted, distribute_owned,
  distribute_queue,
}
use nxt_device_messaging.Engine.Outgoing.Distribute.Handover.{
  Unmoved, can_admit-Unmoved, picked_in-db, picked_in-message,
}

-- The message was in the ready queue, and now it is in the queue of the ns stage with the status of
-- that stage.
pub record Handed (queue : Text) (m : DeviceMessage) (s s' : Keyspace) : Type 0 where
  pub waited : s.zset queue m.id ≢ none
  pub placed : s'.zset queue_ns_key m.id ≢ none
  pub hash : MessageHash
  pub there : s'.hash (message_key m.id) ≡ some hash
  pub status : hash.delivery_status ≡ some sent_to_ns
  pub read : m.delivery_status ≡ sent_to_ns

module _ (config : DeliveryConfig) (t : Instant) (queue : Text) (plugin : DeliveryPlugin)
    (limit : Option ConcurrencyRateLimit) where
  abbrev args : FetchArgs
  args = pick_args config t queue plugin limit

  picked-status : (h : MessageHash) → (picked_hash args h).delivery_status ≡ some sent_to_ns
  picked-status h = claimed-status args.concurrency_set _
    where
      claimed-status :
          (key : Text) (g : MessageHash) → (claimed key g).delivery_status ≡ g.delivery_status
      claimed-status [] g = refl
      claimed-status (x ∷ xs) g = refl

  FetchOutcome-Handed :
      (R : Redis) (s s' : Keyspace) (answer : Option (Text × MessageHash)) (m : DeviceMessage)
      → FetchOutcome args s s' answer
      → deserialize_picked R config answer ≡ some (some m)
      → Handed queue m s s'
  FetchOutcome-Handed R s s' answer m (refused e hashes zsets) f =
      absurd (nothing (sym (ap (deserialize_picked R config) e) ∙ f))
    where
      nothing : ◌≡◌ {A = Option (Option DeviceMessage)} none (some (some m)) → ⊥
      nothing e = cc
  FetchOutcome-Handed R s s' answer m (picked id score h placed found e zsets hashes) f =
      let read : ReadFrom id (picked_hash args h) m =
        deserialize_message-ReadFrom id (picked_hash args h) m
          (some_inj (sym (ap (deserialize_picked R config) e) ∙ f)) in
      let same = read.id_eq in
      record {
        waited = λ absent. waited_lem (sym (ap (s.zset queue) same) ∙ absent);
        placed = λ absent. at_ns (sym (ap (s'.zset queue_ns_key) same) ∙ absent);
        hash = picked_hash args h;
        there = ap (λ (i : Text). s'.hash (message_key i)) same ∙ own;
        status = picked-status h;
        read = some_inj (sym read.status ∙ picked-status h);
      }
    where
      waited_lem : s.zset queue id ≡ none → ⊥
      waited_lem absent = cc (placed, absent)

      at_ns : s'.zset queue_ns_key id ≡ none → ⊥
      at_ns absent = ground (arith, ap (λ (f : Text → Text → Option ℤ). f queue_ns_key id) zsets)

      own : s'.hash (message_key id) ≡ some (picked_hash args h)
      own = ground (arith, hashes (message_key id))

  pick_into_ns-Handed :
      (R : Redis) (db : R.Db) (m : DeviceMessage)
      → (pick_into_ns R config t queue plugin limit db).0 ≡ some (some m)
      → Handed queue m (R.view db) (R.view (pick_into_ns R config t queue plugin limit db).1)
  unfolding pick_into_ns
  pick_into_ns-Handed R db m e =
      FetchOutcome-Handed R (R.view db) _ _ m (fetch-FetchOutcome R args db) e

  pick_into_ns-string :
      (R : Redis) (db : R.Db)
      → (R.view (pick_into_ns R config t queue plugin limit db).1).string ≡ (R.view db).string
  unfolding pick_into_ns
  pick_into_ns-string R db = fetch-string R args db

module _ (R : Redis) (config : DeliveryConfig) (reg : Registry) (c : Call) (queue : Text) where
  open R use {Db, view}

  admitted-Handed :
      (plugin : DeliveryPlugin) (w : World R) (r : Bool × Db) (m : DeviceMessage)
      → Unmoved (view w.db) (view r.1)
      → (distribute_admitted R config reg c queue plugin w r).0 ≡ some m
      → Handed queue m (view w.db) (view (distribute_admitted R config reg c queue plugin w r).1.db)
  admitted-Handed plugin w (false, after) m u e = cc
  admitted-Handed plugin w (true, after) m u e =
      let limit = concurrency_rate_limit plugin.admission queue in
      let picked = pick_into_ns R config c.instant queue plugin limit after in
      let h =
        pick_into_ns-Handed config c.instant queue plugin limit R after m
          (picked_in-message R config reg c w picked m e) in
      let last = picked_in-db R config reg c w picked in
      rw last (record {
        waited =
            λ absent. h.waited (ap (λ (f : Text → Text → Option ℤ). f queue m.id) u.zsets ∙ absent);
        placed = h.placed;
        hash = h.hash;
        there = h.there;
        status = h.status;
        read = h.read;
      })

  owned-Handed :
      (o : Option DeliveryPlugin) (w : World R) (m : DeviceMessage)
      → (distribute_owned R config reg c queue o w).0 ≡ some m
      → Handed queue m (view w.db) (view (distribute_owned R config reg c queue o w).1.db)
  unfolding distribute_owned
  owned-Handed none w m e = cc
  owned-Handed (some plugin) w m e =
      admitted-Handed plugin w (can_admit R plugin.admission queue w.db) m
        (can_admit-Unmoved R plugin.admission queue w.db) e

  -- A message that a distribution hands to a plugin was a member of that ready queue, and is now in
  -- the queue of the ns stage under the status of that stage, in its hash and as the plugin sees it.
  pub distribute_queue-Handed :
      (w : World R) (m : DeviceMessage)
      → (distribute_queue R config reg c queue w).0 ≡ some m
      → Handed queue m (view w.db) (view (distribute_queue R config reg c queue w).1.db)
  unfolding distribute_queue
  distribute_queue-Handed w m e =
      owned-Handed (owner_of_queue reg (get_plugin_id_from_initial_queue_key queue)) w m e

  admitted-string :
      (plugin : DeliveryPlugin) (w : World R) (r : Bool × Db)
      → (view (distribute_admitted R config reg c queue plugin w r).1.db).string ≡ (view r.1).string
  admitted-string plugin w (false, after) = refl
  admitted-string plugin w (true, after) =
      let limit = concurrency_rate_limit plugin.admission queue in
      ap (λ (d : Db). (view d).string)
        (picked_in-db R config reg c w (pick_into_ns R config c.instant queue plugin limit after))
      ∙ pick_into_ns-string config c.instant queue plugin limit R after

  module _ (plugin : DeliveryPlugin) (ms : ℕ)
      (owned : owner_of_queue reg (get_plugin_id_from_initial_queue_key queue) ≡ some plugin)
      (spaced : plugin.admission ≡ spacing ms) where
    -- Whether it was there before or not.
    locked_after :
        (db : Db)
        → (view (can_admit R (spacing ms) queue db).1).string (lock_for_queue queue) ≢ none
    unfolding can_admit lock_queue_for_time_ms
    locked_after db = rw R.view-call (kept ((view db).string (lock_for_queue queue)))
      where
        kept :
            (o : Option Text)
            → at
                (view db).string
                (lock_for_queue queue)
                (or_else o (some (txt "locked")))
                (lock_for_queue queue)
              ≢ none
        kept none e = ground arith
        kept (some v) e = ground arith

    refused_while_locked :
        (c' : Call) (w : World R)
        → (view w.db).string (lock_for_queue queue) ≢ none
        → (distribute_queue R config reg c' queue w).0 ≡ none
    unfolding distribute_queue distribute_owned can_admit lock_queue_for_time_ms
    refused_while_locked c' w locked =
        elim (Option-cases ((view w.db).string (lock_for_queue queue))) [
          | inl absent ↦ absurd (locked absent)
          | inr (v, e) ↦ rw (owned, spaced, e) refl
        ]

    locked_by :
        (w : World R)
        → (view (distribute_queue R config reg c queue w).1.db).string (lock_for_queue queue) ≢ none
    unfolding distribute_queue distribute_owned
    locked_by w =
        let answer = can_admit R plugin.admission queue w.db in
        rw owned (λ absent. locked_after w.db (
          ap (λ (a : Admission). (view (can_admit R a queue w.db).1).string (lock_for_queue queue))
            (sym spaced)
          ∙ (sym (
                ap (λ (f : Text → Option Text). f (lock_for_queue queue))
                  (admitted-string plugin w answer))
              ∙ absent)))

    -- Under a plugin with spacing, a queue that has been distributed yields no other message while
    -- the lock is as that distribution left it, whatever else has happened since.
    pub distribute_queue_spaced :
        (c' : Call) (w w' : World R)
        → (view w'.db).string (lock_for_queue queue)
          ≡ (view (distribute_queue R config reg c queue w).1.db).string (lock_for_queue queue)
        → (distribute_queue R config reg c' queue w').0 ≡ none
    distribute_queue_spaced c' w w' same =
        refused_while_locked c' w' (λ absent. locked_by w (sym same ∙ absent))
