-- ===== src/Engine/Outgoing/Distribute/Handover.antt =====
-- What the distribution of src/engine/outgoing.ts does to the queues and the hashes.
use nxt_device_messaging.Common.{
  ℕ, Text, ℤ, ◌≡◌, refl, sym, ap, ◌∙◌, Bool, true, false, Bool-cases, inl, inr, Option, none, some,
  some_inj, List, [], ◌∷◌, leb, ◌==◌,
}
use nxt_device_messaging.Message.{DeviceMessage}
use nxt_device_messaging.Plugin.{DeliveryPlugin, DeliveryConfig, Admission, spacing, concurrency}
use nxt_device_messaging.Plugin.QueueKey.{build_concurrency_rate_limit_key}
use nxt_device_messaging.Redis.{Redis, Keyspace, MessageHash, apply_all, view-calls}
use nxt_device_messaging.Redis.Keys.{message_key, list_of_initial_queues}
use nxt_device_messaging.Redis.AdmissionStore.{
  srem_all, dead_members, lock_queue_for_time_ms, validate_and_clean_concurrency_rate_limit,
}
use nxt_device_messaging.Lifecycle.Home.{Registry, AtHome}
use nxt_device_messaging.Lifecycle.Moves.{pick_into_ns}
use nxt_device_messaging.Lifecycle.Moves.Invariant.{Shrunk-AtHome}
use nxt_device_messaging.Lifecycle.Moves.Entry.{pick_into_ns-AtHome}
use nxt_device_messaging.Engine.{
  Call, World, Webhook, unwired, storing, failing, emit_delivery_event, message_event,
}
use nxt_device_messaging.Engine.Outgoing.Distribute.{
  slot_free, admit_slot, can_admit, concurrency_rate_limit, notify_first_send, hand_over, handed,
  picked_in, distribute_admitted, distribute_owned, distribute_queue, distribute_queues,
  distribute_to_network_servers,
}

-- The sorted sets and the hashes are the same.
pub record Unmoved (s s' : Keyspace) : Type 0 where
  pub zsets : s'.zset ≡ s.zset
  pub hashes : s'.hash ≡ s.hash

pub Unmoved-AtHome :
    (reg : Registry) (s s' : Keyspace) → Unmoved s s' → AtHome reg s → AtHome reg s'
Unmoved-AtHome reg s s' u a =
    Shrunk-AtHome reg s s'
      (λ id h e. ap (λ (f : Text → Option MessageHash). f (message_key id)) (sym u.hashes) ∙ e)
      (λ q id score e absent. there q id score e absent) a
  where
    there : (q id : Text) (score : ℤ) → s'.zset q id ≡ some score → s.zset q id ≡ none → ⊥
    there q id score e absent = cc (u.zsets, e, absent)

srem_all-Unmoved :
    (key : Text) (ms : List Text) (s : Keyspace) → Unmoved s (apply_all (srem_all key ms) s)
srem_all-Unmoved key [] s = record { zsets = refl; hashes = refl }
srem_all-Unmoved key (m ∷ ms) s =
    let u = srem_all-Unmoved key ms _ in record { zsets = u.zsets; hashes = u.hashes }

module _ (R : Redis) where
  open R use {Db, view}

  validate-Unmoved :
      (key : Text) (db : Db)
      → Unmoved (view db) (view (validate_and_clean_concurrency_rate_limit R key db).1)
  unfolding validate_and_clean_concurrency_rate_limit
  validate-Unmoved key db =
      let dead = (dead_members R (R.smembers db key) db).0 in
      rw (view-calls R (srem_all key dead) db) (srem_all-Unmoved key dead (view db))

  slot_free-db : (max : ℕ) (r : ℕ × Db) → (slot_free R max r).1 ≡ r.1
  slot_free-db max (live, db) = refl

  admit_slot-Unmoved :
      (max : ℕ) (key : Option Text) (db : Db) → Unmoved (view db) (view (admit_slot R max key db).1)
  unfolding admit_slot
  admit_slot-Unmoved max none db = record { zsets = refl; hashes = refl }
  admit_slot-Unmoved max (some key) db = elim (Bool-cases (leb max (R.scard db key))) [
    | inl e ↦
        rw (e, slot_free-db max (validate_and_clean_concurrency_rate_limit R key db))
          (validate-Unmoved key db)
    | inr e ↦ rw e (record { zsets = refl; hashes = refl })
  ]

  pub can_admit-Unmoved :
      (admission : Admission) (queue : Text) (db : Db)
      → Unmoved (view db) (view (can_admit R admission queue db).1)
  unfolding can_admit lock_queue_for_time_ms
  can_admit-Unmoved (spacing ms) queue db = rw R.view-call (record { zsets = refl; hashes = refl })
  can_admit-Unmoved (concurrency max) queue db =
      admit_slot-Unmoved max (build_concurrency_rate_limit_key queue) db

  module _ (config : DeliveryConfig) (reg : Registry) (c : Call) where
    hand_over-db :
        (m : DeviceMessage) (w : World R) (webhook : Webhook)
        → (hand_over R config reg c m w (emit_delivery_event R webhook (message_event m) w)).1.db
          ≡ w.db
    hand_over-db m w unwired = refl
    hand_over-db m w storing = refl
    hand_over-db m w failing = refl

    notified-db :
        (m : DeviceMessage) (w : World R)
        → (hand_over R config reg c m w (notify_first_send R config reg c m w)).1.db ≡ w.db
    notified-db m w = elim (Bool-cases (m.retry_count == 0)) [
      | inl e ↦ rw e (hand_over-db m w c.webhook)
      | inr e ↦ rw e refl
    ]

    handed-db :
        (o : Option (Option DeviceMessage)) (w : World R) → (handed R config reg c o w).1.db ≡ w.db
    handed-db none w = refl
    handed-db (some none) w = refl
    handed-db (some (some m)) w = notified-db m w

    hand_over-message :
        (m n : DeviceMessage) (w : World R) (o : Option (World R))
        → (hand_over R config reg c m w o).0 ≡ some n
        → m ≡ n
    hand_over-message m n w none e = cc
    hand_over-message m n w (some after) e = some_inj e

    handed-message :
        (o : Option (Option DeviceMessage)) (w : World R) (m : DeviceMessage)
        → (handed R config reg c o w).0 ≡ some m
        → o ≡ some (some m)
    handed-message none w m e = cc
    handed-message (some none) w m e = cc
    handed-message (some (some n)) w m e =
        ap (λ (x : DeviceMessage). some (some x))
          (hand_over-message n m w (notify_first_send R config reg c n w) e)

    pub picked_in-db :
        (w : World R) (r : Option (Option DeviceMessage) × Db)
        → (picked_in R config reg c w r).1.db ≡ r.1
    picked_in-db w (o, after) = handed-db o (record w { db = after })

    pub picked_in-message :
        (w : World R) (r : Option (Option DeviceMessage) × Db) (m : DeviceMessage)
        → (picked_in R config reg c w r).0 ≡ some m
        → r.0 ≡ some (some m)
    picked_in-message w (o, after) m e = handed-message o (record w { db = after }) m e

    admitted-AtHome :
        (queue : Text) (plugin : DeliveryPlugin) (w : World R) (r : Bool × Db)
        → AtHome reg (view r.1)
        → AtHome reg (view (distribute_admitted R config reg c queue plugin w r).1.db)
    admitted-AtHome queue plugin w (false, after) a = a
    admitted-AtHome queue plugin w (true, after) a =
        let limit = concurrency_rate_limit plugin.admission queue in
        rw (picked_in-db w (pick_into_ns R config c.instant queue plugin limit after))
          (pick_into_ns-AtHome reg config c.instant queue plugin limit R after a)

    pub owned-AtHome :
        (queue : Text) (o : Option DeliveryPlugin) (w : World R)
        → AtHome reg (view w.db)
        → AtHome reg (view (distribute_owned R config reg c queue o w).1.db)
    unfolding distribute_owned
    owned-AtHome queue none w a = a
    owned-AtHome queue (some plugin) w a =
        admitted-AtHome queue plugin w (can_admit R plugin.admission queue w.db)
          (Unmoved-AtHome reg _ _ (can_admit-Unmoved plugin.admission queue w.db) a)

  module _ (config : DeliveryConfig) (reg : Registry) (call_for : Text → Call) where
    queues-AtHome :
        (qs : List Text) (w : World R)
        → AtHome reg (view w.db)
        → AtHome reg (view (distribute_queues R config reg call_for qs w).1.db)
    unfolding distribute_queues distribute_queue
    queues-AtHome [] w a = a
    queues-AtHome (q ∷ qs) w a = queues-AtHome qs _ (owned-AtHome config reg (call_for q) q _ w a)

    -- A distribution over all ready queues keeps every message at home, whatever the queues hold and
    -- whatever is admitted.
    pub distribute_to_network_servers-AtHome :
        (w : World R)
        → AtHome reg (view w.db)
        → AtHome reg (view (distribute_to_network_servers R config reg call_for w).1.db)
    unfolding distribute_to_network_servers
    distribute_to_network_servers-AtHome w a =
        queues-AtHome (R.smembers w.db list_of_initial_queues) w a
