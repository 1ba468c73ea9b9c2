-- ===== src/Lifecycle/Moves/Entry.antt =====
-- How a message enters: the enqueue of src/lib/redis-repository/message-store.ts into a ready queue,
-- and the pick from there into the ns stage (`pickIntoNs` of src/engine/lifecycle/moves.ts).
use nxt_device_messaging.Common.{
  ℕ, Text, ℤ, neg_ℤ, ◌≡◌, refl, sym, ap, ◌∙◌, Option, none, some, [], ◌∷◌, arith,
}
use nxt_device_messaging.Message.{CreateDeviceMessage}
use nxt_device_messaging.Plugin.{DeliveryPlugin, DeliveryConfig, delivery}
use nxt_device_messaging.Redis.{
  MessageHash, Keyspace, hset, expire, zadd, sadd, apply_all, Redis, view-calls,
}
use nxt_device_messaging.Redis.Keys.{message_key, list_of_initial_queues}
use nxt_device_messaging.Redis.MessageStore.{
  truthy, enqueue_device_message, enqueue_commands, index_command, serialize_create_device_message,
}
use nxt_device_messaging.Redis.Scripts.{FetchArgs}
use nxt_device_messaging.Redis.Scripts.Fetch.{
  FetchOutcome, refused, picked, picked_hash, fetch-FetchOutcome,
}
use nxt_device_messaging.Lifecycle.Stages.{stage_for_status, stage_key_for, queue_ns_key}
use nxt_device_messaging.Lifecycle.Home.{
  Registry, owner, home, AtHome, Relocated, Relocated-AtHome, from_own,
}
use nxt_device_messaging.Lifecycle.Moves.{Instant, ConcurrencyRateLimit, pick_into_ns, pick_args}
use nxt_device_messaging.Lifecycle.Moves.Invariant.{Shrunk-AtHome}

module _ (reg : Registry) (config : DeliveryConfig) (t : Instant) (queue : Text)
    (plugin : DeliveryPlugin) (limit : Option ConcurrencyRateLimit) where
  abbrev args : FetchArgs
  args = pick_args config t queue plugin limit

  picked-home :
      (p : DeliveryPlugin) (h : MessageHash) → home p (picked_hash args h) ≡ some queue_ns_key
  unfolding stage_for_status stage_key_for
  picked-home p h = ground arith

  picked-plugin : (h : MessageHash) → (picked_hash args h).plugin_id ≡ h.plugin_id
  picked-plugin h = ground arith

  FetchOutcome-AtHome :
      (s s' : Keyspace) (answer : Option (Text × MessageHash))
      → FetchOutcome args s s' answer
      → AtHome reg s
      → AtHome reg s'
  FetchOutcome-AtHome s s' answer (refused e hashes zsets) a =
      Shrunk-AtHome reg s s'
        (λ id h f. ap (λ (g : Text → Option MessageHash). g (message_key id)) (sym hashes) ∙ f)
        (λ q id score z absent. still q id score (zsets q id score z) absent) a
    where
      still : (q id : Text) (score : ℤ) → s.zset q id ≡ some score → s.zset q id ≡ none → ⊥
      still q id score e f = cc
  FetchOutcome-AtHome s s' answer (picked id score h placed found e zsets hashes) a =
      Relocated-AtHome
        (record {
          zsets = λ q i sc z. ground (arith, ap (λ (f : Text → Text → Option ℤ). f q i) zsets);
          hashes = λ i. hashes (message_key i);
        })
        reg h score found placed (picked-plugin h) a (λ p own. picked-home p h)

  pub pick_into_ns-AtHome :
      (R : Redis) (db : R.Db)
      → AtHome reg (R.view db)
      → AtHome reg (R.view (pick_into_ns R config t queue plugin limit db).1)
  unfolding pick_into_ns
  pick_into_ns-AtHome R db a = FetchOutcome-AtHome (R.view db) _ _ (fetch-FetchOutcome R args db) a

index-keeps :
    (c : Option Text) (dto : CreateDeviceMessage) (key : Text) (ttl : ℕ) (s : Keyspace)
    → ((apply_all (index_command c dto.phase key ttl) s).zset ≡ s.zset)
      × ((apply_all (index_command c dto.phase key ttl) s).hash ≡ s.hash)
index-keeps none dto key ttl s = (refl, refl)
index-keeps (some c) dto key ttl s = (refl, refl)

-- The id of the new message occurs nowhere: what a new ULID is for.
pub record IsFresh (id : Text) (s : Keyspace) : Type 0 where
  pub unplaced : (q : Text) → s.zset q id ≡ none

module _ (id : Text) (dto : CreateDeviceMessage) (queue : Text) (ttl : ℕ) (s : Keyspace)
    (fresh : IsFresh id s) where
  abbrev before_index : Keyspace
  before_index =
      apply_all
        (hset (message_key id) (serialize_create_device_message dto)
          ∷ expire (message_key id) ttl
          ∷ zadd queue (neg_ℤ dto.priority) id
          ∷ sadd list_of_initial_queues queue
          ∷ [])
        s

  abbrev enqueued : Keyspace
  enqueued = apply_all (enqueue_commands id dto queue ttl) s

  pub enqueue-Relocated :
      s.hash (message_key id) ≡ none
      → Relocated id queue queue (serialize_create_device_message dto) s enqueued
  enqueue-Relocated new = record {
    zsets = λ q i score z. ground (
      arith,
      ap (λ (f : Text → Text → Option ℤ). f q i)
          (index-keeps (truthy dto.correlation_id) dto (message_key id) ttl before_index).0,
    );
    hashes = λ i. ground (
      arith,
      ap (λ (f : Text → Option MessageHash). f (message_key i))
          (index-keeps (truthy dto.correlation_id) dto (message_key id) ttl before_index).1,
    );
  }

  enqueued-place : (q : Text) (score : ℤ) → enqueued.zset q id ≡ some score → q ≡ queue
  enqueued-place q score z = ground (
    arith,
    fresh.unplaced q,
    ap (λ (f : Text → Text → Option ℤ). f q id)
        (index-keeps (truthy dto.correlation_id) dto (message_key id) ttl before_index).0,
  )

  owner-dto :
      (reg : Registry) (plugin p : DeliveryPlugin)
      → reg dto.plugin_id ≡ some (delivery plugin)
      → owner reg (serialize_create_device_message dto) ≡ some p
      → p ≡ plugin
  owner-dto reg plugin p e own = ground arith

module _ (R : Redis) (reg : Registry) (db : R.Db) where
  -- A new message, put in the ready queue that its plugin names, is at home there.
  pub enqueue-AtHome :
      (id : Text) (dto : CreateDeviceMessage) (ttl : ℕ) (plugin : DeliveryPlugin)
      → IsFresh id (R.view db)
      → (R.view db).hash (message_key id) ≡ none
      → reg dto.plugin_id ≡ some (delivery plugin)
      → AtHome reg (R.view db)
      → AtHome reg (
          R.view
            (enqueue_device_message R id dto
              (plugin.initial_queue_key dto.network_id dto.device)
              ttl
              db).1)
  unfolding enqueue_device_message
  enqueue-AtHome id dto ttl plugin fresh new owned a =
      let queue = plugin.initial_queue_key dto.network_id dto.device in
      rw view-calls (
        from_own (enqueue-Relocated id dto queue ttl (R.view db) fresh new) reg a
          (λ q p score own z.
            rw
              (
                owner-dto id dto queue ttl (R.view db) fresh reg plugin p owned own,
                enqueued-place id dto queue ttl (R.view db) fresh q score z,
              )
              refl))
