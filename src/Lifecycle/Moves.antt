-- ===== src/Lifecycle/Moves.antt =====
-- src/engine/lifecycle/moves.ts: the stage transitions. Each takes the clock reading and the draw of
-- Math.random() that the code asks for, and returns its answer with the database. Logging and the
-- count of claim misses are left out; a miss shows in the answer.
pub mod Invariant
pub mod Transitions
pub mod Retry
pub mod Purge
pub mod Entry
use nxt_device_messaging.Common.{
  ℕ, ◌+◌, Text, ℤ, pos, Bool, true, false, Option, none, some, List, [], ◌∷◌, ◌++◌,
}
use nxt_device_messaging.Message.{DeviceMessage, FailureReason, to_retry}
use nxt_device_messaging.Plugin.{DeliveryPlugin, DeliveryConfig}
use nxt_device_messaging.Redis.{
  MessageHash, no_fields, Command, zadd, zadd_xx, zrem, hset, hdel, srem, del,
  delivery_queue_id_field, concurrency_rate_limit_key_field, Redis, calls,
}
use nxt_device_messaging.Redis.Keys.{
  message_key, list_of_initial_queues, index_external_delivery_id,
}
use nxt_device_messaging.Redis.Scripts.{
  MoveArgs, FetchArgs, move_message_between_queues, fetch_next_message_in_queue_and_move,
}
use nxt_device_messaging.Redis.MessageStore.{deserialize_message}
use nxt_device_messaging.Redis.StageStore.{requeue_message, message_full_cleanup}
use nxt_device_messaging.Lifecycle.Stages.{
  StageName, ns, retry, stages, next_stage, stage_key_for, reschedule_wait_ms_for,
  enumerate_stage_keys, queue_ns_key, queue_retry_key,
}

-- The clock and the random draw of one call.
pub record Instant : Type 0 where
  pub now : ℕ
  pub random : ℕ

pub record ConcurrencyRateLimit : Type 0 where
  pub key : Text
  pub max : ℕ

-- `Date.now()` and the wait of the row on entry.
abbrev pub due_at : DeliveryConfig → Instant → StageName → DeliveryPlugin → ℕ → ℕ
due_at config t st plugin retry_count =
    t.now
    + (stages st).entry_wait_ms (record {
      tuning = plugin.tuning;
      delivery = config;
      retry_count = retry_count;
      random = t.random;
    })

abbrev limit_key : Option ConcurrencyRateLimit → Text
limit_key none = []
limit_key (some l) = l.key

abbrev limit_max : Option ConcurrencyRateLimit → ℕ
limit_max none = 0
limit_max (some l) = l.max

abbrev pub pick_args :
    DeliveryConfig → Instant → Text → DeliveryPlugin → Option ConcurrencyRateLimit → FetchArgs
pick_args config t ready_queue plugin limit = record {
  source_queue = ready_queue;
  destination_queue = queue_ns_key;
  queues_to_distribute_from = list_of_initial_queues;
  concurrency_set = limit_key limit;
  timeout_at = pos (due_at config t ns plugin 0);
  new_status = (stages ns).entry_status;
  max_in_flight = limit_max limit;
}

abbrev index_key_for : Text → Text
index_key_for [] = []
index_key_for (x ∷ xs) = index_external_delivery_id (x ∷ xs)

pub record AdvanceArgs : Type 0 where
  pub message_id : Text
  pub plugin : DeliveryPlugin
  pub from : StageName
  pub delivery_queue_id : Text
  pub retry_count : ℕ

abbrev pub advance_args : DeliveryConfig → Instant → AdvanceArgs → StageName → MoveArgs
advance_args config t a target = record {
  source_queue = stage_key_for (stages a.from) a.plugin.id;
  destination_queue = stage_key_for (stages target) a.plugin.id;
  message_key = message_key a.message_id;
  index_key = index_key_for a.delivery_queue_id;
  message_id = a.message_id;
  destination_score = pos (due_at config t target a.plugin a.retry_count);
  delivery_status = (stages target).entry_status;
  delivery_queue_id = a.delivery_queue_id;
  index_ttl_seconds = config.message_ttl_seconds;
}

pub record EnterRetryArgs : Type 0 where
  pub message_id : Text
  pub from_key : Text
  pub current_retry_count : ℕ
  pub failure_history : List FailureReason
  pub plugin : DeliveryPlugin

-- The fields that HMGET reads of a hash that may be missing.
abbrev pub stale_index : Option MessageHash → Option Text
stale_index none = none
stale_index (some h) = h.delivery_queue_id

abbrev pub held_slot : Option MessageHash → Option Text
held_slot none = none
held_slot (some h) = h.concurrency_rate_limit_key

abbrev pub unindex_commands : Option Text → List Command
unindex_commands none = []
unindex_commands (some []) = []
unindex_commands (some (x ∷ xs)) = del (index_external_delivery_id (x ∷ xs)) ∷ []

abbrev pub release_commands : Option Text → Text → List Command
release_commands none id = []
release_commands (some []) id = []
release_commands (some (x ∷ xs)) id =
    srem (x ∷ xs) id ∷ hdel (message_key id) concurrency_rate_limit_key_field ∷ []

-- The fields written on entry to the retry stage.
abbrev pub retry_fields : EnterRetryArgs → MessageHash
retry_fields a = record no_fields {
  retry_count = some (a.current_retry_count + 1);
  delivery_status = some to_retry;
  failure_history = some a.failure_history;
}

-- The MULTI of `enterRetry`, from what HMGET read.
abbrev pub enter_retry_commands : EnterRetryArgs → ℕ → Option Text → Option Text → List Command
enter_retry_commands a due stale slot =
    hset (message_key a.message_id) (retry_fields a)
      ∷ hdel (message_key a.message_id) delivery_queue_id_field
      ∷ zrem a.from_key a.message_id
      ∷ zadd queue_retry_key (pos due) a.message_id
      ∷ unindex_commands stale
    ++ release_commands slot a.message_id

-- Every queue that the message could be in: the five stages and the ready queue.
abbrev pub purge_queues : DeviceMessage → DeliveryPlugin → List Text
purge_queues message plugin =
    enumerate_stage_keys (message.plugin_id ∷ [])
    ++ plugin.initial_queue_key message.network_id message.device ∷ []

module _ (R : Redis) (config : DeliveryConfig) where
  open R use {Db, view, call}

  abbrev pub deserialize_picked : Option (Text × MessageHash) → Option (Option DeviceMessage)
  deserialize_picked none = none
  deserialize_picked (some (id, raw)) = some (deserialize_message id raw)

  -- None is an empty pick; `some none` is the throw of the deserializer, after the move.
  unfoldable pub pick_into_ns :
      Instant
      → Text
      → DeliveryPlugin
      → Option ConcurrencyRateLimit
      → Db
      → Option (Option DeviceMessage) × Db
  pick_into_ns t ready_queue plugin limit db =
      let (picked, after) =
        fetch_next_message_in_queue_and_move R (pick_args config t ready_queue plugin limit) db in
      (deserialize_picked picked, after)

  abbrev advance_to : Instant → AdvanceArgs → Option StageName → Db → Option Bool × Db
  advance_to t a none db = (none, db)
  advance_to t a (some target) db =
      let (claimed, after) = move_message_between_queues R (advance_args config t a target) db in
      (some claimed, after)

  -- None is the throw at the end of a pipeline.
  unfoldable pub advance : Instant → AdvanceArgs → Db → Option Bool × Db
  advance t a db = advance_to t a (next_stage a.plugin.delivery_pattern a.from) db

  unfoldable pub enter_if_placed : Instant → EnterRetryArgs → Option ℤ → Db → Bool × Db
  enter_if_placed t a none db = (false, db)
  enter_if_placed t a (some score) db =
      let h = (view db).hash (message_key a.message_id) in
      (
        true,
        calls R
            (enter_retry_commands a (due_at config t retry a.plugin a.current_retry_count)
              (stale_index h) (held_slot h))
            db,
      )

  -- ZSCORE, HMGET and the MULTI with nothing between them.
  unfoldable pub enter_retry : Instant → EnterRetryArgs → Db → Bool × Db
  unfolding enter_if_placed
  enter_retry t a db = enter_if_placed t a ((view db).zset a.from_key a.message_id) db

  -- ZADD XX: a member that has left the stage is not put back.
  unfoldable pub reschedule : Instant → StageName → DeviceMessage → ℕ → DeliveryPlugin → Db → Db
  reschedule t st message message_age_ms plugin db =
      call
        (zadd_xx (stage_key_for (stages st) plugin.id)
          (pos (
            t.now
            + reschedule_wait_ms_for (stages st) (record {
              message = message;
              message_age_ms = message_age_ms;
              tuning = plugin.tuning;
              delivery = config;
              random = t.random;
            })))
          message.id)
        db

  unfoldable pub purge : DeviceMessage → DeliveryPlugin → Db → Db
  purge message plugin db = message_full_cleanup R message (purge_queues message plugin) db

  abbrev pub is_placed : Option ℤ → Bool
  is_placed none = false
  is_placed (some score) = true

  -- ZREM, and whether it removed the member.
  unfoldable pub claim_from_queue : Text → Text → Db → Bool × Db
  claim_from_queue queue id db = (is_placed ((view db).zset queue id), call (zrem queue id) db)

  unfoldable pub requeue : Text → Text → Text → ℤ → Db → Bool × Db
  requeue id from_key to_key priority db = requeue_message R id from_key to_key priority db
