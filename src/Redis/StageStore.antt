-- ===== src/Redis/StageStore.antt =====
-- src/lib/redis-repository/stage-store.ts: expiry scans, requeue and cleanup of stage queues.
use nxt_device_messaging.Common.{
  ℕ, Text, ℤ, neg_ℤ, Bool, true, false, Option, none, some, List, [], ◌∷◌, ◌++◌, map,
}
use nxt_device_messaging.Message.{queued, DeviceMessage, Phase}
use nxt_device_messaging.Redis.{Command, zrem, sadd, srem, del, Redis, calls}
use nxt_device_messaging.Redis.Keys.{
  message_key, list_of_initial_queues, index_correlation_id, index_external_delivery_id,
}
use nxt_device_messaging.Redis.MessageStore.{truthy}
use nxt_device_messaging.Redis.Scripts.{MoveArgs, move_message_between_queues}

abbrev pub queue_scan_batch_size : ℕ
queue_scan_batch_size = 50

-- A moved message goes back to its ready queue with no index and no new delivery queue id.
abbrev pub requeue_args : Text → Text → Text → ℤ → MoveArgs
requeue_args id source destination priority = record {
  source_queue = source;
  destination_queue = destination;
  message_key = message_key id;
  index_key = [];
  message_id = id;
  destination_score = neg_ℤ priority;
  delivery_status = queued;
  delivery_queue_id = [];
  index_ttl_seconds = 0;
}

abbrev pub slot_commands : Option Text → Text → List Command
slot_commands none id = []
slot_commands (some key) id = srem key id ∷ []

abbrev pub correlation_commands : Option Text → Option Phase → List Command
correlation_commands none phase = []
correlation_commands (some correlation_id) phase =
    del (index_correlation_id correlation_id phase) ∷ []

abbrev pub delivery_commands : Text → List Command
delivery_commands [] = []
delivery_commands (x ∷ xs) = del (index_external_delivery_id (x ∷ xs)) ∷ []

-- The MULTI of a full cleanup.
abbrev pub cleanup_commands : DeviceMessage → List Text → List Command
cleanup_commands message queue_keys =
    del (message_key message.id) ∷ map (λ queue. zrem queue message.id) queue_keys
    ++ (slot_commands (truthy message.concurrency_rate_limit_key) message.id
        ++ (correlation_commands (truthy message.correlation_id) message.phase
            ++ delivery_commands message.delivery_queue_id))

module _ (R : Redis) where
  open R use {Db, call}

  unfoldable pub get_expired_messages_in_queue : Text → ℕ → Db → List Text
  get_expired_messages_in_queue queue cutoff db =
      R.range_by_score db queue cutoff queue_scan_batch_size

  abbrev pub note_queue : Text → Bool × Db → Bool × Db
  note_queue queue (true, db) = (true, call (sadd list_of_initial_queues queue) db)
  note_queue queue (false, db) = (false, db)

  -- The ready queue joins the work list only after a committed move.
  unfoldable pub requeue_message : Text → Text → Text → ℤ → Db → Bool × Db
  requeue_message id source destination priority db =
      note_queue destination
        (move_message_between_queues R (requeue_args id source destination priority) db)

  unfoldable pub message_full_cleanup : DeviceMessage → List Text → Db → Db
  message_full_cleanup message queue_keys db = calls R (cleanup_commands message queue_keys) db
