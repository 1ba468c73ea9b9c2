-- ===== src/Redis/MessageStore.antt =====
-- src/lib/redis-repository/message-store.ts and helpers.ts: message hashes and lookup indexes.
-- A fresh ULID enters as an argument, and a MULTI that Redis does not run is not modelled.
pub mod Fields
use nxt_device_messaging.Common.{ℕ, Text, neg_ℤ, Option, none, some, List, [], ◌∷◌, ◌++◌}
use nxt_device_messaging.Common.Maybe.{◌>>=◌}
use nxt_device_messaging.Message.{
  queued, Phase, phase_a, phase_b, phase_c, CreateDeviceMessage, DeviceMessage, FailureReason,
}
use nxt_device_messaging.Redis.{
  MessageHash, Command, zadd, hset, expire, sadd, set_ex, Redis, calls,
}
use nxt_device_messaging.Redis.Keys.{
  message_key, message_id_from_key, list_of_initial_queues, index_correlation_id,
  index_external_delivery_id,
}

-- What JavaScript takes an absent or empty text for: absent.
abbrev pub truthy : Option Text → Option Text
truthy none = none
truthy (some []) = none
truthy (some (x ∷ xs)) = some (x ∷ xs)

abbrev pub serialize_create_device_message : CreateDeviceMessage → MessageHash
serialize_create_device_message dto = record {
  command_type = some dto.command_type;
  priority = some dto.priority;
  plugin_id = some dto.plugin_id;
  request_data = dto.request_data;
  phase = dto.phase;
  network_id = dto.network_id;
  correlation_id = truthy dto.correlation_id;
  device = some dto.device;
  delivery_queue_id = none;
  delivery_status = some queued;
  retry_count = none;
  failure_history = none;
  concurrency_rate_limit_key = none;
}

abbrev to_list : Option Text → List Text
to_list none = []
to_list (some t) = t ∷ []

abbrev or_empty : Option Text → Text
or_empty none = []
or_empty (some t) = t

abbrev or_zero : Option ℕ → ℕ
or_zero none = 0
or_zero (some n) = n

abbrev or_nil : Option (List FailureReason) → List FailureReason
or_nil none = []
or_nil (some l) = l

-- None is the throw on a hash with no device. The fields that the enqueue writes together with the
-- device are asked for too.
unfoldable pub deserialize_message : Text → MessageHash → Option DeviceMessage
deserialize_message id raw = do
  device ← raw.device
  command_type ← raw.command_type
  plugin_id ← raw.plugin_id
  priority ← raw.priority
  delivery_status ← raw.delivery_status
  some (record {
    id = id;
    command_type = command_type;
    priority = priority;
    plugin_id = plugin_id;
    request_data = raw.request_data;
    phase = raw.phase;
    network_id = raw.network_id;
    correlation_id = truthy raw.correlation_id;
    device = device;
    delivery_queue_id = or_empty raw.delivery_queue_id;
    delivery_status = delivery_status;
    response = none;
    retry_count = or_zero raw.retry_count;
    failure_history = or_nil raw.failure_history;
    concurrency_rate_limit_key = truthy raw.concurrency_rate_limit_key;
  })

-- What a lookup by id finds: no hash, a hash at which the code throws, or a message.
pub data Lookup : Type 0 where
  missing malformed : Lookup
  found : DeviceMessage → Lookup

abbrev pub lookup_of : Option DeviceMessage → Lookup
lookup_of none = malformed
lookup_of (some m) = found m

abbrev pub lookup_hash : Text → Option MessageHash → Lookup
lookup_hash id none = missing
lookup_hash id (some raw) = lookup_of (deserialize_message id raw)

abbrev pub index_command : Option Text → Option Phase → Text → ℕ → List Command
index_command none phase key ttl = []
index_command (some correlation_id) phase key ttl =
    set_ex (index_correlation_id correlation_id phase) key ttl ∷ []

-- The MULTI of an enqueue.
abbrev pub enqueue_commands : Text → CreateDeviceMessage → Text → ℕ → List Command
enqueue_commands id dto queue_key ttl =
    hset (message_key id) (serialize_create_device_message dto)
    ∷ expire (message_key id) ttl
    ∷ zadd queue_key (neg_ℤ dto.priority) id
    ∷ sadd list_of_initial_queues queue_key
    ∷ index_command (truthy dto.correlation_id) dto.phase (message_key id) ttl

module _ (R : Redis) where
  open R use {Db, view}

  unfoldable pub get_message_by_id : Text → Db → Lookup
  get_message_by_id id db = lookup_hash id ((view db).hash (message_key id))

  unfoldable pub enqueue_device_message :
      Text → CreateDeviceMessage → Text → ℕ → Db → Option DeviceMessage × Db
  enqueue_device_message id dto queue_key ttl db = (
    deserialize_message id (serialize_create_device_message dto),
    calls R (enqueue_commands id dto queue_key ttl) db,
  )

  unfoldable pub get_message_id_from_delivery_queue_id : Text → Db → Option Text
  get_message_id_from_delivery_queue_id delivery_queue_id db =
      message_id_from_key ((view db).string (index_external_delivery_id delivery_queue_id))

  -- Not found, or the lookup of the message that the index names.
  unfoldable pub get_message_from_correlation_id : Text → Db → Lookup
  get_message_from_correlation_id correlation_id db =
      elim (message_id_from_key ((view db).string (index_correlation_id correlation_id none))) [
        | none ↦ missing
        | some id ↦ get_message_by_id id db
      ]

  -- The index values that are there, for no phase and each of the three, in that order.
  abbrev correlation_value : Text → Option Phase → Db → List Text
  correlation_value correlation_id phase db =
      to_list (truthy ((view db).string (index_correlation_id correlation_id phase)))

  abbrev pub correlation_keys : Text → Db → List Text
  correlation_keys correlation_id db =
      correlation_value correlation_id none db
      ++ (correlation_value correlation_id (some phase_a) db
          ++ (correlation_value correlation_id (some phase_b) db
              ++ correlation_value correlation_id (some phase_c) db))

  abbrev pub message_at : Option Text → Option MessageHash → Option (List DeviceMessage)
  message_at id none = some []
  message_at none (some raw) = some []
  message_at (some id) (some raw) = do m ← deserialize_message id raw; some (m ∷ [])

  -- None is the throw of a hash that does not read.
  unfoldable pub messages_at : List Text → Db → Option (List DeviceMessage)
  messages_at [] db = some []
  messages_at (key ∷ keys) db = do
    here ← message_at (message_id_from_key (some key)) ((view db).hash key)
    rest ← messages_at keys db
    some (here ++ rest)

  unfoldable pub get_all_messages_for_correlation_id : Text → Db → Option (List DeviceMessage)
  unfolding messages_at
  get_all_messages_for_correlation_id correlation_id db =
      messages_at (correlation_keys correlation_id db) db
