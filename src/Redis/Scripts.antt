-- ===== src/Redis/Scripts.antt =====
-- The two Lua scripts, src/lib/redis-repository/lua, as client.ts registers them. A script runs with
-- nothing between its calls. The empty text stands for an argument that is to be skipped, as in the
-- scripts.
pub mod Move
pub mod Fetch
pub mod Strings
use nxt_device_messaging.Common.{
  ℕ, Text, ℤ, Bool, true, false, not, ◌&&◌, Option, none, some, List, [], ◌∷◌, ltb, leb,
  if◌then◌else◌,
}
use nxt_device_messaging.Message.{DeliveryStatus}
use nxt_device_messaging.Redis.{
  MessageHash, no_fields, Command, zadd, zrem, hset, sadd, srem, set_ex, Redis, calls,
}
use nxt_device_messaging.Redis.Keys.{message_key}

-- HSET of a new status, and of a delivery queue id unless that is empty.
abbrev pub status_fields : DeliveryStatus → Text → MessageHash
status_fields status [] = record no_fields { delivery_status = some status }
status_fields status (x ∷ xs) = record no_fields {
  delivery_queue_id = some (x ∷ xs);
  delivery_status = some status;
}

-- SET of the lookup index, unless its key is empty.
abbrev pub index_commands : Text → Text → ℕ → List Command
index_commands [] message_key ttl = []
index_commands (x ∷ xs) message_key ttl = set_ex (x ∷ xs) message_key ttl ∷ []

-- SADD of the concurrency slot and HSET of its key, unless the key is empty.
abbrev pub claim_commands : Text → Text → List Command
claim_commands [] id = []
claim_commands (x ∷ xs) id =
    sadd (x ∷ xs) id
    ∷ hset (message_key id) (record no_fields { concurrency_rate_limit_key = some (x ∷ xs) })
    ∷ []

abbrev pub is_empty_text : Text → Bool
is_empty_text [] = true
is_empty_text (x ∷ xs) = false

-- KEYS[1..4] and ARGV[1..5] of move-message-between-queues.lua.
pub record MoveArgs : Type 0 where
  pub source_queue : Text
  pub destination_queue : Text
  pub message_key : Text
  pub index_key : Text
  pub message_id : Text
  pub destination_score : ℤ
  pub delivery_status : DeliveryStatus
  pub delivery_queue_id : Text
  pub index_ttl_seconds : ℕ

-- KEYS[1..4] and ARGV[1..3] of fetch-next-message-in-queue.lua.
pub record FetchArgs : Type 0 where
  pub source_queue : Text
  pub destination_queue : Text
  pub queues_to_distribute_from : Text
  pub concurrency_set : Text
  pub timeout_at : ℤ
  pub new_status : DeliveryStatus
  pub max_in_flight : ℕ

abbrev pub move_commands : MoveArgs → List Command
move_commands a =
    zadd a.destination_queue a.destination_score a.message_id
    ∷ hset a.message_key (status_fields a.delivery_status a.delivery_queue_id)
    ∷ index_commands a.index_key a.message_key a.index_ttl_seconds

abbrev pub fetch_commands : FetchArgs → Text → List Command
fetch_commands a id =
    zadd a.destination_queue a.timeout_at id
    ∷ hset (message_key id) (status_fields a.new_status [])
    ∷ claim_commands a.concurrency_set id

abbrev pub with_id : Text → Option MessageHash → Option (Text × MessageHash)
with_id id none = none
with_id id (some fields) = some (id, fields)

module _ (R : Redis) where
  open R use {Db, view, call}

  -- From the score that ZREM removed and the hash that EXISTS looks for. The answer is true for the
  -- script's 1.
  move_if_present : MoveArgs → Option ℤ → Option MessageHash → Db → Bool × Db
  move_if_present a none h db = (false, db)
  move_if_present a (some score) none db = (false, db)
  move_if_present a (some score) (some h) db = (true, calls R (move_commands a) db)

  pub move_message_between_queues : MoveArgs → Db → Bool × Db
  unfolding move_if_present
  move_message_between_queues a db =
      let after = call (zrem a.source_queue a.message_id) db in
      move_if_present a ((view db).zset a.source_queue a.message_id)
        ((view after).hash a.message_key) after

  -- The cap is full: a concurrency set is given, its cap is positive, and SCARD has reached it.
  unfoldable pub at_cap : FetchArgs → Db → Bool
  at_cap a db =
      not (is_empty_text a.concurrency_set)
      && ltb 0 a.max_in_flight
      && leb a.max_in_flight (R.scard db a.concurrency_set)

  -- ZPOPMIN took `id`: the source leaves the work list if it is empty now.
  unfoldable pub popped : FetchArgs → Text → Db → Db
  popped a id db =
      let after = call (zrem a.source_queue id) db in
      if R.zcard_zero after a.source_queue
      then call (srem a.queues_to_distribute_from a.source_queue) after
      else after

  -- The id and the hash as HGETALL reads it at the end, or none for the script's nil.
  unfoldable pub fetch_if_exists :
      FetchArgs → Text → Option MessageHash → Db → Option (Text × MessageHash) × Db
  fetch_if_exists a id none db = (none, db)
  fetch_if_exists a id (some h) db =
      let done = calls R (fetch_commands a id) db in
      (with_id id ((view done).hash (message_key id)), done)

  unfoldable pub fetch_member : FetchArgs → Option Text → Db → Option (Text × MessageHash) × Db
  unfolding fetch_if_exists popped
  fetch_member a none db = (none, call (srem a.queues_to_distribute_from a.source_queue) db)
  fetch_member a (some id) db =
      let after = popped a id db in fetch_if_exists a id ((view after).hash (message_key id)) after

  unfoldable pub fetch_next_message_in_queue_and_move :
      FetchArgs → Db → Option (Text × MessageHash) × Db
  unfolding fetch_member at_cap
  fetch_next_message_in_queue_and_move a db =
      if at_cap a db then (none, db) else fetch_member a (R.first db a.source_queue) db
