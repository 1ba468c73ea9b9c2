-- ===== src/Examples/OfRedis.antt =====
-- The scripts at concrete inputs.
use nxt_device_messaging.Common.{
  Text, txt, text_discrete, ◌≤◌, ◌≡◌, ◌≢◌, ◌↔◌, ◌⊎◌, refl, true, none, [], ◌∷◌, arith, pos,
}
use nxt_device_messaging.Message.{sent_to_ns, delivered_to_ns}
use nxt_device_messaging.Redis.{zadd, hset, sadd, no_fields}
use nxt_device_messaging.Redis.Memory.{History, memory, scard_of, view_of}
use nxt_device_messaging.Redis.Scripts.{
  MoveArgs, FetchArgs, move_message_between_queues, fetch_next_message_in_queue_and_move,
}
use nxt_device_messaging.Redis.Scripts.Move.{move_message_between_queues_lem}
use nxt_device_messaging.Redis.Scripts.Fetch.{fetch_keeps_cap}

-- Two messages wait in "q", one has its hash, and "b" holds the one slot taken.
abbrev history : History
history =
    sadd (txt "slots") (txt "b")
    ∷ hset (txt "device_message:a") no_fields
    ∷ zadd (txt "q") (pos 3) (txt "a")
    ∷ []

abbrev move : MoveArgs
move = record {
  source_queue = txt "q";
  destination_queue = txt "r";
  message_key = txt "device_message:a";
  index_key = [];
  message_id = txt "a";
  destination_score = pos 9;
  delivery_status = delivered_to_ns;
  delivery_queue_id = [];
  index_ttl_seconds = 60;
}

move_message_between_queues_lem_example :
    (((move_message_between_queues memory move history).0 ≡ true) ↔ (
      ((memory.view history).zset (txt "q") (txt "a") ≢ none)
      × ((memory.view history).hash (txt "device_message:a") ≢ none)))
    × ((k : Text)
        → ((memory.view (move_message_between_queues memory move history).1).hash k ≡ none)
          ↔ ((memory.view history).hash k ≡ none))
    × (((memory.view (move_message_between_queues memory move history).1).zset (txt "q") (txt "a")
          ≡ none)
        ⊎ (txt "q" ≡ txt "r"))
move_message_between_queues_lem_example = move_message_between_queues_lem memory move history

abbrev fetch : FetchArgs
fetch = record {
  source_queue = txt "q";
  destination_queue = txt "r";
  queues_to_distribute_from = txt "list";
  concurrency_set = txt "slots";
  timeout_at = pos 9;
  new_status = sent_to_ns;
  max_in_flight = 2;
}

slots_taken : scard_of history (txt "slots") ≡ 1
unfolding scard_of view_of text_discrete
slots_taken = refl

fetch_keeps_cap_example :
    memory.scard (fetch_next_message_in_queue_and_move memory fetch history).1 (txt "slots") ≤ 2
fetch_keeps_cap_example =
    fetch_keeps_cap memory fetch 115 (txt "lots") history refl (omega arith)
      (omega (arith, slots_taken))
