-- ===== src/Examples/OfInFlight.antt =====
-- The sends in flight at concrete histories.
use nxt_device_messaging.Common.{
  txt, ◌+◌, pos, ◌≡◌, ◌↔◌, refl, ℕ, text_discrete, true, false, some, List, [], ◌∷◌, inr, arith,
}
use nxt_device_messaging.Redis.{zadd}
use nxt_device_messaging.Redis.Keys.{message_key}
use nxt_device_messaging.Redis.MessageStore.{serialize_create_device_message}
use nxt_device_messaging.Redis.Memory.{History, memory, view_of}
use nxt_device_messaging.Lifecycle.Stages.{queue_ns_key}
use nxt_device_messaging.Engine.{World}
use nxt_device_messaging.Engine.Actions.{Surroundings}
use nxt_device_messaging.Engine.Runner.{drain_ids}
use nxt_device_messaging.Engine.InFlight.{
  SendEvent, tracked, settled, sends_after, has, Outstanding, has_iff,
}
use nxt_device_messaging.Engine.InFlight.Awaited.{ns_queue, OnlyDeadline, drain_ids-Outstanding}
use nxt_device_messaging.Examples.Fixtures.{acme, one_plugin, config, dto, message}
use nxt_device_messaging.Examples.OfEngine.{env}
use nxt_device_messaging.Examples.OfMoves.{after_enqueue, registered, enqueued-hash, reads_back}

-- A second send of `a` is tracked while the first still runs, and then the first settles.
abbrev history : List SendEvent
history = settled (txt "a") 1 ∷ tracked (txt "a") 2 ∷ tracked (txt "b") 3 ∷ tracked (txt "a") 1 ∷ []

second_send : Outstanding (txt "a") 2 history
second_send = record {
  after = settled (txt "a") 1 ∷ [];
  before = tracked (txt "b") 3 ∷ tracked (txt "a") 1 ∷ [];
  split = refl;
  untouched = (inr (λ e. absurd (ground arith)), tt);
}

has_iff_example :
    (has (txt "a") (sends_after history) ≡ true)
    ↔ ((promise : ℕ) × Outstanding (txt "a") promise history)
has_iff_example = has_iff history (txt "a")

-- A promise that settles after it has been replaced does not end the later send.
still_held : has (txt "a") (sends_after history) ≡ true
still_held = has_iff_example.1 (2, second_send)

all_settled : has (txt "b") (sends_after (settled (txt "b") 3 ∷ history)) ≡ false
unfolding sends_after text_discrete
all_settled = refl

abbrev awaiting : Surroundings
awaiting = record env { in_flight = λ id. has id (sends_after history) }

-- The message in the ns queue, with a deadline long past.
abbrev late : History
late = zadd queue_ns_key (pos 5) (txt "a") ∷ after_enqueue

late-hash : (view_of late).hash (message_key (txt "a")) ≡ some (serialize_create_device_message dto)
unfolding view_of
late-hash = enqueued-hash

late-placed : (view_of late).zset queue_ns_key (txt "a") ≡ some (pos 5)
unfolding view_of text_discrete queue_ns_key
late-placed = refl

abbrev late_world : World memory
late_world = record { db = late; events = [] }

abbrev after_turn : World memory
after_turn =
    drain_ids memory config one_plugin awaiting ns_queue 1700000090000 (txt "a" ∷ []) late_world

drain_ids-Outstanding_example :
    (after_turn.events ≡ [])
    × OnlyDeadline
        (txt "a")
        ((awaiting.call (txt "a")).instant.now + 30000)
        (memory.view late)
        (memory.view after_turn.db)
drain_ids-Outstanding_example =
    drain_ids-Outstanding memory config one_plugin awaiting history 2 1700000090000 (txt "a")
      (serialize_create_device_message dto) message acme (pos 5) late_world (λ i. refl) second_send
      late-hash reads_back registered late-placed
