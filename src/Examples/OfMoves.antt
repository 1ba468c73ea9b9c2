-- ===== src/Examples/OfMoves.antt =====
-- A message that goes through the pipeline, over the Redis of Redis/Memory.
use nxt_device_messaging.Common.{Text, txt, text_discrete, ◌≡◌, refl, some, none, [], arith}
use nxt_device_messaging.Plugin.{DeliveryPlugin, delivery}
use nxt_device_messaging.Redis.{MessageHash, calls}
use nxt_device_messaging.Redis.Keys.{message_key, message_key_prefix}
use nxt_device_messaging.Redis.Memory.{History, memory, view_of}
use nxt_device_messaging.Redis.MessageStore.{
  enqueue_device_message, deserialize_message, serialize_create_device_message,
}
use nxt_device_messaging.Lifecycle.Stages.{ns}
use nxt_device_messaging.Lifecycle.Home.{owner, IsKeyed, AtHome}
use nxt_device_messaging.Lifecycle.Moves.{Instant, AdvanceArgs, pick_into_ns, advance, purge}
use nxt_device_messaging.Lifecycle.Moves.Entry.{IsFresh}
use nxt_device_messaging.Lifecycle.Moves.Purge.{Purged, purge-Purged}
use nxt_device_messaging.Lifecycle.Reach.{
  Reach, here, next, enqueues, picks, advances, Reach-AtHome,
}
use nxt_device_messaging.Examples.Fixtures.{acme, one_plugin, config, dto, message}

pub nothing-AtHome : AtHome one_plugin (view_of [])
unfolding view_of
nothing-AtHome = record { member = λ id queue h p score found own z. ground arith }

pub nothing-IsFresh : IsFresh (txt "a") (view_of [])
unfolding view_of
nothing-IsFresh = record { unplaced = λ q. refl }

pub nothing_under : (k : Text) → (view_of []).hash k ≡ none
unfolding view_of
nothing_under k = refl

pub one_plugin-owner :
    (h : MessageHash) (p : DeliveryPlugin) → owner one_plugin h ≡ some p → p ≡ acme
one_plugin-owner h p e = ground arith

pub one_plugin-IsKeyed : IsKeyed one_plugin
one_plugin-IsKeyed id p e = ground arith

pub registered : one_plugin (txt "acme") ≡ some (delivery acme)
unfolding text_discrete
registered = refl

abbrev pub instant : Instant
instant = record { now = 1700000000000; random = 12345 }

abbrev pub after_enqueue : History
after_enqueue =
    (enqueue_device_message memory (txt "a") dto (acme.initial_queue_key (some 7) dto.device)
      config.message_ttl_seconds []).1

abbrev pub after_pick : History
after_pick = (pick_into_ns memory config instant (txt "q") acme none after_enqueue).1

abbrev to_relay_node : AdvanceArgs
to_relay_node = record {
  message_id = txt "a";
  plugin = acme;
  from = ns;
  delivery_queue_id = txt "77";
  retry_count = 0;
}

abbrev pub after_advance : History
after_advance = (advance memory config instant to_relay_node after_pick).1

abbrev enqueued : Reach memory one_plugin config [] after_enqueue
enqueued = next here (enqueues [] (txt "a") dto acme nothing-IsFresh (nothing_under _) registered)

abbrev pub advanced : Reach memory one_plugin config [] after_advance
advanced =
    next (next enqueued (picks after_enqueue instant (txt "q") acme none))
      (advances after_pick instant to_relay_node (λ h p found own. one_plugin-owner h p own))

Reach-AtHome_example : AtHome one_plugin (memory.view after_advance)
Reach-AtHome_example = Reach-AtHome memory one_plugin config nothing-AtHome advanced

pub enqueued-AtHome : AtHome one_plugin (view_of after_enqueue)
enqueued-AtHome = Reach-AtHome memory one_plugin config nothing-AtHome enqueued

pub enqueued-hash :
    (view_of after_enqueue).hash (message_key (txt "a"))
    ≡ some (serialize_create_device_message dto)
unfolding view_of enqueue_device_message calls message_key message_key_prefix text_discrete
enqueued-hash = refl

pub reads_back : deserialize_message (txt "a") (serialize_create_device_message dto) ≡ some message
unfolding deserialize_message
reads_back = refl

purge-Purged_example : Purged message (memory.view (purge memory config message acme after_enqueue))
purge-Purged_example =
    purge-Purged memory one_plugin config after_enqueue message
      (serialize_create_device_message dto) acme enqueued-hash reads_back registered
      one_plugin-IsKeyed enqueued-AtHome

pub picked-AtHome : AtHome one_plugin (view_of after_pick)
picked-AtHome =
    Reach-AtHome memory one_plugin config nothing-AtHome
      (next enqueued (picks after_enqueue instant (txt "q") acme none))
