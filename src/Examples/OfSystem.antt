-- ===== src/Examples/OfSystem.antt =====
-- An enqueue, a distribution, a send, a tick and a cancel, over the Redis of Redis/Memory.
use nxt_device_messaging.Common.{Text, txt, ◌≡◌, ◌≢◌, subst, some, [], ◌∷◌, arith}
use nxt_device_messaging.Plugin.{DeliveryPlugin, delivery}
use nxt_device_messaging.Plugin.QueueKey.{build_initial_queue_key}
use nxt_device_messaging.Redis.{MessageHash}
use nxt_device_messaging.Redis.Memory.{memory}
use nxt_device_messaging.Lifecycle.Stages.{StageName, stages, stage_key_for}
use nxt_device_messaging.Lifecycle.Home.{owner, AtHome}
use nxt_device_messaging.Lifecycle.Protocol.{IsApart, standing}
use nxt_device_messaging.Lifecycle.Protocol.Sources.{build_initial_queue_key_apart}
use nxt_device_messaging.Engine.{World}
use nxt_device_messaging.Engine.Outgoing.{
  accepted, enqueue, send_one_to_network_server, cancel_one_by_correlation_id,
}
use nxt_device_messaging.Engine.Outgoing.Distribute.{distribute_to_network_servers}
use nxt_device_messaging.Engine.Outgoing.Distribute.Edges.{
  SentOrSame, distribute_to_network_servers-SentOrSame,
}
use nxt_device_messaging.Engine.Runner.{tick}
use nxt_device_messaging.Engine.System.{
  Runs, starts, goes_on, ticks, distributes, sends, enqueues, cancels, Runs-AtHome,
}
use nxt_device_messaging.Examples.Fixtures.{config, dto}
use nxt_device_messaging.Examples.OfMoves.{nothing-IsFresh, nothing_under}
use nxt_device_messaging.Examples.OfEngine.{env}
use nxt_device_messaging.Examples.OfDistribution.{
  network_queue, spaced_acme, spaced_registry, call, sent_message, nowhere-AtHome,
}

spaced-entry :
    (id : Text) (p : DeliveryPlugin) → spaced_registry id ≡ some (delivery p) → p ≡ spaced_acme
spaced-entry id p e = ground arith

spaced-owner :
    (h : MessageHash) (p : DeliveryPlugin) → owner spaced_registry h ≡ some p → p ≡ spaced_acme
spaced-owner h p e = ground arith

network_queue_apart : (st : StageName) (k : Text) → network_queue ≢ stage_key_for (stages st) k
unfolding build_initial_queue_key
network_queue_apart st k = build_initial_queue_key_apart (txt "acme") (txt "network") (txt "7") st k

spaced-IsApart : IsApart spaced_registry
spaced-IsApart id p network d st k e f = network_queue_apart st k (
    subst (λ (x : DeliveryPlugin). x.initial_queue_key network d ≡ stage_key_for (stages st) k)
      (spaced-entry id p e) f)

abbrev empty_world : World memory
empty_world = record { db = []; events = [] }

abbrev first_world : World memory
first_world = record {
  db = (enqueue memory config spaced_registry (txt "a") dto []).1;
  events = [];
}

abbrev second_world : World memory
second_world =
    (distribute_to_network_servers memory config spaced_registry (λ q. call) first_world).1

abbrev third_world : World memory
third_world =
    send_one_to_network_server memory config spaced_registry call spaced_acme sent_message
      (accepted (txt "77")) second_world

abbrev fourth_world : World memory
fourth_world = tick memory config spaced_registry env (txt "acme" ∷ []) 1700000090000 third_world

abbrev last_world : World memory
last_world = record fourth_world {
  db = (cancel_one_by_correlation_id memory config spaced_registry (txt "c1") fourth_world.db).1;
}

all_five : Runs memory spaced_registry config empty_world last_world
all_five =
    goes_on
      (goes_on
        (goes_on
          (goes_on
            (goes_on starts (enqueues (txt "a") dto empty_world nothing-IsFresh (nothing_under _)))
            (distributes (λ q. call) first_world))
          (sends call spaced_acme sent_message (accepted (txt "77")) second_world
            (λ h p found own. spaced-owner h p own)))
        (ticks env (txt "acme" ∷ []) 1700000090000 third_world))
      (cancels (txt "c1") fourth_world)

Runs-AtHome_example : AtHome spaced_registry (memory.view last_world.db)
Runs-AtHome_example = Runs-AtHome memory spaced_registry config nowhere-AtHome all_five

one_enqueued : Runs memory spaced_registry config empty_world first_world
one_enqueued = goes_on starts (enqueues (txt "a") dto empty_world nothing-IsFresh (nothing_under _))

distribute_to_network_servers-SentOrSame_example :
    SentOrSame
      (standing spaced_registry (memory.view first_world.db) (txt "a"))
      (standing spaced_registry (memory.view second_world.db) (txt "a"))
distribute_to_network_servers-SentOrSame_example =
    distribute_to_network_servers-SentOrSame memory config spaced_registry spaced-IsApart
      (λ q. call) first_world
      (Runs-AtHome memory spaced_registry config nowhere-AtHome one_enqueued) (txt "a")
