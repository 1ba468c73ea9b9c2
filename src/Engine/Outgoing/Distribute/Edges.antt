-- ===== src/Engine/Outgoing/Distribute/Edges.antt =====
-- Where the distribution of src/engine/outgoing.ts takes messages.
use nxt_device_messaging.Message.{queued, sent_to_ns}
use nxt_device_messaging.Common.{
  Text, txt, ◌⊎◌, inl, inr, ◌≡◌, ◌≢◌, refl, sym, ◌∙◌, subst, Bool, true, false, Option, none, some,
  List, [], ◌∷◌, ◌++◌, arith,
}
use nxt_device_messaging.Plugin.{DeliveryPlugin, DeliveryConfig}
use nxt_device_messaging.Plugin.QueueKey.{
  get_plugin_id_from_initial_queue_key, get_plugin_id_from_initial_queue_key-queue,
}
use nxt_device_messaging.Redis.{Redis, Keyspace, MessageHash}
use nxt_device_messaging.Redis.Keys.{message_key, list_of_initial_queues, queue_awaiting_task}
use nxt_device_messaging.Lifecycle.Stages.{
  StageName, stages, stage_key_for, queue_ns_key, queue_relay_node_key, queue_device_key,
  queue_retry_key,
}
use nxt_device_messaging.Lifecycle.Stages.Keys.{IsStageKey}
use nxt_device_messaging.Lifecycle.Home.{Registry, AtHome}
use nxt_device_messaging.Lifecycle.Moves.{pick_into_ns}
use nxt_device_messaging.Lifecycle.Protocol.{
  standing, standing_of, Standing, stands, Action, picking, Edge, stays, is_sent, enters, is_purged,
  runs_out, goes_on, fails, is_tried_again, IsApart,
}
use nxt_device_messaging.Lifecycle.Protocol.Steps.{pick_into_ns-Moves}
use nxt_device_messaging.Engine.{Call, World}
use nxt_device_messaging.Engine.Outgoing.Distribute.{
  can_admit, concurrency_rate_limit, owner_of_queue, distribute_admitted, distribute_owned,
  distribute_queue, distribute_queues, distribute_to_network_servers,
}
use nxt_device_messaging.Engine.Outgoing.Distribute.Handover.{
  Unmoved, Unmoved-AtHome, can_admit-Unmoved, picked_in-db, owned-AtHome,
}

-- A key that begins as ready queues do is no stage.
named_queue_apart :
    (rest : Text) (st : StageName) (k : Text) → txt "queue:" ++ rest ≢ stage_key_for (stages st) k
unfolding stage_key_for queue_ns_key queue_relay_node_key queue_device_key queue_retry_key
    queue_awaiting_task
named_queue_apart rest st k e = ground arith

ready_apart :
    (queue id : Text) → get_plugin_id_from_initial_queue_key queue ≡ some id → IsStageKey queue → ⊥
ready_apart queue id e (st, k, f) =
    let (rest, g) = get_plugin_id_from_initial_queue_key-queue queue id e in
    named_queue_apart rest st k (sym g ∙ f)

-- A message stands where it stood, or has gone from queued to the network server, for one plugin.
abbrev pub SentOrSame : Standing → Standing → Type 0
SentOrSame x y =
    (y ≡ x)
    ⊎ ((p : DeliveryPlugin) × (x ≡ stands p (some queued)) × (y ≡ stands p (some sent_to_ns)))

SentOrSame-trans : {x y z : Standing} → SentOrSame x y → SentOrSame y z → SentOrSame x z
SentOrSame-trans (inl e) (inl f) = inl (f ∙ e)
SentOrSame-trans (inl e) (inr (p, f, g)) = inr (p, sym e ∙ f, g)
SentOrSame-trans (inr (p, f, g)) (inl h) = inr (p, f, h ∙ g)
SentOrSame-trans (inr (p, f, g)) (inr (q, h, k)) = absurd (cc (g, h))

picking-SentOrSame :
    {action : Action} {x y : Standing} → action ≡ picking → Edge action x y → SentOrSame x y
picking-SentOrSame e (stays a x) = inl refl
picking-SentOrSame e (is_sent p) = inr (p, refl, refl)
picking-SentOrSame e (enters p) = cc
picking-SentOrSame e (is_purged x) = cc
picking-SentOrSame e (runs_out x) = cc
picking-SentOrSame e (goes_on p s st st' f g) = cc
picking-SentOrSame e (fails p s st f) = cc
picking-SentOrSame e (is_tried_again p) = cc

abbrev OnlySends : Registry → Keyspace → Keyspace → Type 0
OnlySends reg s s' = (i : Text) → SentOrSame (standing reg s i) (standing reg s' i)

Unmoved-OnlySends : (reg : Registry) (s s' : Keyspace) → Unmoved s s' → OnlySends reg s s'
Unmoved-OnlySends reg s s' u i =
    subst
      (λ (f : Text → Option MessageHash).
        SentOrSame (standing reg s i) (standing_of reg (f (message_key i))))
      (sym u.hashes) (inl refl)

module _ (R : Redis) (config : DeliveryConfig) (reg : Registry) (apart : IsApart reg) where
  open R use {Db, view}

  module _ (c : Call) where
    admitted-OnlySends :
        (queue : Text) (plugin : DeliveryPlugin) (w : World R) (r : Bool × Db)
        → (IsStageKey queue → ⊥)
        → AtHome reg (view r.1)
        → OnlySends reg (view w.db) (view r.1)
        → OnlySends reg
            (view w.db)
            (view (distribute_admitted R config reg c queue plugin w r).1.db)
    admitted-OnlySends queue plugin w (false, after) outside a t = t
    admitted-OnlySends queue plugin w (true, after) outside a t = λ i.
        let limit = concurrency_rate_limit plugin.admission queue in
        rw
          (picked_in-db R config reg c w (pick_into_ns R config c.instant queue plugin limit after))
          (SentOrSame-trans (t i) (
            picking-SentOrSame refl (
              pick_into_ns-Moves R reg config after apart a c.instant queue plugin limit outside
                i)))

    owned-OnlySends :
        (queue : Text) (o : Option DeliveryPlugin) (w : World R)
        → (o ≢ none → IsStageKey queue → ⊥)
        → AtHome reg (view w.db)
        → OnlySends reg (view w.db) (view (distribute_owned R config reg c queue o w).1.db)
    unfolding distribute_owned
    owned-OnlySends queue none w outside a = λ i. inl refl
    owned-OnlySends queue (some plugin) w outside a =
        let u = can_admit-Unmoved R plugin.admission queue w.db in
        admitted-OnlySends queue plugin w (can_admit R plugin.admission queue w.db)
          (outside (λ e. absurd (cc))) (Unmoved-AtHome reg _ _ u a) (Unmoved-OnlySends reg _ _ u)

    owner-apart :
        (queue : Text) (o : Option Text)
        → get_plugin_id_from_initial_queue_key queue ≡ o
        → owner_of_queue reg o ≢ none
        → IsStageKey queue
        → ⊥
    owner-apart queue none e owned k = owned refl
    owner-apart queue (some id) e owned k = ready_apart queue id e k

    queue-OnlySends :
        (queue : Text) (w : World R)
        → AtHome reg (view w.db)
        → OnlySends reg (view w.db) (view (distribute_queue R config reg c queue w).1.db)
    unfolding distribute_queue
    queue-OnlySends queue w a =
        let o = get_plugin_id_from_initial_queue_key queue in
        owned-OnlySends queue (owner_of_queue reg o) w (owner-apart queue o refl) a

  module _ (call_for : Text → Call) where
    queues-OnlySends :
        (qs : List Text) (w : World R)
        → AtHome reg (view w.db)
        → OnlySends reg (view w.db) (view (distribute_queues R config reg call_for qs w).1.db)
    unfolding distribute_queues distribute_queue
    queues-OnlySends [] w a = λ i. inl refl
    queues-OnlySends (q ∷ qs) w a = λ i.
        SentOrSame-trans (queue-OnlySends (call_for q) q w a i)
          (queues-OnlySends qs _ (owned-AtHome R config reg (call_for q) q _ w a) i)

    -- A distribution over all ready queues, whatever they hold and whatever is admitted, leaves a message
    -- where it stands, or takes one that was queued for a plugin to the network server for the same
    -- plugin, if every message is at home and no ready queue of a plugin has the key of a stage.
    pub distribute_to_network_servers-SentOrSame :
        (w : World R)
        → AtHome reg (view w.db)
        → (id : Text)
        → SentOrSame
            (standing reg (view w.db) id)
            (standing reg (view (distribute_to_network_servers R config reg call_for w).1.db) id)
    unfolding distribute_to_network_servers
    distribute_to_network_servers-SentOrSame w a id =
        queues-OnlySends (R.smembers w.db list_of_initial_queues) w a id
