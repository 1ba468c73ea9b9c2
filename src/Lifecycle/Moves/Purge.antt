-- ===== src/Lifecycle/Moves/Purge.antt =====
-- `purge` of src/engine/lifecycle/moves.ts leaves nothing of the message behind.
use mathlib.Core.List.{append_assoc}
use nxt_device_messaging.Common.{
  Text, ℤ, ◌≡◌, refl, sym, ap, ◌∙◌, subst, inl, inr, false, Option, none, some, Option-cases,
  some_inj, List, [], ◌∷◌, ◌++◌, map, All, All-append, arith,
}
use nxt_device_messaging.Message.{
  DeviceMessage, DeliveryStatus, queued, to_retry, sent_to_ns, delivered_to_ns, sent_to_device,
  delivery_successful, delivery_failed, Phase,
}
use nxt_device_messaging.Plugin.{DeliveryPlugin, DeliveryConfig, delivery}
use nxt_device_messaging.Redis.{
  MessageHash, Keyspace, Command, zrem, srem, del, Redis, view-calls, apply, apply_all,
}
use nxt_device_messaging.Redis.Commands.{
  TakesAway, Within-apply_all, Has, Has-append_right, Has-append_left, srem_gone, zrem_gone,
  del_gone_hash, del_gone_string,
}
use nxt_device_messaging.Redis.Keys.{message_key, index_correlation_id, index_external_delivery_id}
use nxt_device_messaging.Redis.MessageStore.{deserialize_message, truthy}
use nxt_device_messaging.Redis.MessageStore.Fields.{ReadFrom, deserialize_message-ReadFrom}
use nxt_device_messaging.Redis.StageStore.{
  message_full_cleanup, cleanup_commands, slot_commands, correlation_commands, delivery_commands,
}
use nxt_device_messaging.Lifecycle.Home.{
  Registry, owner, home_of, stage_queue, IsKeyed, home, AtHome,
}
use nxt_device_messaging.Lifecycle.Moves.{purge, purge_queues}
use nxt_device_messaging.Lifecycle.Moves.Invariant.{Shrunk-AtHome}
use nxt_device_messaging.Lifecycle.Stages.Keys.{Listed, enumerate_stage_keys_complete}
use nxt_device_messaging.Lifecycle.Stages.{StageName, stages, stage_key_for, enumerate_stage_keys}

All-zrem : (id : Text) (qs : List Text) → All TakesAway (map (λ q. zrem q id) qs)
All-zrem id [] = tt
All-zrem id (q ∷ qs) = (tt, All-zrem id qs)

pub cleanup-TakesAway : (m : DeviceMessage) (qs : List Text) → All TakesAway (cleanup_commands m qs)
cleanup-TakesAway m qs =
    (tt, All-append TakesAway (map (λ q. zrem q m.id) qs) _ (All-zrem m.id qs) (ground arith))

Has-zrem : (id q : Text) (qs : List Text) → Listed q qs → Has (zrem q id) (map (λ k. zrem k id) qs)
Has-zrem id q (k ∷ qs) (inl e) = inl (ap (λ (j : Text). zrem j id) e)
Has-zrem id q (k ∷ qs) (inr h) = inr (Has-zrem id q qs h)
Has-zrem id q [] h = elim h [ ]

abbrev SlotReleased : Option Text → Text → Keyspace → Type 0
SlotReleased none id s = Unit
SlotReleased (some key) id s = s.set key id ≡ false

abbrev Unindexed : Option Text → Keyspace → Type 0
Unindexed none s = Unit
Unindexed (some key) s = s.string key ≡ none

abbrev correlation_of : Option Text → Option Phase → Option Text
correlation_of none phase = none
correlation_of (some c) phase = some (index_correlation_id c phase)

abbrev correlation_key : DeviceMessage → Option Text
correlation_key m = correlation_of (truthy m.correlation_id) m.phase

abbrev delivery_key : Text → Option Text
delivery_key [] = none
delivery_key (x ∷ xs) = some (index_external_delivery_id (x ∷ xs))

-- No hash, no membership in any sorted set, no admission slot and no lookup index.
pub record Purged (m : DeviceMessage) (s : Keyspace) : Type 0 where
  pub no_hash : s.hash (message_key m.id) ≡ none
  pub no_queue : (q : Text) → s.zset q m.id ≡ none
  pub no_slot : SlotReleased (truthy m.concurrency_rate_limit_key) m.id s
  pub no_correlation : Unindexed (correlation_key m) s
  pub no_delivery : Unindexed (delivery_key m.delivery_queue_id) s

slot-Has :
    (o : Option Text) (id : Text) (pre post : List Command) (s : Keyspace)
    → All TakesAway (pre ++ (slot_commands o id ++ post))
    → SlotReleased o id (apply_all (pre ++ (slot_commands o id ++ post)) s)
slot-Has none id pre post s t = tt
slot-Has (some key) id pre post s t =
    srem_gone (pre ++ (slot_commands (some key) id ++ post)) s t key id
      (Has-append_right (srem key id) pre _ (inl refl))

correlation-Has :
    (o : Option Text) (phase : Option Phase) (pre post : List Command) (s : Keyspace)
    → All TakesAway (pre ++ (correlation_commands o phase ++ post))
    → Unindexed
        (correlation_of o phase)
        (apply_all (pre ++ (correlation_commands o phase ++ post)) s)
correlation-Has none phase pre post s t = tt
correlation-Has (some c) phase pre post s t =
    del_gone_string (pre ++ (correlation_commands (some c) phase ++ post)) s t _
      (Has-append_right (del (index_correlation_id c phase)) pre _ (inl refl))

delivery-Has :
    (d : Text) (pre : List Command) (s : Keyspace)
    → All TakesAway (pre ++ delivery_commands d)
    → Unindexed (delivery_key d) (apply_all (pre ++ delivery_commands d) s)
delivery-Has [] pre s t = tt
delivery-Has (x ∷ xs) pre s t =
    del_gone_string (pre ++ delivery_commands (x ∷ xs)) s t _
      (Has-append_right (del (index_external_delivery_id (x ∷ xs))) pre _ (inl refl))

module _ (m : DeviceMessage) (qs : List Text) (s : Keyspace) where
  abbrev zrems : List Command
  zrems = map (λ q. zrem q m.id) qs

  abbrev slots : List Command
  slots = slot_commands (truthy m.concurrency_rate_limit_key) m.id

  abbrev correlations : List Command
  correlations = correlation_commands (truthy m.correlation_id) m.phase

  abbrev deliveries : List Command
  deliveries = delivery_commands m.delivery_queue_id

  abbrev start : Keyspace
  start = apply (del (message_key m.id)) s

  -- The same sequence, split before the correlation index and before the delivery index.
  before_correlation :
      (del (message_key m.id) ∷ (zrems ++ slots)) ++ (correlations ++ deliveries)
      ≡ cleanup_commands m qs
  before_correlation =
      ap (λ (cs : List Command). del (message_key m.id) ∷ cs)
        (append_assoc zrems slots (correlations ++ deliveries))

  before_delivery :
      ((del (message_key m.id) ∷ (zrems ++ slots)) ++ correlations) ++ deliveries
      ≡ cleanup_commands m qs
  before_delivery =
      append_assoc (del (message_key m.id) ∷ (zrems ++ slots)) correlations deliveries
      ∙ before_correlation

  -- The queues aside, a cleanup leaves nothing whatever keys it is given.
  pub cleanup-Purged :
      ((q : Text) → (apply_all (cleanup_commands m qs) s).zset q m.id ≡ none)
      → Purged m (apply_all (cleanup_commands m qs) s)
  cleanup-Purged empty =
      let t = cleanup-TakesAway m qs in
      record {
        no_hash = del_gone_hash (cleanup_commands m qs) s t (message_key m.id) (inl refl);
        no_queue = empty;
        no_slot =
            slot-Has (truthy m.concurrency_rate_limit_key) m.id (del (message_key m.id) ∷ zrems)
              (correlations ++ deliveries) s t;
        no_correlation =
            subst (λ (cs : List Command). Unindexed (correlation_key m) (apply_all cs s))
              before_correlation
              (correlation-Has (truthy m.correlation_id) m.phase
                (del (message_key m.id) ∷ (zrems ++ slots)) deliveries s
                (subst (All TakesAway) (sym before_correlation) t));
        no_delivery =
            subst
              (λ (cs : List Command). Unindexed (delivery_key m.delivery_queue_id) (apply_all cs s))
              before_delivery
              (delivery-Has m.delivery_queue_id
                ((del (message_key m.id) ∷ (zrems ++ slots)) ++ correlations) s
                (subst (All TakesAway) (sym before_delivery) t));
      }

Listed-append_left : (x : Text) (xs ys : List Text) → Listed x xs → Listed x (xs ++ ys)
Listed-append_left x (z ∷ xs) ys (inl e) = inl e
Listed-append_left x (z ∷ xs) ys (inr h) = inr (Listed-append_left x xs ys h)
Listed-append_left x [] ys h = elim h [ ]

Listed-last : (x y : Text) (xs : List Text) → x ≡ y → Listed x (xs ++ y ∷ [])
Listed-last x y [] e = inl e
Listed-last x y (z ∷ xs) e = inr (Listed-last x y xs e)

-- The home of a message that has one is among the queues that the purge goes through.
module _ (m : DeviceMessage) (plugin : DeliveryPlugin) (same : plugin.id ≡ m.plugin_id) where
  stage-Listed :
      (o : Option StageName) (q : Text)
      → stage_queue plugin o ≡ some q
      → Listed q (purge_queues m plugin)
  stage-Listed none q e = cc
  stage-Listed (some st) q e = Listed-append_left q (enumerate_stage_keys (m.plugin_id ∷ [])) _ (
      subst (λ (k : Text). Listed k (enumerate_stage_keys (m.plugin_id ∷ []))) (key ∙ some_inj e)
        (enumerate_stage_keys_complete st m.plugin_id))
    where
      key : stage_key_for (stages st) m.plugin_id ≡ stage_key_for (stages st) plugin.id
      key = ap (stage_key_for (stages st)) (sym same)

  home-Listed :
      (status : DeliveryStatus) (q : Text)
      → home_of plugin m.network_id (some m.device) (some status) ≡ some q
      → Listed q (purge_queues m plugin)
  home-Listed queued q e =
      Listed-last q _ (enumerate_stage_keys (m.plugin_id ∷ [])) (sym (some_inj e))
  home-Listed to_retry q e = stage-Listed _ q e
  home-Listed sent_to_ns q e = stage-Listed _ q e
  home-Listed delivered_to_ns q e = stage-Listed _ q e
  home-Listed sent_to_device q e = stage-Listed _ q e
  home-Listed delivery_successful q e = stage-Listed _ q e
  home-Listed delivery_failed q e = stage-Listed _ q e

-- The message as its hash has it, and the plugin that owns it.
module _ (reg : Registry) (s : Keyspace) (m : DeviceMessage) (h : MessageHash)
    (plugin : DeliveryPlugin) (found : s.hash (message_key m.id) ≡ some h)
    (read : ReadFrom m.id h m) (owned : reg m.plugin_id ≡ some (delivery plugin))
    (same : plugin.id ≡ m.plugin_id) (a : AtHome reg s) where
  owner-plugin : owner reg h ≡ some plugin
  owner-plugin = rw read.plugin (rw owned)

  home-read : home plugin h ≡ home_of plugin m.network_id (some m.device) (some m.delivery_status)
  home-read = rw (read.network, read.device, read.status)

  placed-Listed :
      (q : Text) (score : ℤ) → s.zset q m.id ≡ some score → Listed q (purge_queues m plugin)
  placed-Listed q score z =
      home-Listed m plugin same m.delivery_status q
        (sym home-read ∙ a.member m.id q h plugin score found owner-plugin z)

  no_queue_after :
      (q : Text) → (apply_all (cleanup_commands m (purge_queues m plugin)) s).zset q m.id ≡ none
  no_queue_after q =
      let cs = cleanup_commands m (purge_queues m plugin) in
      let t : All TakesAway cs = cleanup-TakesAway m (purge_queues m plugin) in
      elim (Option-cases ((apply_all cs s).zset q m.id)) [
        | inl e ↦ e
        | inr (score, e) ↦ zrem_gone cs s t q m.id (
            inr (
              Has-append_left (zrem q m.id) (map (λ k. zrem k m.id) (purge_queues m plugin)) _ (
                Has-zrem m.id q (purge_queues m plugin)
                  (placed-Listed q score ((Within-apply_all cs s t).zsets q m.id score e)))))
      ]

module _ (R : Redis) (reg : Registry) (config : DeliveryConfig) (db : R.Db) where
  open R use {view}

  -- A purge of a message as its hash reads, by the plugin that the registry has under the message's
  -- plugin id, when every message is at home and the registry keeps plugins under their own ids,
  -- leaves no hash of the message, no membership in any sorted set, no admission slot that it
  -- holds, and no lookup index under its correlation id and phase or its delivery queue id.
  pub purge-Purged :
      (m : DeviceMessage) (h : MessageHash) (plugin : DeliveryPlugin)
      → (view db).hash (message_key m.id) ≡ some h
      → deserialize_message m.id h ≡ some m
      → reg m.plugin_id ≡ some (delivery plugin)
      → IsKeyed reg
      → AtHome reg (view db)
      → Purged m (view (purge R config m plugin db))
  unfolding purge message_full_cleanup
  purge-Purged m h plugin found read owned keyed a = rw view-calls (
      cleanup-Purged m (purge_queues m plugin) (view db) (
        no_queue_after reg (view db) m h plugin found (deserialize_message-ReadFrom m.id h m read)
          owned (keyed m.plugin_id plugin owned) a))

  -- And it keeps every other message at home.
  pub purge-AtHome :
      (m : DeviceMessage) (plugin : DeliveryPlugin)
      → AtHome reg (view db)
      → AtHome reg (view (purge R config m plugin db))
  unfolding purge message_full_cleanup
  purge-AtHome m plugin a = rw view-calls (
      let w =
        Within-apply_all (cleanup_commands m (purge_queues m plugin)) (view db)
          (cleanup-TakesAway m (purge_queues m plugin)) in
      Shrunk-AtHome reg (view db) _ (λ id h e. w.hashes (message_key id) h e)
        (λ q id score z absent. still q id score (w.zsets q id score z) absent) a)
    where
      still :
          (q id : Text) (score : ℤ)
          → (view db).zset q id ≡ some score
          → (view db).zset q id ≡ none
          → ⊥
      still q id score e f = cc
