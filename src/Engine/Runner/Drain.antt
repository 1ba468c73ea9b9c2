-- ===== src/Engine/Runner/Drain.antt =====
-- The drain of a stage queue (src/engine/lifecycle/runner.ts) is a run of the transitions.
use nxt_device_messaging.Common.{
  ℕ, Text, ◌≡◌, refl, sym, subst, ◌∙◌, Bool, true, false, Bool-cases, Option, none, some, some_inj,
  inl, inr, List, [], ◌∷◌, leb, All,
}
use nxt_device_messaging.Message.{DeviceMessage}
use nxt_device_messaging.Plugin.{
  DeviceMessagingPlugin, delivery, token_only, DeliveryPlugin, DeliveryConfig, PipelinePattern,
  push, pull,
}
use nxt_device_messaging.Redis.{MessageHash, Redis}
use nxt_device_messaging.Redis.Keys.{message_key}
use nxt_device_messaging.Redis.MessageStore.{Lookup, missing, malformed, found, get_message_by_id}
use nxt_device_messaging.Redis.MessageStore.Fields.{ReadFrom, lookup_hash-found}
use nxt_device_messaging.Redis.StageStore.{get_expired_messages_in_queue}
use nxt_device_messaging.Lifecycle.Stages.{
  StageName, ns, relay_node, device, awaiting_task, retry, StageQueue, queue_ns_key,
  queue_retry_key, enumerate_stage_queues, pull_max_message_age_ms,
}
use nxt_device_messaging.Lifecycle.Home.{Registry, AtHome, as_delivery, owner, OwnedBy, ready_queue}
use nxt_device_messaging.Lifecycle.Reach.{requeues, claims, reschedules}
use nxt_device_messaging.Lifecycle.Stages.Keys.{
  IsStageKey, HasStageKey, ns-IsStageKey, enumerate_stage_queues-HasStageKey,
}
use nxt_device_messaging.Lifecycle.Protocol.{Run, begun, then_does, does, Run-trans}
use nxt_device_messaging.Lifecycle.Protocol.Refines.{Run-AtHome}
use nxt_device_messaging.Engine.{
  StageOutcome, removed, moved_on, rescheduled, orphaned, Call, World,
}
use nxt_device_messaging.Engine.Outcomes.{purge_notified-Run, retry_or_fail-Run, process_event-Run}
use nxt_device_messaging.Engine.Actions.{
  Surroundings, Poll, no_poll, poll_failed, answered, act_in, is_waiting, outcome_of_requeue,
  polled,
}
use nxt_device_messaging.Engine.Runner.{
  drain, drain_queues, tick, drain_ids, drain_found, drain_owned, conclude, continue,
}

module _ (R : Redis) (reg : Registry) (config : DeliveryConfig) where
  outcome_of_requeue-db :
      (w : World R) (r : Bool × R.Db) → (outcome_of_requeue R config w r).1.db ≡ r.1
  outcome_of_requeue-db w (true, after) = refl
  outcome_of_requeue-db w (false, after) = refl

  polled-Run :
      (c : Call) (p : PipelinePattern) (d : Text) (poll : Poll) (plugin : DeliveryPlugin)
      (w : World R)
      → plugin.delivery_pattern ≡ p
      → Run R reg config w.db (polled R config c p d poll plugin w).1.db
  polled-Run c push d poll plugin w e = begun
  polled-Run c pull d no_poll plugin w e = begun
  polled-Run c pull [] poll_failed plugin w e = begun
  polled-Run c pull [] (answered event) plugin w e = begun
  polled-Run c pull (x ∷ xs) poll_failed plugin w e = begun
  polled-Run c pull (x ∷ xs) (answered none) plugin w e = begun
  polled-Run c pull (x ∷ xs) (answered (some event)) plugin w e =
      process_event-Run R reg config c event plugin w (λ p. absurd (cc (e, p)))

  module _ (env : Surroundings) (m : DeviceMessage) (h : MessageHash) (plugin : DeliveryPlugin)
      (w : World R) (there : (R.view w.db).hash (message_key m.id) ≡ some h)
      (read : ReadFrom m.id h m) (owned : as_delivery (reg m.plugin_id) ≡ some plugin) where
    same_hash : (g : MessageHash) → (R.view w.db).hash (message_key m.id) ≡ some g → g ≡ h
    same_hash g e = some_inj (sym e ∙ there)

    owner-plugin : owner reg h ≡ some plugin
    owner-plugin = rw read.plugin owned

    owned_by : OwnedBy reg (R.view w.db) m.id plugin
    owned_by g p e own = some_inj (sym own ∙ rw (same_hash g e) owner-plugin)

    ready :
        (g : MessageHash)
        → (R.view w.db).hash (message_key m.id) ≡ some g
        → ready_queue plugin g.network_id g.device
          ≡ some (plugin.initial_queue_key m.network_id m.device)
    ready g e = rw (same_hash g e, read.network, read.device) refl

    -- The action of a stage makes transitions only.
    act_in-Run :
        (st : StageName) (queue_key : Text) (age : ℕ)
        → IsStageKey queue_key
        → Run R reg config w.db (act_in R config env st queue_key m plugin age w).1.db
    unfolding act_in
    act_in-Run ns queue_key age at_stage = elim (Bool-cases (env.in_flight m.id)) [
      | inl e ↦ rw (e, act_in) begun
      | inr e ↦
          rw (e, act_in)
            (retry_or_fail-Run R reg config (env.call m.id) m.id queue_ns_key _ plugin w
              ns-IsStageKey)
    ]
    act_in-Run relay_node queue_key age at_stage =
        elim (Bool-cases (is_waiting plugin.delivery_pattern (env.remote_status m))) [
          | inl e ↦ rw (e, act_in) begun
          | inr e ↦
              rw (e, act_in)
                (retry_or_fail-Run R reg config (env.call m.id) m.id queue_key _ plugin w at_stage)
        ]
    act_in-Run device queue_key age at_stage =
        retry_or_fail-Run R reg config (env.call m.id) m.id queue_key _ plugin w at_stage
    act_in-Run awaiting_task queue_key age at_stage =
        elim (Bool-cases (leb pull_max_message_age_ms age)) [
          | inl e ↦
              rw (e, act_in) (purge_notified-Run R reg config (env.call m.id).webhook _ _ plugin w)
          | inr e ↦
              rw (e, act_in)
                (polled-Run (env.call m.id) plugin.delivery_pattern m.delivery_queue_id
                  (env.fetch_status m) plugin w refl)
        ]
    act_in-Run retry queue_key age at_stage =
        subst (Run R reg config w.db) (sym (outcome_of_requeue-db w _)) (
          does R reg config (requeues w.db m.id queue_retry_key _ m.priority plugin owned_by ready)
            refl)

  module _ (env : Surroundings) where
    conclude-Run :
        (q : StageQueue) (m : DeviceMessage) (id : Text) (age : ℕ) (plugin : DeliveryPlugin)
        (start : R.Db) (r : Option StageOutcome × World R)
        → Run R reg config start r.1.db
        → Run R reg config start (conclude R config reg env q m id age plugin r).db
    conclude-Run q m id age plugin start (some orphaned, w) r =
        then_does r (claims w.db q.key id) tt
    conclude-Run q m id age plugin start (some removed, w) r = r
    conclude-Run q m id age plugin start (some moved_on, w) r = r
    conclude-Run q m id age plugin start (some rescheduled, w) r =
        then_does r (reschedules w.db (env.call id).instant q.stage m age plugin) tt
    conclude-Run q m id age plugin start (none, w) r =
        then_does r (reschedules w.db (env.call id).instant q.stage m age plugin) tt

    owned-Run :
        (q : StageQueue) (now : ℕ) (id : Text) (m : DeviceMessage) (h : MessageHash) (w : World R)
        (o : Option DeviceMessagingPlugin)
        → (R.view w.db).hash (message_key m.id) ≡ some h
        → ReadFrom m.id h m
        → as_delivery (reg m.plugin_id) ≡ as_delivery o
        → IsStageKey q.key
        → Run R reg config w.db (drain_owned R config reg env q now id m (as_delivery o) w).db
    owned-Run q now id m h w none there read e k = does R reg config (claims w.db q.key id) tt
    owned-Run q now id m h w (some (token_only i)) there read e k =
        does R reg config (claims w.db q.key id) tt
    owned-Run q now id m h w (some (delivery plugin)) there read e k =
        conclude-Run q m id _ plugin w.db _
          (act_in-Run env m h plugin w there read e q.stage q.key _ k)

    found-Run :
        (q : StageQueue) (now : ℕ) (id : Text) (w after : World R) (l : Lookup)
        → get_message_by_id R id w.db ≡ l
        → drain_found R config reg env q now id l w ≡ some after
        → IsStageKey q.key
        → Run R reg config w.db after.db
    unfolding get_message_by_id
    found-Run q now id w after missing e f k =
        subst (λ (x : World R). Run R reg config w.db x.db) (some_inj f)
          (does R reg config (claims w.db q.key id) tt)
    found-Run q now id w after malformed e f k = cc
    found-Run q now id w after (found m) e f k =
        let (h, there, read) = lookup_hash-found id ((R.view w.db).hash (message_key id)) m e in
        let back = sym read.id_eq in
        subst (λ (x : World R). Run R reg config w.db x.db) (some_inj f)
          (owned-Run q now id m h w (reg m.plugin_id)
            (subst (λ (i : Text). (R.view w.db).hash (message_key i) ≡ some h) back there)
            (subst (λ (i : Text). ReadFrom i h m) back read) refl k)

    continue-Run :
        (q : StageQueue) (now : ℕ) (ids : List Text) (id : Text) (w : World R)
        (o : Option (World R))
        → ((after : World R)
            → Run R reg config after.db (drain_ids R config reg env q now ids after).db)
        → drain_found R config reg env q now id (get_message_by_id R id w.db) w ≡ o
        → IsStageKey q.key
        → Run R reg config w.db
            (continue R config reg env w o (drain_ids R config reg env q now ids)).db
    continue-Run q now ids id w none rest e k = begun
    continue-Run q now ids id w (some after) rest e k =
        Run-trans R reg config (found-Run q now id w after _ refl e k) (rest after)

    drain_ids-Run :
        (q : StageQueue) (now : ℕ) (ids : List Text) (w : World R)
        → IsStageKey q.key
        → Run R reg config w.db (drain_ids R config reg env q now ids w).db
    unfolding drain_ids
    drain_ids-Run q now [] w k = begun
    drain_ids-Run q now (id ∷ ids) w k =
        continue-Run q now ids id w _ (λ v. drain_ids-Run q now ids v k) refl k

    -- Whatever a drain finds in a stage queue, and whatever the vendors and the webhook answer, it changes
    -- the database by transitions alone: each made for the plugin that owns the message.
    pub drain-Run :
        (q : StageQueue) (now : ℕ) (w : World R)
        → IsStageKey q.key
        → Run R reg config w.db (drain R config reg env q now w).db
    unfolding drain
    drain-Run q now w k = drain_ids-Run q now (get_expired_messages_in_queue R q.key now w.db) w k

    drain_queues-Run :
        (qs : List StageQueue) (now : ℕ) (w : World R)
        → All HasStageKey qs
        → Run R reg config w.db (drain_queues R config reg env qs now w).db
    unfolding drain_queues
    drain_queues-Run [] now w ks = begun
    drain_queues-Run (q ∷ qs) now w (k, ks) =
        Run-trans R reg config (drain-Run q now w k) (drain_queues-Run qs now _ ks)

    tick-Run :
        (pull_plugin_ids : List Text) (now : ℕ) (w : World R)
        → Run R reg config w.db (tick R config reg env pull_plugin_ids now w).db
    unfolding tick
    tick-Run pull_plugin_ids now w =
        drain_queues-Run (enumerate_stage_queues pull_plugin_ids) now w
          (enumerate_stage_queues-HasStageKey pull_plugin_ids)

    -- A tick keeps every message at home: whatever is due in the stage queues, and whatever the vendors
    -- and the webhook answer, a message whose hash names a delivery plugin is afterwards in no sorted
    -- set other than the one that its status, its device and its plugin name, if that was so before.
    pub tick-AtHome :
        (pull_plugin_ids : List Text) (now : ℕ) (w : World R)
        → AtHome reg (R.view w.db)
        → AtHome reg (R.view (tick R config reg env pull_plugin_ids now w).db)
    tick-AtHome pull_plugin_ids now w home_all =
        Run-AtHome R reg config home_all (tick-Run pull_plugin_ids now w)
