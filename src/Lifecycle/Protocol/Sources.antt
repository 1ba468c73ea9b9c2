-- ===== src/Lifecycle/Protocol/Sources.antt =====
-- What the queue that a message sits in says of its status.
use nxt_device_messaging.Common.{
  Text, ℕ, ℤ, ◌≡◌, ◌≢◌, ◌⊎◌, inl, inr, refl, sym, ◌∙◌, Option, none, some, some_inj, arith,
}
use nxt_device_messaging.Message.{
  DeliveryStatus, queued, to_retry, sent_to_ns, delivered_to_ns, sent_to_device,
  delivery_successful, delivery_failed, Device,
}
use nxt_device_messaging.Plugin.{DeliveryPlugin, DeviceMessagingPlugin, delivery, token_only}
use nxt_device_messaging.Redis.{MessageHash, Keyspace}
use nxt_device_messaging.Plugin.QueueKey.{build_initial_queue_key}
use nxt_device_messaging.Redis.Keys.{message_key, queue_awaiting_task}
use nxt_device_messaging.Lifecycle.Stages.{
  StageName, retry, stages, stage_for_status, stage_key_for, queue_ns_key, queue_relay_node_key,
  queue_device_key, queue_retry_key,
}
use nxt_device_messaging.Lifecycle.Home.{
  Registry, owner, as_delivery, home_of, stage_queue, ready_queue, AtHome,
}
use nxt_device_messaging.Lifecycle.Stages.Keys.{IsStageKey}
use nxt_device_messaging.Lifecycle.Protocol.{IsApart}

-- For one plugin the key of a stage tells the stage.
pub stage_key_for-injective :
    (st st' : StageName) (id : Text)
    → stage_key_for (stages st) id ≡ stage_key_for (stages st') id
    → st ≡ st'
unfolding stage_key_for queue_ns_key queue_relay_node_key queue_device_key queue_retry_key
    queue_awaiting_task
stage_key_for-injective st st' id e = ground arith

pub stage_for_status-retry :
    (s : DeliveryStatus) (p : DeliveryPlugin)
    → stage_for_status s p.delivery_pattern ≡ some retry
    → s ≡ to_retry
unfolding stage_for_status
stage_for_status-retry s p e = ground arith

-- A status whose stage has this key.
pub record InStage (p : DeliveryPlugin) (o : Option DeliveryStatus) (q : Text) : Type 0 where
  pub status : DeliveryStatus
  pub stage : StageName
  pub has_status : o ≡ some status
  pub has_stage : stage_for_status status p.delivery_pattern ≡ some stage
  pub key : stage_key_for (stages stage) p.id ≡ q

-- Queued, in the ready queue that the plugin names.
pub record InReady (p : DeliveryPlugin) (network : Option ℕ) (o : Option DeliveryStatus) (q : Text)
    : Type 0 where
  pub target : Device
  pub is_queued : o ≡ some queued
  pub key : p.initial_queue_key network target ≡ q

stage_cases :
    (p : DeliveryPlugin) (s : DeliveryStatus) (q : Text) (o : Option StageName)
    → stage_for_status s p.delivery_pattern ≡ o
    → stage_queue p o ≡ some q
    → InStage p (some s) q
stage_cases p s q none f e = cc
stage_cases p s q (some st) f e = record {
  status = s;
  stage = st;
  has_status = refl;
  has_stage = f;
  key = some_inj e;
}

ready_cases :
    (p : DeliveryPlugin) (network : Option ℕ) (d : Option Device) (q : Text)
    → ready_queue p network d ≡ some q
    → InReady p network (some queued) q
ready_cases p network none q e = cc
ready_cases p network (some d) q e = record { target = d; is_queued = refl; key = some_inj e }

home_cases :
    (p : DeliveryPlugin) (network : Option ℕ) (d : Option Device) (o : Option DeliveryStatus)
    (q : Text)
    → home_of p network d o ≡ some q
    → InReady p network o q ⊎ InStage p o q
home_cases p network d none q e = cc
home_cases p network d (some queued) q e = inl (ready_cases p network d q e)
home_cases p network d (some to_retry) q e = inr (stage_cases p to_retry q _ refl e)
home_cases p network d (some sent_to_ns) q e = inr (stage_cases p sent_to_ns q _ refl e)
home_cases p network d (some delivered_to_ns) q e = inr (stage_cases p delivered_to_ns q _ refl e)
home_cases p network d (some sent_to_device) q e = inr (stage_cases p sent_to_device q _ refl e)
home_cases p network d (some delivery_successful) q e =
    inr (stage_cases p delivery_successful q _ refl e)
home_cases p network d (some delivery_failed) q e = inr (stage_cases p delivery_failed q _ refl e)

registered :
    (reg : Registry) (o : Option Text) (h : MessageHash) (p : DeliveryPlugin)
    → h.plugin_id ≡ o
    → owner reg h ≡ some p
    → (id : Text) × (reg id ≡ some (delivery p))
registered reg none h p f e = absurd (ground arith)
registered reg (some id) h p f e = (id, entry (reg id) refl)
  where
    named : as_delivery (reg id) ≡ some p
    named = rw (← e, f) refl

    entry : (o : Option DeviceMessagingPlugin) → reg id ≡ o → reg id ≡ some (delivery p)
    entry none g = absurd (ground (arith, named))
    entry (some (token_only i)) g = absurd (ground (arith, named))
    entry (some (delivery d)) g = ground (arith, named)

module _ (reg : Registry) (apart : IsApart reg) (s : Keyspace) (a : AtHome reg s) (id q : Text)
    (h : MessageHash) (p : DeliveryPlugin) (score : ℤ) (found : s.hash (message_key id) ≡ some h)
    (own : owner reg h ≡ some p) (placed : s.zset q id ≡ some score) where
  cases : InReady p h.network_id h.delivery_status q ⊎ InStage p h.delivery_status q
  cases =
      home_cases p h.network_id h.device h.delivery_status q
        (a.member id q h p score found own placed)

  -- A message outside the stages is queued.
  pub outside-queued : (IsStageKey q → ⊥) → h.delivery_status ≡ some queued
  outside-queued apart_from = elim cases [
    | inl ready ↦ ready.is_queued
    | inr staged ↦ absurd (apart_from (staged.stage, p.id, sym staged.key))
  ]

  -- A message in a stage has a status of that stage.
  pub inside-InStage : IsStageKey q → InStage p h.delivery_status q
  inside-InStage (st, k, e) = elim cases [
    | inl ready ↦
        let (pid, f) = registered reg h.plugin_id h p refl own in
        absurd (apart pid p h.network_id ready.target st k f (ready.key ∙ e))
    | inr staged ↦ staged
  ]

-- A ready queue that is named by the plugins' shared helper is no stage.
pub build_initial_queue_key_apart :
    (plugin_id kind id : Text) (st : StageName) (k : Text)
    → build_initial_queue_key plugin_id kind id ≢ stage_key_for (stages st) k
unfolding build_initial_queue_key stage_key_for queue_ns_key queue_relay_node_key queue_device_key
    queue_retry_key queue_awaiting_task
build_initial_queue_key_apart plugin_id kind id st k e = ground arith
