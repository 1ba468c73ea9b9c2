-- ===== src/Lifecycle/Moves/Transitions.antt =====
-- `advance`, `requeue`, `enterRetry`, `reschedule` and `claimFromQueue` keep every message at home
-- (src/engine/lifecycle/moves.ts).
use nxt_device_messaging.Common.{
  ℕ, Text, ℤ, ◌≡◌, refl, ◌∙◌, Bool, true, false, Option, some, Option-cases, inl, inr, [], ◌∷◌,
  arith,
}
use nxt_device_messaging.Message.{DeliveryStatus, Device, DeviceMessage}
use nxt_device_messaging.Plugin.{DeliveryPlugin, DeliveryConfig}
use nxt_device_messaging.Redis.{MessageHash, sadd, merge, Redis}
use nxt_device_messaging.Redis.Keys.{message_key, list_of_initial_queues}
use nxt_device_messaging.Redis.Scripts.{status_fields}
use nxt_device_messaging.Redis.Scripts.Move.{move-MoveOutcome}
use nxt_device_messaging.Redis.StageStore.{requeue_message, requeue_args, note_queue}
use nxt_device_messaging.Lifecycle.Stages.{
  StageName, ns, relay_node, device, awaiting_task, retry, stages, next_stage, stage_for_status,
  stage_key_for,
}
use nxt_device_messaging.Lifecycle.Stages.Table.{next_stage_forward}
use nxt_device_messaging.Lifecycle.Home.{Registry, home, home_of, ready_queue, OwnedBy, AtHome}
use nxt_device_messaging.Lifecycle.Moves.{
  Instant, AdvanceArgs, advance, advance_args, reschedule, claim_from_queue, requeue,
}
use nxt_device_messaging.Lifecycle.Moves.Invariant.{Shrunk-AtHome, MoveOutcome-AtHome}

-- The home of a hash that gets a new status is read off that status.
home-status_fields :
    (p : DeliveryPlugin) (status : DeliveryStatus) (dq : Text) (h : MessageHash)
    → home p (merge (status_fields status dq) h) ≡ home_of p h.network_id h.device (some status)
home-status_fields p status [] h = refl
home-status_fields p status (x ∷ xs) h = refl

home_of_stage :
    (p : DeliveryPlugin) (network : Option ℕ) (d : Option Device) (st : StageName)
    → stage_for_status (stages st).entry_status p.delivery_pattern ≡ some st
    → home_of p network d (some (stages st).entry_status) ≡ some (stage_key_for (stages st) p.id)
home_of_stage p network d ns e = rw e
home_of_stage p network d relay_node e = rw e
home_of_stage p network d device e = rw e
home_of_stage p network d awaiting_task e = rw e
home_of_stage p network d retry e = rw e

module _ (R : Redis) (reg : Registry) (config : DeliveryConfig) (db : R.Db) where
  open R use {view, view-call}

  pub advance-AtHome :
      (t : Instant) (a : AdvanceArgs)
      → OwnedBy reg (view db) a.message_id a.plugin
      → AtHome reg (view db)
      → AtHome reg (view (advance R config t a db).1)
  unfolding advance
  advance-AtHome t a owned h = elim (Option-cases (next_stage a.plugin.delivery_pattern a.from)) [
    | inl e ↦ rw (e, advance) h
    | inr (target, e) ↦
        rw (e, advance)
          (MoveOutcome-AtHome reg (advance_args config t a target) (view db) _ _ refl
            (λ g p f own.
              let same : p ≡ a.plugin = owned g p f own in
              rw same (
                home-status_fields a.plugin (stages target).entry_status a.delivery_queue_id g
                ∙ home_of_stage a.plugin g.network_id g.device target
                    (next_stage_forward a.plugin.delivery_pattern a.from target e).1))
            (move-MoveOutcome R (advance_args config t a target) db) h)
  ]

  -- Joining the work list touches neither queues nor hashes.
  note_queue-AtHome :
      (queue : Text) (answer : Bool) (after : R.Db)
      → AtHome reg (view after)
      → AtHome reg (view (note_queue R queue (answer, after)).1)
  note_queue-AtHome queue true after h =
      rw (view-call (sadd list_of_initial_queues queue) after)
        (Shrunk-AtHome reg (view after) _ (λ j g e. e) (λ q id score z. ground arith) h)
  note_queue-AtHome queue false after h = h

  pub requeue-AtHome :
      (id from_key to_key : Text) (priority : ℤ) (plugin : DeliveryPlugin)
      → OwnedBy reg (view db) id plugin
      → ((g : MessageHash)
          → (view db).hash (message_key id) ≡ some g
          → ready_queue plugin g.network_id g.device ≡ some to_key)
      → AtHome reg (view db)
      → AtHome reg (view (requeue R config id from_key to_key priority db).1)
  unfolding requeue requeue_message
  requeue-AtHome id from_key to_key priority plugin owned ready h =
      let a = requeue_args id from_key to_key priority in
      note_queue-AtHome to_key _ _ (
        MoveOutcome-AtHome reg a (view db) _ _ refl
          (λ g p f own. let same : p ≡ plugin = owned g p f own in rw same (ready g f))
          (move-MoveOutcome R a db) h)

  pub reschedule-AtHome :
      (t : Instant) (st : StageName) (m : DeviceMessage) (age : ℕ) (plugin : DeliveryPlugin)
      → AtHome reg (view db)
      → AtHome reg (view (reschedule R config t st m age plugin db))
  unfolding reschedule
  reschedule-AtHome t st m age plugin h =
      rw view-call (Shrunk-AtHome reg (view db) _ (λ j g e. e) (λ q id score z. ground arith) h)

  pub claim_from_queue-AtHome :
      (queue id : Text)
      → AtHome reg (view db)
      → AtHome reg (view (claim_from_queue R config queue id db).1)
  unfolding claim_from_queue
  claim_from_queue-AtHome queue id h =
      rw view-call (Shrunk-AtHome reg (view db) _ (λ j g e. e) (λ q i score z. ground arith) h)
