-- ===== src/Engine/InFlight/Awaited.antt =====
-- The deadline of the ns stage (src/engine/lifecycle/runner.ts and actions.ts) with the sends in flight.
use nxt_device_messaging.Common.{
  ℕ, ◌+◌, Text, text_discrete, ℤ, pos, ◌≡◌, ◌≢◌, refl, sym, ◌∙◌, subst, none, some, List, [], ◌∷◌,
  arith,
}
use nxt_device_messaging.Message.{DeviceMessage}
use nxt_device_messaging.Plugin.{DeliveryPlugin, DeliveryConfig, delivery}
use nxt_device_messaging.Redis.{MessageHash, Keyspace, Redis, zadd_xx, apply}
use nxt_device_messaging.Redis.Keys.{message_key}
use nxt_device_messaging.Redis.MessageStore.{get_message_by_id, deserialize_message}
use nxt_device_messaging.Redis.MessageStore.Fields.{deserialize_message-ReadFrom}
use nxt_device_messaging.Lifecycle.Stages.{
  ns, StageQueue, stage_key_for, reschedule_wait_ms_for, queue_ns_key,
}
use nxt_device_messaging.Lifecycle.Home.{Registry}
use nxt_device_messaging.Lifecycle.Moves.{reschedule}
use nxt_device_messaging.Engine.{rescheduled, World}
use nxt_device_messaging.Engine.Actions.{Surroundings, act_in}
use nxt_device_messaging.Engine.Runner.{drain_ids}
use nxt_device_messaging.Engine.InFlight.{SendEvent, sends_after, has, Outstanding, has_iff}

act_in-Outstanding :
    (R : Redis) (config : DeliveryConfig) (env : Surroundings) (history : List SendEvent)
    (promise : ℕ) (queue_key : Text) (message : DeviceMessage) (plugin : DeliveryPlugin) (age : ℕ)
    (w : World R)
    → ((id : Text) → env.in_flight id ≡ has id (sends_after history))
    → Outstanding message.id promise history
    → act_in R config env ns queue_key message plugin age w ≡ (some rescheduled, w)
unfolding act_in
act_in-Outstanding R config env history promise queue_key message plugin age w same o =
    rw (act_in, same message.id ∙ (has_iff history message.id).1 (promise, o)) refl

abbrev pub ns_queue : StageQueue
ns_queue = record { stage = ns; key = queue_ns_key; plugin_id = none }

-- Nothing but the deadline of the message in the ns queue has changed.
pub record OnlyDeadline (id : Text) (deadline : ℕ) (s s' : Keyspace) : Type 0 where
  pub hashes : s'.hash ≡ s.hash
  pub strings : s'.string ≡ s.string
  pub sets : s'.set ≡ s.set
  pub lives : s'.ttl ≡ s.ttl
  pub own : s'.zset queue_ns_key id ≡ some (pos deadline)
  pub others : (queue i : Text) → (queue ≡ queue_ns_key → i ≢ id) → s'.zset queue i ≡ s.zset queue i

zadd_xx-OnlyDeadline :
    (id : Text) (deadline : ℕ) (score : ℤ) (s : Keyspace)
    → s.zset queue_ns_key id ≡ some score
    → OnlyDeadline id deadline s (apply (zadd_xx queue_ns_key (pos deadline) id) s)
zadd_xx-OnlyDeadline id deadline score s placed = record {
  hashes = refl;
  strings = refl;
  sets = refl;
  lives = refl;
  own = rw placed (ground arith);
  others = λ queue i other. elim (text_discrete queue queue_ns_key) [
    | yes e ↦ elim (text_discrete i id) [ yes f ↦ absurd (other e f) | no ne ↦ ground arith ]
    | no ne ↦ ground arith
  ];
}

-- A due member of the ns queue whose hash reads as a message of a registered delivery plugin, in a process
-- whose sends in flight are those of its history, one of them an outstanding send of that message: its
-- turn in the drain stores no event, and changes in the database only
-- the deadline of the member, which is put to the time of the ns stage from now on.
pub drain_ids-Outstanding :
    (R : Redis) (config : DeliveryConfig) (reg : Registry) (env : Surroundings)
    (history : List SendEvent) (promise now : ℕ) (id : Text) (h : MessageHash) (m : DeviceMessage)
    (plugin : DeliveryPlugin) (score : ℤ) (w : World R)
    → ((i : Text) → env.in_flight i ≡ has i (sends_after history))
    → Outstanding id promise history
    → (R.view w.db).hash (message_key id) ≡ some h
    → deserialize_message id h ≡ some m
    → reg m.plugin_id ≡ some (delivery plugin)
    → (R.view w.db).zset queue_ns_key id ≡ some score
    → ((drain_ids R config reg env ns_queue now (id ∷ []) w).events ≡ w.events)
      × OnlyDeadline id
          ((env.call id).instant.now + plugin.tuning.ns_in_flight_timeout_ms)
          (R.view w.db)
          (R.view (drain_ids R config reg env ns_queue now (id ∷ []) w).db)
unfolding drain_ids get_message_by_id reschedule stage_key_for reschedule_wait_ms_for
drain_ids-Outstanding R config reg env history promise now id h m plugin score w same o there read
      owned placed =
    let same_id = (deserialize_message-ReadFrom id h m read).id_eq in
    let due = (env.call id).instant.now + plugin.tuning.ns_in_flight_timeout_ms in
    let out = subst (λ (i : Text). Outstanding i promise history) (sym same_id) o in
    rw
      (
        there,
        read,
        owned,
        act_in-Outstanding R config env history promise queue_ns_key m plugin _ w same out,
      )
      (
        refl,
        subst (λ (s : Keyspace). OnlyDeadline id due (R.view w.db) s) (sym (R.view-call _ w.db))
            (subst
              (λ (i : Text).
                OnlyDeadline id due (R.view w.db)
                  (apply (zadd_xx queue_ns_key (pos due) i) (R.view w.db)))
              (sym same_id) (zadd_xx-OnlyDeadline id due score (R.view w.db) placed)),
      )
