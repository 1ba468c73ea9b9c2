-- ===== src/Engine/Actions.antt =====
-- src/engine/lifecycle/actions.ts: what a stage does with a member that is due. What the process and
-- the vendor answer (sends in flight, the remote status, a poll) enters as `Surroundings`.
use nxt_device_messaging.Common.{
  ℕ, Text, txt, ◌++◌, Bool, true, false, Option, none, some, [], ◌∷◌, leb,
}
use nxt_device_messaging.Message.{
  DeliveryStatus, queued, to_retry, sent_to_ns, delivered_to_ns, sent_to_device,
  delivery_successful, delivery_failed, DeviceMessage, ParsedIncomingEvent, FailureContext,
}
use nxt_device_messaging.Plugin.{DeliveryPlugin, DeliveryConfig, PipelinePattern, push, pull}
use nxt_device_messaging.Redis.{Redis}
use nxt_device_messaging.Lifecycle.Stages.{
  StageName, ns, relay_node, device, awaiting_task, retry, queue_ns_key, queue_retry_key,
  pull_max_message_age_ms,
}
use nxt_device_messaging.Lifecycle.Moves.{requeue}
use nxt_device_messaging.Engine.{
  StageOutcome, moved_on, rescheduled, orphaned, message_event, Call, World, emit_delivery_event,
  purge_notified, retry_or_fail,
}
use nxt_device_messaging.Engine.Incoming.{process_event}

-- `getRemoteStatus`: the plugin has none, it throws, or it answers.
pub data RemoteStatus : Type 0 where
  not_offered call_failed : RemoteStatus
  reported : DeliveryStatus → RemoteStatus

-- `fetchStatus`: the plugin has none, it throws, or it answers with an event or nothing.
pub data Poll : Type 0 where
  no_poll poll_failed : Poll
  answered : Option ParsedIncomingEvent → Poll

pub record Surroundings : Type 0 where
  pub in_flight : Text → Bool
  pub remote_status : DeviceMessage → RemoteStatus
  pub fetch_status : DeviceMessage → Poll
  pub decode_time : Text → ℕ
  pub call : Text → Call

abbrev timeout : Text → FailureContext
timeout reason = record { reason = reason; error_code = none; details = none; skip_retry = false }

abbrev or_relay_node : Option Text → Text
or_relay_node none = txt "relay node"
or_relay_node (some noun) = noun

abbrev pub ns_reason : Text
ns_reason = txt "Timed out waiting for Network Server to accept message"

abbrev pub relay_node_reason : Option Text → Text
relay_node_reason noun =
    txt "Timed out waiting for " ++ (or_relay_node noun ++ txt " to transmit message to device")

abbrev pub device_reason : Text
device_reason = txt "Timed out waiting for device response after transmission"

abbrev pub awaiting_task_reason : Text
awaiting_task_reason = txt "Timed out waiting for remote task completion"

-- The message that is given up at the age cap.
abbrev pub expired_message : Text → DeviceMessage → DeviceMessage
expired_message timestamp message = record message {
  delivery_status = delivery_failed;
  failure_history =
      record {
        reason = awaiting_task_reason;
        error_code = none;
        details = none;
        status = delivered_to_ns;
        timestamp = timestamp;
        is_final = true;
      }
      ∷ message.failure_history;
}

-- Still with the network server: the status is known and is not a failure.
abbrev pub is_waiting : PipelinePattern → RemoteStatus → Bool
is_waiting pull status = false
is_waiting push not_offered = false
is_waiting push call_failed = false
is_waiting push (reported delivery_failed) = false
is_waiting push (reported queued) = true
is_waiting push (reported to_retry) = true
is_waiting push (reported sent_to_ns) = true
is_waiting push (reported delivered_to_ns) = true
is_waiting push (reported sent_to_device) = true
is_waiting push (reported delivery_successful) = true

module _ (R : Redis) (config : DeliveryConfig) where
  abbrev pub fail_at_age :
      Call → DeviceMessage → DeliveryPlugin → World R → Option StageOutcome × World R
  fail_at_age c message plugin w =
      purge_notified R config (expired_message c.timestamp message) plugin w
        (emit_delivery_event R c.webhook (message_event (expired_message c.timestamp message)) w)

  -- A member with no delivery queue id is not polled; a failed poll is a throw.
  abbrev pub polled :
      Call
      → PipelinePattern
      → Text
      → Poll
      → DeliveryPlugin
      → World R
      → Option StageOutcome × World R
  polled c push delivery_queue_id poll plugin w = (some rescheduled, w)
  polled c pull delivery_queue_id no_poll plugin w = (some rescheduled, w)
  polled c pull [] (answered event) plugin w = (some rescheduled, w)
  polled c pull [] poll_failed plugin w = (some rescheduled, w)
  polled c pull (x ∷ xs) poll_failed plugin w = (none, w)
  polled c pull (x ∷ xs) (answered none) plugin w = (some rescheduled, w)
  polled c pull (x ∷ xs) (answered (some event)) plugin w = process_event R config c event plugin w

  abbrev pub outcome_of_requeue : World R → Bool × R.Db → Option StageOutcome × World R
  outcome_of_requeue w (true, after) = (some moved_on, record w { db = after })
  outcome_of_requeue w (false, after) = (some orphaned, record w { db = after })

  -- The action of each stage, on a member of `queue_key` of this age.
  unfoldable pub act_in :
      Surroundings
      → StageName
      → Text
      → DeviceMessage
      → DeliveryPlugin
      → ℕ
      → World R
      → Option StageOutcome × World R
  act_in env ns queue_key message plugin age w = elim (env.in_flight message.id) [
    | true ↦ (some rescheduled, w)
    | false ↦
        retry_or_fail R config (env.call message.id) message.id queue_ns_key (timeout ns_reason)
          plugin w
  ]
  act_in env relay_node queue_key message plugin age w =
      elim (is_waiting plugin.delivery_pattern (env.remote_status message)) [
        | true ↦ (some rescheduled, w)
        | false ↦
            retry_or_fail R config (env.call message.id) message.id queue_key
              (timeout (relay_node_reason plugin.relay_node_noun)) plugin w
      ]
  act_in env device queue_key message plugin age w =
      retry_or_fail R config (env.call message.id) message.id queue_key (timeout device_reason)
        plugin w
  act_in env awaiting_task queue_key message plugin age w = elim (leb pull_max_message_age_ms age) [
    | true ↦ fail_at_age (env.call message.id) message plugin w
    | false ↦
        polled (env.call message.id) plugin.delivery_pattern message.delivery_queue_id
          (env.fetch_status message) plugin w
  ]
  act_in env retry queue_key message plugin age w = outcome_of_requeue w (
      requeue R config message.id queue_retry_key
        (plugin.initial_queue_key message.network_id message.device) message.priority w.db)
