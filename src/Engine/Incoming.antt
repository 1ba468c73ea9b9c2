-- ===== src/Engine/Incoming.antt =====
-- src/engine/incoming.ts: one parsed event, applied to the message that it refers to. A PUSH ingress
-- that the plugin ignores changes nothing and is left out.
use nxt_device_messaging.Common.{Text, txt, Bool, true, false, Option, none, some, List, [], ◌∷◌}
use nxt_device_messaging.Message.{
  DeliveryStatus, queued, to_retry, sent_to_ns, delivered_to_ns, sent_to_device,
  delivery_successful, delivery_failed, DeviceMessage, ParsedIncomingEvent, FailureContext,
  FailureReason,
}
use nxt_device_messaging.Plugin.{DeliveryPlugin, DeliveryConfig, PipelinePattern, push, pull}
use nxt_device_messaging.Redis.{Redis}
use nxt_device_messaging.Redis.MessageStore.{
  Lookup, missing, malformed, found, truthy, get_message_by_id,
  get_message_id_from_delivery_queue_id,
}
use nxt_device_messaging.Lifecycle.Stages.{
  StageName, relay_node, stages, stage_for_status, stage_key_for,
}
use nxt_device_messaging.Lifecycle.Moves.{advance}
use nxt_device_messaging.Engine.{
  StageOutcome, moved_on, rescheduled, orphaned, message_event, unsolicited_event, Call, World,
  emit_delivery_event, purge_notified, retry_or_fail,
}

abbrev pub default_failure_context : FailureContext
default_failure_context = record {
  reason = txt "Unable to deliver message after negative remote response";
  error_code = none;
  details = none;
  skip_retry = false;
}

abbrev pub or_default : Option FailureContext → FailureContext
or_default none = default_failure_context
or_default (some context) = context

-- A success can carry a failed execution: its entry goes before the history.
abbrev pub with_execution_failure :
    Text → DeliveryStatus → Option FailureContext → List FailureReason → List FailureReason
with_execution_failure timestamp status none history = history
with_execution_failure timestamp status (some context) history =
    record {
      reason = context.reason;
      error_code = context.error_code;
      details = truthy context.details;
      status = status;
      timestamp = timestamp;
      is_final = true;
    }
    ∷ history

abbrev pub updated_message : Text → ParsedIncomingEvent → DeviceMessage → DeviceMessage
updated_message timestamp event stored = record stored {
  delivery_status = event.delivery_status;
  response = event.response;
  device = event.device;
  failure_history =
      with_execution_failure timestamp event.delivery_status event.failure_context
        stored.failure_history;
}

-- What is done with an event of this status, for a plugin of this pattern.
pub data Handling : Type 0 where
  hop negative positive unexpected : Handling

abbrev pub handling : DeliveryStatus → PipelinePattern → Handling
handling sent_to_device push = hop
handling sent_to_device pull = unexpected
handling delivery_failed pattern = negative
handling delivery_successful pattern = positive
handling queued pattern = unexpected
handling to_retry pattern = unexpected
handling sent_to_ns pattern = unexpected
handling delivered_to_ns pattern = unexpected

module _ (R : Redis) (config : DeliveryConfig) where
  module _ (c : Call) (event : ParsedIncomingEvent) (plugin : DeliveryPlugin) where
    abbrev pub emitted : World R → Option (World R) → Option StageOutcome × World R
    emitted w none = (none, w)
    emitted w (some notified) = (some rescheduled, notified)

    -- The answer of `advance` is not looked at; a throw of it cannot occur from this stage.
    abbrev pub hopped : World R → Option Bool × R.Db → Option StageOutcome × World R
    hopped w (none, after) = (none, record w { db = after })
    hopped w (some claimed, after) = (some moved_on, record w { db = after })

    abbrev pub advance_hop : Text → World R → Option StageOutcome × World R
    advance_hop id w = hopped w (
        advance R config c.instant
          (record {
            message_id = id;
            plugin = plugin;
            from = relay_node;
            delivery_queue_id = [];
            retry_count = 0;
          })
          w.db)

    abbrev pub fail_in_stage : Text → Option StageName → World R → Option StageOutcome × World R
    fail_in_stage id none w = (some orphaned, w)
    fail_in_stage id (some stage) w =
        retry_or_fail R config c id (stage_key_for (stages stage) plugin.id)
          (or_default event.failure_context) plugin w

    abbrev pub fail_stored : Text → Lookup → World R → Option StageOutcome × World R
    fail_stored id missing w = (some orphaned, w)
    fail_stored id malformed w = (none, w)
    fail_stored id (found stored) w =
        fail_in_stage id (stage_for_status stored.delivery_status plugin.delivery_pattern) w

    abbrev pub resolve_stored : Lookup → World R → Option StageOutcome × World R
    resolve_stored missing w = (some orphaned, w)
    resolve_stored malformed w = (none, w)
    resolve_stored (found stored) w = purge_notified R config stored plugin w (
        emit_delivery_event R c.webhook (message_event (updated_message c.timestamp event stored))
          w)

    unfoldable pub process_handling : Handling → Text → World R → Option StageOutcome × World R
    process_handling hop id w = advance_hop id w
    process_handling negative id w = fail_stored id (get_message_by_id R id w.db) w
    process_handling positive id w = resolve_stored (get_message_by_id R id w.db) w
    process_handling unexpected id w = (some rescheduled, w)

    unfoldable pub process_message : Option Text → World R → Option StageOutcome × World R
    unfolding process_handling
    process_message none w = (some orphaned, w)
    process_message (some id) w =
        process_handling (handling event.delivery_status plugin.delivery_pattern) id w

    unfoldable pub process_delivery : Option Text → World R → Option StageOutcome × World R
    unfolding process_message
    process_delivery none w = (some rescheduled, w)
    process_delivery (some delivery_queue_id) w =
        process_message (get_message_id_from_delivery_queue_id R delivery_queue_id w.db) w

    unfoldable pub process_solicited : Bool → World R → Option StageOutcome × World R
    unfolding process_delivery
    process_solicited true w =
        emitted w (emit_delivery_event R c.webhook (unsolicited_event plugin.id event) w)
    process_solicited false w = process_delivery (truthy event.delivery_queue_id) w

  unfoldable pub process_event :
      Call → ParsedIncomingEvent → DeliveryPlugin → World R → Option StageOutcome × World R
  unfolding process_solicited
  process_event c event plugin w = process_solicited c event plugin event.unsolicited w
