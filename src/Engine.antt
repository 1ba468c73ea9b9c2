-- ===== src/Engine.antt =====
-- src/engine/base.ts: retry, permanent failure, and the events for the adopter. What the webhook
-- stores goes to keys of its own, so an event that it has stored is kept beside the database.
pub mod Incoming
pub mod Outcomes
pub mod Shown
pub mod Notify
pub mod Actions
pub mod Runner
pub mod Outgoing
pub mod InFlight
pub mod System
use nxt_device_messaging.Common.{Text, Bool, true, false, ◌||◌, Option, none, some, List, ◌∷◌, leb}
use nxt_device_messaging.Message.{
  DeviceMessage, ParsedIncomingEvent, FailureContext, FailureReason, delivery_failed,
}
use nxt_device_messaging.Plugin.{DeliveryPlugin, DeliveryConfig}
use nxt_device_messaging.Redis.{Redis}
use nxt_device_messaging.Redis.MessageStore.{
  Lookup, missing, malformed, found, truthy, get_message_by_id,
}
use nxt_device_messaging.Lifecycle.Moves.{Instant, enter_retry, purge}

pub data StageOutcome : Type 0 where
  removed moved_on rescheduled orphaned : StageOutcome

-- An unsolicited event carries the plugin's id and, of the parsed event, the command type, the status,
-- the device and the response.
pub data DeliveryEvent : Type 0 where
  message_event : DeviceMessage → DeliveryEvent
  unsolicited_event : Text → ParsedIncomingEvent → DeliveryEvent

-- No webhook in the configuration, one that stores the event, or one whose store throws.
pub data Webhook : Type 0 where
  unwired storing failing : Webhook

-- What one call finds outside the database.
pub record Call : Type 0 where
  pub instant : Instant
  pub timestamp : Text
  pub webhook : Webhook

-- The events stand newest first.
pub record World (R : Redis) : Type 0 where
  pub db : R.Db
  pub events : List DeliveryEvent

abbrev pub is_final_failure : DeliveryConfig → FailureContext → DeviceMessage → Bool
is_final_failure config context message =
    context.skip_retry || leb config.max_retries message.retry_count

abbrev pub new_failure_history : Bool → Text → FailureContext → DeviceMessage → List FailureReason
new_failure_history is_final timestamp context message =
    record {
      reason = context.reason;
      error_code = context.error_code;
      details = truthy context.details;
      status = message.delivery_status;
      timestamp = timestamp;
      is_final = is_final;
    }
    ∷ message.failure_history

-- The message as the event for a final failure shows it.
abbrev pub failed_message : Text → FailureContext → DeviceMessage → DeviceMessage
failed_message timestamp context message = record message {
  failure_history = new_failure_history true timestamp context message;
  delivery_status = delivery_failed;
}

module _ (R : Redis) where
  -- None is the throw of a store that failed.
  abbrev pub emit_delivery_event : Webhook → DeliveryEvent → World R → Option (World R)
  emit_delivery_event unwired event w = some w
  emit_delivery_event storing event w = some (record w { events = event ∷ w.events })
  emit_delivery_event failing event w = none

module _ (R : Redis) (config : DeliveryConfig) where
  -- The purge after the event; no purge after a throw.
  abbrev pub purge_notified :
      DeviceMessage → DeliveryPlugin → World R → Option (World R) → Option StageOutcome × World R
  purge_notified message plugin w none = (none, w)
  purge_notified message plugin w (some notified) =
      (some removed, record notified { db = purge R config message plugin notified.db })

  abbrev pub outcome_of_entry : World R → Bool × R.Db → Option StageOutcome × World R
  outcome_of_entry w (true, after) = (some moved_on, record w { db = after })
  outcome_of_entry w (false, after) = (some orphaned, record w { db = after })

  module _ (c : Call) (current_queue_key : Text) (context : FailureContext)
      (plugin : DeliveryPlugin) where
    abbrev pub fail_permanently : DeviceMessage → World R → Option StageOutcome × World R
    fail_permanently message w = purge_notified message plugin w (
        emit_delivery_event R c.webhook (message_event (failed_message c.timestamp context message))
          w)

    abbrev pub retry : Text → DeviceMessage → World R → Option StageOutcome × World R
    retry id message w = outcome_of_entry w (
        enter_retry R config c.instant
          (record {
            message_id = id;
            from_key = current_queue_key;
            current_retry_count = message.retry_count;
            failure_history = new_failure_history false c.timestamp context message;
            plugin = plugin;
          })
          w.db)

    abbrev pub settle : Bool → Text → DeviceMessage → World R → Option StageOutcome × World R
    settle true id message w = fail_permanently message w
    settle false id message w = retry id message w

    unfoldable pub retry_or_fail_found : Text → Lookup → World R → Option StageOutcome × World R
    retry_or_fail_found id missing w = (some orphaned, w)
    retry_or_fail_found id malformed w = (none, w)
    retry_or_fail_found id (found message) w =
        settle (is_final_failure config context message) id message w

  -- None is a throw: a hash that does not read, or an event that was not stored.
  unfoldable pub retry_or_fail :
      Call → Text → Text → FailureContext → DeliveryPlugin → World R → Option StageOutcome × World R
  unfolding retry_or_fail_found
  retry_or_fail c id current_queue_key context plugin w =
      retry_or_fail_found c current_queue_key context plugin id (get_message_by_id R id w.db) w
