-- ===== src/Engine/Shown.antt =====
-- What the adopter is shown of a message at its end (src/engine/base.ts and src/engine/incoming.ts).
use nxt_device_messaging.Common.{Text, ◌≡◌, refl, Option, none, some, List, ◌∷◌, true}
use nxt_device_messaging.Message.{
  DeviceMessage, ParsedIncomingEvent, FailureContext, FailureReason, delivery_successful,
  delivery_failed,
}
use nxt_device_messaging.Redis.MessageStore.{truthy}
use nxt_device_messaging.Engine.Incoming.{updated_message, with_execution_failure}

-- What a message keeps on its last event, whatever that shows of its status, response and device.
pub record SameCommand (m shown : DeviceMessage) : Type 0 where
  pub id : shown.id ≡ m.id
  pub command_type : shown.command_type ≡ m.command_type
  pub priority : shown.priority ≡ m.priority
  pub plugin_id : shown.plugin_id ≡ m.plugin_id
  pub request_data : shown.request_data ≡ m.request_data
  pub phase : shown.phase ≡ m.phase
  pub network_id : shown.network_id ≡ m.network_id
  pub correlation_id : shown.correlation_id ≡ m.correlation_id
  pub delivery_queue_id : shown.delivery_queue_id ≡ m.delivery_queue_id
  pub retry_count : shown.retry_count ≡ m.retry_count

-- The message as the adopter sees it fail: the newest entry of its history stands first.
pub record FailedFinally (timestamp : Text) (context : FailureContext) (m shown : DeviceMessage)
    : Type 0 where
  pub status : shown.delivery_status ≡ delivery_failed
  pub history :
      shown.failure_history
      ≡ record {
        reason = context.reason;
        error_code = context.error_code;
        details = truthy context.details;
        status = m.delivery_status;
        timestamp = timestamp;
        is_final = true;
      }
        ∷ m.failure_history
  pub response : shown.response ≡ m.response
  pub device : shown.device ≡ m.device
  pub same : SameCommand m shown

-- The entry that an event of a success adds to the history of its message, if it carries a failure.
abbrev pub ShowsFailure :
    Text → Option FailureContext → List FailureReason → List FailureReason → Type 0
ShowsFailure timestamp none before after = after ≡ before
ShowsFailure timestamp (some context) before after =
    after
    ≡ record {
      reason = context.reason;
      error_code = context.error_code;
      details = truthy context.details;
      status = delivery_successful;
      timestamp = timestamp;
      is_final = true;
    }
      ∷ before

-- The message as the adopter sees it succeed.
pub record Succeeded (timestamp : Text) (event : ParsedIncomingEvent) (m shown : DeviceMessage)
    : Type 0 where
  pub status : shown.delivery_status ≡ delivery_successful
  pub response : shown.response ≡ event.response
  pub device : shown.device ≡ event.device
  pub history : ShowsFailure timestamp event.failure_context m.failure_history shown.failure_history
  pub same : SameCommand m shown

pub updated-Succeeded :
    (timestamp : Text) (event : ParsedIncomingEvent) (m : DeviceMessage)
    → event.delivery_status ≡ delivery_successful
    → Succeeded timestamp event m (updated_message timestamp event m)
updated-Succeeded timestamp event m success = record {
  status = success;
  response = refl;
  device = refl;
  history = shows event.failure_context;
  same = record {
    id = refl;
    command_type = refl;
    priority = refl;
    plugin_id = refl;
    request_data = refl;
    phase = refl;
    network_id = refl;
    correlation_id = refl;
    delivery_queue_id = refl;
    retry_count = refl;
  };
}
  where
    shows :
        (o : Option FailureContext)
        → ShowsFailure timestamp o m.failure_history
            (with_execution_failure timestamp event.delivery_status o m.failure_history)
    shows none = refl
    shows (some context) = rw success refl
