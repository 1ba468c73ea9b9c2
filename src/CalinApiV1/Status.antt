-- ===== src/CalinApiV1/Status.antt =====
-- src/plugins/calin-api-v1/incoming.ts: what the answer to the poll of a task makes of its message.
-- `render` is the data of a response as the service passes it on.
use nxt_device_messaging.Common.{
  is_text, ℕ, Text, txt, Bool, true, false, Option, none, some, [], ◌++◌, if◌then◌else◌,
}
use nxt_device_messaging.Message.{
  execution_failure, MessageResponse, delivery_successful, delivery_failed, DeviceMessage,
  FailureContext, ParsedIncomingEvent,
}
use nxt_device_messaging.CalinApiV1.{
  TaskType, task_type, task_path, CommResult, CommResponse, Sent, answered, failed,
  failed_with_text, failed_with_number, ResponseData, ParsedResponse, parse_response_data,
}

module _ {N : Type 0} (number : Text → Option N) (is_space : ℕ → Bool) where
  module _ (render : ResponseData N → Text) (message : DeviceMessage) where
    abbrev pub context : Text → Option Text → Bool → FailureContext
    context reason error_code skip_retry = record {
      reason = reason;
      error_code = error_code;
      details = none;
      skip_retry = skip_retry;
    }

    abbrev pub not_delivered : FailureContext → ParsedIncomingEvent
    not_delivered c = record {
      command_type = some message.command_type;
      delivery_queue_id = some message.delivery_queue_id;
      delivery_status = delivery_failed;
      device = message.device;
      response = none;
      unsolicited = false;
      failure_context = some c;
    }

    abbrev pub delivered : MessageResponse → Option FailureContext → ParsedIncomingEvent
    delivered response c = record {
      command_type = some message.command_type;
      delivery_queue_id = some message.delivery_queue_id;
      delivery_status = delivery_successful;
      device = message.device;
      response = some response;
      unsolicited = false;
      failure_context = c;
    }

    abbrev pub or_text : Option Text → Text → Text
    or_text none t = t
    or_text (some u) t = u

    -- A body with no result.
    abbrev pub without_result : CommResponse → ParsedIncomingEvent
    without_result response =
        if is_text (txt "99") response.result_code
        then not_delivered (
            context (txt "The token was rejected, possibly already delivered.") (some (txt "99"))
              true)
        else not_delivered (
            context
              (or_text response.reason (txt "CALIN API V1 gave no status or data for this task"))
              none false)

    -- A missing reason is the empty text.
    abbrev pub refusal_reason : Option Text → Text
    refusal_reason none = []
    refusal_reason (some reason) =
        if is_text (txt "OK") reason
        then txt "Delivery was successful but execution of the command failed"
        else reason

    abbrev pub not_executed : CommResponse → ParsedIncomingEvent
    not_executed response =
        delivered (record { status = execution_failure; content = none })
          (some (context (refusal_reason response.reason) none false))

    abbrev pub rendered : Option (ResponseData N) → Option Text
    rendered none = none
    rendered (some content) = some (render content)

    abbrev pub parsed_context : Option Text → Option FailureContext
    parsed_context none = none
    parsed_context (some reason) = some (context reason none false)

    abbrev pub executed : ParsedResponse N → ParsedIncomingEvent
    executed r =
        delivered (record { status = r.status; content = rendered r.content })
          (parsed_context r.failure_reason)

    -- By the status; none is another poll.
    abbrev pub by_status : CommResponse → CommResult → Option Text → Option ParsedIncomingEvent
    by_status response r none = none
    by_status response r (some status) =
        if is_text (txt "False") status
        then some (not_executed response)
        else if is_text (txt "True") status
        then some (executed (parse_response_data number is_space r message.phase))
        else none

    abbrev pub by_result : CommResponse → Option CommResult → Option ParsedIncomingEvent
    by_result response none = some (without_result response)
    by_result response (some r) = by_status response r r.status

    abbrev pub by_answer : Sent → Option ParsedIncomingEvent
    by_answer (answered response) = by_result response response.result
    by_answer (failed error_message) = none
    by_answer (failed_with_text error_message code) = none
    by_answer (failed_with_number error_message code) = some (
        not_delivered
          (context (txt "Could not check task status because " ++ error_message) (some code) false))

    -- `send` is the request to a path.
    abbrev pub for_task : Option TaskType → (Text → Sent) → Option ParsedIncomingEvent
    for_task none send = none
    for_task (some task) send = by_answer (send (task_path task))

    unfoldable pub fetch_status : (Text → Sent) → Option ParsedIncomingEvent
    fetch_status send = for_task (task_type message.command_type) send
