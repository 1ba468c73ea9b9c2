-- ===== src/CalinApiV2/Status.antt =====
-- src/plugins/calin-api-v2/incoming.ts: what the answer to the poll of a task makes of its message.
-- `render` is the data of a response as the service passes it on.
use nxt_device_messaging.Common.{
  ℕ, Text, txt, is_text, ◌≡◌, ◌↔◌, refl, Bool, true, false, Bool-cases, inl, inr, Option, none,
  some, [], ◌++◌, ◌==◌, if◌then◌else◌,
}
use nxt_device_messaging.Message.{
  execution_success, execution_failure, MessageResponse, delivery_successful, delivery_failed,
  DeviceMessage, FailureContext, ParsedIncomingEvent,
}
use nxt_device_messaging.CalinApiV1.{TaskType, task_type}
use nxt_device_messaging.CalinApiV2.{
  TaskStatus, outside, whole, TaskDataRow, TaskDataResponse, TaskContent, task_data_path, trim,
  parse_task_data,
}

-- What the request gives: a body, or an error with its message.
pub data Polled (N : Type 0) : Type 0 where
  got : TaskDataResponse N → Polled N
  failed : Text → Polled N

module _ {N : Type 0} (number : Text → Option N) (show : N → Text) (is_space : ℕ → Bool)
    (render : TaskContent N → Text) (message : DeviceMessage) where
  abbrev pub failure : Text → Bool → FailureContext
  failure reason skip_retry = record {
    reason = reason;
    error_code = none;
    details = none;
    skip_retry = skip_retry;
  }

  abbrev pub delivery_lost : Text → ParsedIncomingEvent
  delivery_lost reason = record {
    command_type = some message.command_type;
    delivery_queue_id = some message.delivery_queue_id;
    delivery_status = delivery_failed;
    device = message.device;
    response = none;
    unsolicited = false;
    failure_context = some (failure reason false);
  }

  abbrev pub delivery_made : MessageResponse → Option FailureContext → ParsedIncomingEvent
  delivery_made response c = record {
    command_type = some message.command_type;
    delivery_queue_id = some message.delivery_queue_id;
    delivery_status = delivery_successful;
    device = message.device;
    response = some response;
    unsolicited = false;
    failure_context = c;
  }

  abbrev pub reason_or : Option Text → Text → Text
  reason_or none t = t
  reason_or (some reason) t = reason

  abbrev pub rendered_content : Option (TaskContent N) → Option Text
  rendered_content none = none
  rendered_content (some content) = some (render content)

  -- A missing reason is the empty text.
  abbrev pub execution_reason : Option Text → Text
  execution_reason none = []
  execution_reason (some reason) =
      if is_text (txt "success") reason
      then txt "Delivery was successful but execution of the command failed"
      else reason

  abbrev pub failed_reason : ℕ → Option Text → Text
  failed_reason status reason =
      if status == 3
      then txt "The token was rejected, possibly already delivered"
      else execution_reason reason

  -- By the status; none is another poll.
  abbrev pub on_status :
      TaskType → TaskDataResponse N → TaskDataRow N → TaskStatus → Option ParsedIncomingEvent
  on_status task response row outside = none
  on_status task response row (whole status) =
      if status == 0
      then none
      else if status == 1
      then some (
          delivery_made
            (record {
              status = execution_success;
              content =
                  rendered_content
                    (parse_task_data number show is_space (trim is_space row.name) row.value task);
            })
            none)
      else some (
          delivery_made (record { status = execution_failure; content = none })
            (some (failure (failed_reason status response.reason) (status == 3))))

  abbrev pub on_row :
      TaskType → TaskDataResponse N → Option (TaskDataRow N) → Option ParsedIncomingEvent
  on_row task response none = some (
      delivery_lost
        (reason_or response.reason (txt "CALIN API-V2 gave no status or data for this task")))
  on_row task response (some row) = on_status task response row row.status

  abbrev pub on_polled : TaskType → Polled N → Option ParsedIncomingEvent
  on_polled task (got response) = on_row task response response.row
  on_polled task (failed error_message) =
      some (delivery_lost (txt "Could not check task status because " ++ error_message))

  -- `send` is the request to a path.
  abbrev pub poll_task : Option TaskType → (Text → Polled N) → Option ParsedIncomingEvent
  poll_task none send = none
  poll_task (some task) send = on_polled task (send (task_data_path task))

  unfoldable pub fetch_status : (Text → Polled N) → Option ParsedIncomingEvent
  fetch_status send = poll_task (task_type message.command_type) send

  -- The task is still open.
  abbrev pub is_open : TaskStatus → Bool
  is_open outside = true
  is_open (whole status) = status == 0

  abbrev pub row_is_open : Option (TaskDataRow N) → Bool
  row_is_open none = false
  row_is_open (some row) = is_open row.status

  abbrev pub polled_is_open : Polled N → Bool
  polled_is_open (got response) = row_is_open response.row
  polled_is_open (failed error_message) = false

  abbrev pub polls_on : Option TaskType → (Text → Polled N) → Bool
  polls_on none send = true
  polls_on (some task) send = polled_is_open (send (task_data_path task))

  on_status-none :
      (task : TaskType) (response : TaskDataResponse N) (row : TaskDataRow N) (status : TaskStatus)
      → (on_status task response row status ≡ none) ↔ (is_open status ≡ true)
  on_status-none task response row outside = ((λ e. refl), (λ e. refl))
  on_status-none task response row (whole status) = elim (Bool-cases (status == 0)) [
    | inl e ↦ rw e ((λ f. refl), (λ f. refl))
    | inr e ↦ elim (Bool-cases (status == 1)) [
      | inl f ↦ rw (e, f) ((λ g. cc), (λ g. cc))
      | inr f ↦ rw (e, f) ((λ g. cc), (λ g. cc))
    ]
  ]

  on_row-none :
      (task : TaskType) (response : TaskDataResponse N) (o : Option (TaskDataRow N))
      → (on_row task response o ≡ none) ↔ (row_is_open o ≡ true)
  on_row-none task response none = ((λ e. cc), (λ e. cc))
  on_row-none task response (some row) = on_status-none task response row row.status

  on_polled-none :
      (task : TaskType) (polled : Polled N)
      → (on_polled task polled ≡ none) ↔ (polled_is_open polled ≡ true)
  on_polled-none task (got response) = on_row-none task response response.row
  on_polled-none task (failed error_message) = ((λ e. cc), (λ e. cc))

  poll_task-none :
      (o : Option TaskType) (send : Text → Polled N)
      → (poll_task o send ≡ none) ↔ (polls_on o send ≡ true)
  poll_task-none none send = ((λ e. refl), (λ e. refl))
  poll_task-none (some task) send = on_polled-none task (send (task_data_path task))

  -- A poll gives no event exactly when the command is no task, or the vendor's row says that the task
  -- is still open: a request that fails, or an answer with no row, always gives an event.
  pub fetch_status_open_iff :
      (send : Text → Polled N)
      → (fetch_status send ≡ none) ↔ (polls_on (task_type message.command_type) send ≡ true)
  unfolding fetch_status
  fetch_status_open_iff send = poll_task-none (task_type message.command_type) send
