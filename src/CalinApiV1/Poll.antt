-- ===== src/CalinApiV1/Poll.antt =====
-- When src/plugins/calin-api-v1/incoming.ts polls a task again, and which failures end its message.
use nxt_device_messaging.Common.{
  is_text, ℕ, Text, txt, ◌≡◌, ◌↔◌, refl, Bool, true, false, Bool-cases, inl, inr, Option, none,
  some, ◌||◌,
}
use nxt_device_messaging.Message.{DeviceMessage}
use nxt_device_messaging.CalinApiV1.{
  TaskType, task_type, task_path, CommResult, CommResponse, Sent, answered, failed,
  failed_with_text, failed_with_number, ResponseData,
}
use nxt_device_messaging.CalinApiV1.Status.{fetch_status, for_task, by_answer, by_result, by_status}

-- A status that is an outcome.
abbrev pub is_final : Option Text → Bool
is_final none = false
is_final (some status) = is_text (txt "False") status || is_text (txt "True") status

abbrev pub has_outcome : Option CommResult → Bool
has_outcome none = true
has_outcome (some r) = is_final r.status

-- The vendor has answered, and not with a task that is still open.
abbrev pub is_settled : Sent → Bool
is_settled (answered response) = has_outcome response.result
is_settled (failed error_message) = false
is_settled (failed_with_text error_message code) = false
is_settled (failed_with_number error_message code) = true

-- The answer at the path of the task, for a command that is one.
abbrev pub settles : Option TaskType → (Text → Sent) → Bool
settles none send = false
settles (some task) send = is_settled (send (task_path task))

module _ {N : Type 0} (number : Text → Option N) (is_space : ℕ → Bool)
    (render : ResponseData N → Text) (message : DeviceMessage) where
  by_status-none :
      (response : CommResponse) (r : CommResult) (o : Option Text)
      → (by_status number is_space render message response r o ≡ none) ↔ (is_final o ≡ false)
  by_status-none response r none = ((λ e. refl), (λ e. refl))
  by_status-none response r (some status) = elim (Bool-cases (is_text (txt "False") status)) [
    | inl f ↦ rw f ((λ e. cc), (λ e. cc))
    | inr f ↦ elim (Bool-cases (is_text (txt "True") status)) [
      | inl t ↦ rw (f, t) ((λ e. cc), (λ e. cc))
      | inr t ↦ rw (f, t) ((λ e. refl), (λ e. refl))
    ]
  ]

  by_result-none :
      (response : CommResponse) (o : Option CommResult)
      → (by_result number is_space render message response o ≡ none) ↔ (has_outcome o ≡ false)
  by_result-none response none = ((λ e. cc), (λ e. cc))
  by_result-none response (some r) = by_status-none response r r.status

  by_answer-none :
      (sent : Sent)
      → (by_answer number is_space render message sent ≡ none) ↔ (is_settled sent ≡ false)
  by_answer-none (answered response) = by_result-none response response.result
  by_answer-none (failed error_message) = ((λ e. refl), (λ e. refl))
  by_answer-none (failed_with_text error_message code) = ((λ e. refl), (λ e. refl))
  by_answer-none (failed_with_number error_message code) = ((λ e. cc), (λ e. cc))

  for_task-none :
      (o : Option TaskType) (send : Text → Sent)
      → (for_task number is_space render message o send ≡ none) ↔ (settles o send ≡ false)
  for_task-none none send = ((λ e. refl), (λ e. refl))
  for_task-none (some task) send = by_answer-none (send (task_path task))

  -- A poll gives no event exactly when the command is no task, or the vendor has not settled it: the
  -- request for its task failed with no number for a code, or the task's status is neither True nor
  -- False.
  pub fetch_status_none_iff :
      (send : Text → Sent)
      → (fetch_status number is_space render message send ≡ none)
        ↔ (settles (task_type message.command_type) send ≡ false)
  unfolding fetch_status
  fetch_status_none_iff send = for_task-none (task_type message.command_type) send
