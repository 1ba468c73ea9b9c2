-- ===== src/CalinApiV1/Client/Polled.antt =====
-- The poll of a task over the client: which answers of the network end a poll.
use nxt_device_messaging.Common.{
  ℕ, Text, ◌≡◌, ◌↔◌, refl, Bool, false, not, ◌||◌, Bool-cases, inl, inr, Option, none, some,
}
use nxt_device_messaging.Message.{DeviceMessage}
use nxt_device_messaging.CalinApiV1.{TaskType, task_type, task_path, ResponseData}
use nxt_device_messaging.CalinApiV1.Status.{fetch_status}
use nxt_device_messaging.CalinApiV1.Poll.{has_outcome, is_settled, settles, fetch_status_none_iff}
use nxt_device_messaging.CalinApiV1.Client.{
  Thrown, Body, unreadable, readable, HttpResponse, Fetched, threw, responded, transport_code_of,
  get_network_error_code, unreached, is_down, on_body, on_http_response, is_html, responded_ok,
  send_request,
}

abbrev pub body_settles : Body → Bool
body_settles (unreadable e) = false
body_settles (readable response) = has_outcome response.result

-- HTTP was spoken, and it was a page, a refusal, or a task with its outcome.
abbrev pub is_heard : Fetched → Bool
is_heard (threw e) = false
is_heard (responded r) =
    is_html r.content_type || (not (responded_ok r.status) || body_settles r.body)

abbrev pub hears : Option TaskType → (Text → Fetched) → Bool
hears none network = false
hears (some task) network = is_heard (network (task_path task))

is_down-unsettled : (o : Option Text) → is_settled (is_down o) ≡ false
is_down-unsettled none = refl
is_down-unsettled (some code) = refl

unreached-unsettled : (e : Thrown) (o : Option Text) → is_settled (unreached e o) ≡ false
unreached-unsettled e none = is_down-unsettled (get_network_error_code e)
unreached-unsettled e (some code) = refl

on_body-is_settled : (b : Body) → is_settled (on_body b) ≡ body_settles b
on_body-is_settled (unreadable e) = unreached-unsettled e (transport_code_of e)
on_body-is_settled (readable response) = refl

on_http_response-is_settled :
    (r : HttpResponse)
    → is_settled (on_http_response r)
      ≡ (is_html r.content_type || (not (responded_ok r.status) || body_settles r.body))
on_http_response-is_settled r = elim (Bool-cases (is_html r.content_type)) [
  | inl h ↦ rw h refl
  | inr h ↦ elim (Bool-cases (responded_ok r.status)) [
    | inl k ↦ rw (h, k) (on_body-is_settled r.body)
    | inr k ↦ rw (h, k) refl
  ]
]

send_request-is_settled : (f : Fetched) → is_settled (send_request f) ≡ is_heard f
send_request-is_settled (threw e) = unreached-unsettled e (transport_code_of e)
send_request-is_settled (responded r) = on_http_response-is_settled r

settles-hears :
    (o : Option TaskType) (network : Text → Fetched)
    → settles o (λ path. send_request (network path)) ≡ hears o network
settles-hears none network = refl
settles-hears (some task) network = send_request-is_settled (network (task_path task))

-- A poll over the client gives no event exactly when the command is no task, or the network gave
-- nothing that ends it: an exception, a body of a status of 2xx that is no JSON, or a task that is
-- still open. So a vendor that cannot be reached never ends a poll, and a page of HTML or a
-- status other than 2xx always does.
pub poll_none_iff :
    {N : Type 0} (number : Text → Option N) (is_space : ℕ → Bool) (render : ResponseData N → Text)
    (message : DeviceMessage) (network : Text → Fetched)
    → (fetch_status number is_space render message (λ path. send_request (network path)) ≡ none)
      ↔ (hears (task_type message.command_type) network ≡ false)
poll_none_iff number is_space render message network =
    rw (← settles-hears (task_type message.command_type) network)
      (fetch_status_none_iff number is_space render message (λ path. send_request (network path)))
