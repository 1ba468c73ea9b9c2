-- ===== src/Webhook/Outbox.antt =====
-- src/engine/webhook/store.ts and service.ts: the events that wait for the adopter. The keys of the
-- webhook are maps by event id: the pending set with its scores, the payloads, and the dead letters, whose
-- time to live is left out. The answer to a POST is an argument; headers and their signature are left out.
pub mod Delivery
use nxt_device_messaging.Common.{
  ℕ, ◌+◌, ◌/◌, ◌%◌, Text, txt, ◌++◌, Bool, ◌&&◌, ◌||◌, Option, none, some, List, [], ◌∷◌, leb, ltb,
  ◌==◌, if◌then◌else◌,
}
use nxt_device_messaging.Redis.{at}
use nxt_device_messaging.Engine.{DeliveryEvent}
use nxt_device_messaging.Webhook.{EventWebhookConfig, calculate_webhook_backoff_delay}

pub record WebhookEvent : Type 0 where
  pub event_id : Text
  pub occurred_at : Text
  pub message : DeliveryEvent

pub record WebhookStoredRecord : Type 0 where
  pub event : WebhookEvent
  pub attempt_count : ℕ
  pub last_error : Option Text

pub record Outbox : Type 0 where
  pub pending : Text → Option ℕ
  pub payload : Text → Option WebhookStoredRecord
  pub dead_letters : Text → Option WebhookStoredRecord

abbrev pub claim_lease_ms : ℕ
claim_lease_ms = 60000

-- One MULTI each.
abbrev pub enqueue_event : WebhookStoredRecord → ℕ → Outbox → Outbox
enqueue_event r next_attempt_at_ms s = record s {
  payload = at s.payload r.event.event_id (some r);
  pending = at s.pending r.event.event_id (some next_attempt_at_ms);
}

abbrev pub reschedule_event : WebhookStoredRecord → ℕ → Outbox → Outbox
reschedule_event r next_attempt_at_ms s = record s {
  payload = at s.payload r.event.event_id (some r);
  pending = at s.pending r.event.event_id (some next_attempt_at_ms);
}

abbrev pub complete : Text → Outbox → Outbox
complete event_id s = record s {
  pending = at s.pending event_id none;
  payload = at s.payload event_id none;
}

abbrev pub dead_letter : WebhookStoredRecord → Outbox → Outbox
dead_letter r s = record {
  dead_letters = at s.dead_letters r.event.event_id (some r);
  pending = at s.pending r.event.event_id none;
  payload = at s.payload r.event.event_id none;
}

-- The POST threw, with a message, or gave a status.
pub data Response : Type 0 where
  thrown : Text → Response
  http_status : ℕ → Response

abbrev pub is_ok : ℕ → Bool
is_ok status = leb 200 status && ltb status 300

abbrev pub is_retryable_webhook_status : ℕ → Bool
is_retryable_webhook_status status = (status == 408) || (status == 429) || leb 500 status

-- A status has three digits.
abbrev pub http_error : ℕ → Text
http_error status =
    txt "HTTP " ++ (status / 100 + 48) ∷ (status / 10 % 10 + 48) ∷ (status % 10 + 48) ∷ []

abbrev pub failed_record : WebhookStoredRecord → Text → WebhookStoredRecord
failed_record r last_error = record r {
  attempt_count = r.attempt_count + 1;
  last_error = some last_error;
}

-- One delivery: the clock when the lease is taken and when a failure is noted, and the answer.
pub record Attempt : Type 0 where
  pub leased_at : ℕ
  pub failed_at : ℕ
  pub response : Response

-- The event as it was built; none is one that lacks a field and is dropped.
abbrev pub store_and_emit : ℕ → Option WebhookEvent → Outbox → Outbox
store_and_emit now none s = s
store_and_emit now (some event) s =
    enqueue_event (record { event = event; attempt_count = 0; last_error = none }) now s

module _ (config : EventWebhookConfig) where
  abbrev pub on_failure : ℕ → WebhookStoredRecord → Text → Outbox → Outbox
  on_failure now r last_error s =
      if leb config.max_attempts (r.attempt_count + 1)
      then dead_letter (failed_record r last_error) s
      else reschedule_event (failed_record r last_error)
          (now + calculate_webhook_backoff_delay (r.attempt_count + 1) config) s

  abbrev pub on_response : ℕ → Text → WebhookStoredRecord → Response → Outbox → Outbox
  on_response now event_id r (thrown error_message) s = on_failure now r error_message s
  on_response now event_id r (http_status status) s =
      if is_ok status
      then complete event_id s
      else if is_retryable_webhook_status status
      then on_failure now r (http_error status) s
      else dead_letter (failed_record r (http_error status)) s

  abbrev pub deliver_record : Attempt → Text → Option WebhookStoredRecord → Outbox → Outbox
  deliver_record a event_id none s = complete event_id s
  deliver_record a event_id (some r) s =
      on_response a.failed_at event_id r a.response
        (reschedule_event r (a.leased_at + claim_lease_ms) s)

  unfoldable pub deliver_one : Attempt → Text → Outbox → Outbox
  deliver_one a event_id s = deliver_record a event_id (s.payload event_id) s

  -- The deliveries of one event, one after the other.
  unfoldable pub deliver_all : List Attempt → Text → Outbox → Outbox
  deliver_all [] event_id s = s
  deliver_all (a ∷ rest) event_id s = deliver_all rest event_id (deliver_one a event_id s)

  -- The ids that were due, one after the other, each with what its delivery meets.
  unfoldable pub drain_once : (Text → Attempt) → List Text → Outbox → Outbox
  unfolding deliver_one
  drain_once meets [] s = s
  drain_once meets (event_id ∷ rest) s =
      drain_once meets rest (deliver_one (meets event_id) event_id s)
