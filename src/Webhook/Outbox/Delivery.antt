-- ===== src/Webhook/Outbox/Delivery.antt =====
-- No event of the webhook is lost, and none waits for ever (src/engine/webhook/service.ts).
use nxt_device_messaging.Common.{
  ℕ, ◌+◌, ◌≤◌, ◌<◌, Text, ◌≡◌, refl, ap, subst, ◌∙◌, true, Bool-cases, inl, inr, none, some, List,
  [], ◌∷◌, length, leb, arith,
}
use nxt_device_messaging.Redis.{at}
use nxt_device_messaging.Webhook.{EventWebhookConfig, calculate_webhook_backoff_delay}
use nxt_device_messaging.Webhook.Outbox.{
  WebhookEvent, WebhookStoredRecord, Outbox, Response, thrown, http_status, is_ok,
  is_retryable_webhook_status, http_error, failed_record, Attempt, reschedule_event, complete,
  on_failure, on_response, deliver_one, deliver_all, claim_lease_ms,
}

at_own {ℓ} : {A : Type ℓ} (f : Text → A) (k : Text) (v : A) → at f k v k ≡ v
at_own f k v = ground arith

-- What a delivery makes of the event of a record: the adopter has taken it, it is a dead letter, or it
-- waits with one attempt more counted, below the maximum, until its next attempt.
pub data Delivered (config : EventWebhookConfig) (a : Attempt) (event_id : Text)
    (r : WebhookStoredRecord) (s' : Outbox) : Type 0 where
  posted :
      (status : ℕ)
      → a.response ≡ http_status status
      → is_ok status ≡ true
      → s'.pending event_id ≡ none
      → s'.payload event_id ≡ none
      → Delivered config a event_id r s'
  dead :
      (last : WebhookStoredRecord)
      → s'.dead_letters event_id ≡ some last
      → last.event ≡ r.event
      → s'.pending event_id ≡ none
      → s'.payload event_id ≡ none
      → Delivered config a event_id r s'
  waiting :
      (next : WebhookStoredRecord)
      → s'.payload event_id ≡ some next
      → next.event ≡ r.event
      → next.attempt_count ≡ r.attempt_count + 1
      → r.attempt_count + 1 < config.max_attempts
      → s'.pending event_id
        ≡ some (a.failed_at + calculate_webhook_backoff_delay (r.attempt_count + 1) config)
      → Delivered config a event_id r s'

module _ (config : EventWebhookConfig) (a : Attempt) (r : WebhookStoredRecord) where
  on_failure-Delivered :
      (last_error : Text) (s : Outbox)
      → Delivered config a r.event.event_id r (on_failure config a.failed_at r last_error s)
  on_failure-Delivered last_error s =
      elim (Bool-cases (leb config.max_attempts (r.attempt_count + 1))) [
        | inl e ↦ rw e (
            dead (failed_record r last_error) (at_own s.dead_letters _ _) refl
              (at_own s.pending _ _) (at_own s.payload _ _))
        | inr e ↦ rw e (
            waiting (failed_record r last_error) (at_own s.payload _ _) refl refl (ground arith)
              (at_own s.pending _ _))
      ]

  on_response-Delivered :
      (response : Response) (s : Outbox)
      → a.response ≡ response
      → Delivered config a r.event.event_id r
          (on_response config a.failed_at r.event.event_id r response s)
  on_response-Delivered (thrown error_message) s e = on_failure-Delivered error_message s
  on_response-Delivered (http_status status) s e = elim (Bool-cases (is_ok status)) [
    | inl ok ↦ rw ok (posted status e ok (at_own s.pending _ _) (at_own s.payload _ _))
    | inr bad ↦ elim (Bool-cases (is_retryable_webhook_status status)) [
      | inl again ↦ rw (bad, again) (on_failure-Delivered (http_error status) s)
      | inr final ↦
          rw (bad, final)
            (dead (failed_record r (http_error status)) (at_own s.dead_letters _ _) refl
              (at_own s.pending _ _) (at_own s.payload _ _))
    ]
  ]

-- A delivery of an event whose record is stored under its id leaves it posted with a status of 2xx, or
-- as a dead letter, or waiting for the next attempt with one more counted.
pub deliver_one-Delivered :
    (config : EventWebhookConfig) (a : Attempt) (r : WebhookStoredRecord) (s : Outbox)
    → s.payload r.event.event_id ≡ some r
    → Delivered config a r.event.event_id r (deliver_one config a r.event.event_id s)
unfolding deliver_one
deliver_one-Delivered config a r s e = rw e (
    on_response-Delivered config a r a.response
      (reschedule_event r (a.leased_at + claim_lease_ms) s) refl)

-- Nothing of the event is left to deliver.
pub record Settled (event_id : Text) (s : Outbox) : Type 0 where
  pub no_pending : s.pending event_id ≡ none
  pub no_payload : s.payload event_id ≡ none

Settled-deliver_all :
    (config : EventWebhookConfig) (attempts : List Attempt) (event_id : Text) (s : Outbox)
    → Settled event_id s
    → Settled event_id (deliver_all config attempts event_id s)
unfolding deliver_all deliver_one
Settled-deliver_all config [] event_id s h = h
Settled-deliver_all config (a ∷ rest) event_id s h = rw (h.no_payload) (
    Settled-deliver_all config rest event_id (complete event_id s)
      (record { no_pending = at_own s.pending _ _; no_payload = at_own s.payload _ _ }))

-- An event whose record is stored under its id, with fewer attempts counted than the maximum, is
-- settled once it has been delivered as often as the maximum allows, whatever the adopter answers.
pub deliver_all-Settled :
    (config : EventWebhookConfig) (attempts : List Attempt) (r : WebhookStoredRecord) (s : Outbox)
    → s.payload r.event.event_id ≡ some r
    → r.attempt_count < config.max_attempts
    → config.max_attempts ≤ r.attempt_count + length attempts
    → Settled r.event.event_id (deliver_all config attempts r.event.event_id s)
unfolding deliver_all
deliver_all-Settled config [] r s e below enough = absurd (omega arith)
deliver_all-Settled config (a ∷ rest) r s e below enough =
    go (deliver_one-Delivered config a r s e) (λ next f g h.
      deliver_all-Settled config rest next (deliver_one config a r.event.event_id s) f g h)
  where
    after : Outbox
    after = deliver_one config a r.event.event_id s

    go :
        Delivered config a r.event.event_id r after
        → ((next : WebhookStoredRecord)
            → after.payload next.event.event_id ≡ some next
            → next.attempt_count < config.max_attempts
            → config.max_attempts ≤ next.attempt_count + length rest
            → Settled next.event.event_id (deliver_all config rest next.event.event_id after))
        → Settled r.event.event_id (deliver_all config rest r.event.event_id after)
    go (posted status f ok p q) later =
        Settled-deliver_all config rest r.event.event_id after
          (record { no_pending = p; no_payload = q })
    go (dead last f same p q) later =
        Settled-deliver_all config rest r.event.event_id after
          (record { no_pending = p; no_payload = q })
    go (waiting next f same count less p) later =
        let id_same = ap (λ (e : WebhookEvent). e.event_id) same in
        subst (λ (i : Text). Settled i (deliver_all config rest i after)) id_same
          (later next (ap after.payload id_same ∙ f) (omega arith) (omega arith))
