-- ===== src/Examples/OfOutbox.antt =====
-- An event that the adopter refuses twice.
use nxt_device_messaging.Common.{txt, text_discrete, ◌≡◌, refl, none, some, [], ◌∷◌, arith}
use nxt_device_messaging.Engine.{message_event}
use nxt_device_messaging.Webhook.{EventWebhookConfig}
use nxt_device_messaging.Webhook.Outbox.{
  WebhookStoredRecord, Outbox, Attempt, thrown, http_status, store_and_emit, deliver_one,
  deliver_all,
}
use nxt_device_messaging.Webhook.Outbox.Delivery.{
  Delivered, Settled, deliver_one-Delivered, deliver_all-Settled,
}
use nxt_device_messaging.Examples.Fixtures.{message}

abbrev knobs : EventWebhookConfig
knobs = record {
  base_delay_ms = 2000;
  backoff_multiplier = 2;
  max_delay_ms = 60000;
  max_attempts = 2;
}

abbrev first_record : WebhookStoredRecord
first_record = record {
  event = record { event_id = txt "e1"; occurred_at = txt "now"; message = message_event message };
  attempt_count = 0;
  last_error = none;
}

abbrev empty_outbox : Outbox
empty_outbox = record { pending = λ k. none; payload = λ k. none; dead_letters = λ k. none }

abbrev outbox : Outbox
outbox = store_and_emit 1000 (some first_record.event) empty_outbox

abbrev unreachable : Attempt
unreachable = record { leased_at = 1500; failed_at = 1600; response = thrown (txt "fetch failed") }

abbrev unavailable : Attempt
unavailable = record { leased_at = 4000; failed_at = 4100; response = http_status 503 }

stored : outbox.payload (txt "e1") ≡ some first_record
unfolding text_discrete
stored = refl

deliver_one-Delivered_example :
    Delivered knobs unreachable
      (txt "e1")
      first_record
      (deliver_one knobs unreachable (txt "e1") outbox)
deliver_one-Delivered_example = deliver_one-Delivered knobs unreachable first_record outbox stored

deliver_all-Settled_example :
    Settled (txt "e1") (deliver_all knobs (unreachable ∷ unavailable ∷ []) (txt "e1") outbox)
deliver_all-Settled_example =
    deliver_all-Settled knobs (unreachable ∷ unavailable ∷ []) first_record outbox stored
      (omega arith) (omega arith)
