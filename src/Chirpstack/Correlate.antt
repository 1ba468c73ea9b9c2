-- ===== src/Chirpstack/Correlate.antt =====
-- src/plugins/calin-chirpstack/lib/correlate-request-response.ts: an acknowledgement and its uplink,
-- which come in either order, joined by their deduplication id. The map of pending halves is a function;
-- the clock is an argument. `render` is the data of a response as the service passes it on.
pub mod Order
use nxt_device_messaging.Common.{ℕ, ◌-◌, Text, false, Option, none, some, ltb, if◌then◌else◌}
use nxt_device_messaging.Message.{delivery_successful, Device, ParsedIncomingEvent, FailureContext}
use nxt_device_messaging.Redis.{at}
use nxt_device_messaging.Redis.MessageStore.{truthy}
use nxt_device_messaging.Chirpstack.Readout.{ResponseData}
use nxt_device_messaging.Chirpstack.Decode.{DecodedEvent}

pub record CorrelationEntry : Type 0 where
  pub queue_item_id : Option Text
  pub decoded : Option DecodedEvent
  pub device : Option Device
  pub timestamp : ℕ

-- deduplicationId to the half that has come.
abbrev pub PendingCorrelations : Type 0
PendingCorrelations = Text → Option CorrelationEntry

abbrev pub correlation_ttl_ms : ℕ
correlation_ttl_ms = 10000

-- Nothing yet, the combined event, or one whose device the code takes for granted but is missing.
pub data Correlated : Type 0 where
  nothing_yet deviceless : Correlated
  combined : ParsedIncomingEvent → Correlated

abbrev pub context_of : Option Text → Option FailureContext
context_of none = none
context_of (some reason) =
    some (record { reason = reason; error_code = none; details = none; skip_retry = false })

-- The half of an entry that is an uplink.
abbrev pub pending_decoded : Option CorrelationEntry → Option (DecodedEvent × Option Device)
pending_decoded none = none
pending_decoded (some e) = paired e.decoded e.device
  where
    paired : Option DecodedEvent → Option Device → Option (DecodedEvent × Option Device)
    paired none device = none
    paired (some decoded) device = some (decoded, device)

-- The half of an entry that is an acknowledgement.
abbrev pub pending_queue_item : Option CorrelationEntry → Option Text
pending_queue_item none = none
pending_queue_item (some e) = truthy e.queue_item_id

abbrev pub age_kept : ℕ → Option CorrelationEntry → Option CorrelationEntry
age_kept now none = none
age_kept now (some e) = if ltb correlation_ttl_ms (now - e.timestamp) then none else some e

module _ (render : ResponseData → Text) where
  abbrev pub combined_event : Text → DecodedEvent → Device → ParsedIncomingEvent
  combined_event queue_item_id decoded device = record {
    command_type = none;
    delivery_queue_id = some queue_item_id;
    delivery_status = delivery_successful;
    device = device;
    response = some (record { status = decoded.status; content = some (render decoded.content) });
    unsolicited = false;
    failure_context = context_of decoded.failure_reason;
  }

  abbrev pub combined_with : Text → DecodedEvent → Option Device → Correlated
  combined_with queue_item_id decoded none = deviceless
  combined_with queue_item_id decoded (some device) =
      combined (combined_event queue_item_id decoded device)

  abbrev pub on_ack_half :
      ℕ
      → Text
      → Text
      → Option (DecodedEvent × Option Device)
      → PendingCorrelations
      → Correlated × PendingCorrelations
  on_ack_half now dedup queue_item_id none p = (
    nothing_yet,
    at p dedup (
        some (record {
          queue_item_id = some queue_item_id;
          decoded = none;
          device = none;
          timestamp = now;
        })),
  )
  on_ack_half now dedup queue_item_id (some (decoded, device)) p =
      (combined_with queue_item_id decoded device, at p dedup none)

  unfoldable pub on_ack_event :
      ℕ → Text → Text → PendingCorrelations → Correlated × PendingCorrelations
  on_ack_event now dedup queue_item_id p =
      on_ack_half now dedup queue_item_id (pending_decoded (p dedup)) p

  abbrev pub on_up_half :
      ℕ
      → Text
      → DecodedEvent
      → Device
      → Option Text
      → PendingCorrelations
      → Correlated × PendingCorrelations
  on_up_half now dedup decoded device none p = (
    nothing_yet,
    at p dedup (
        some (record {
          queue_item_id = none;
          decoded = some decoded;
          device = some device;
          timestamp = now;
        })),
  )
  on_up_half now dedup decoded device (some queue_item_id) p =
      (combined (combined_event queue_item_id decoded device), at p dedup none)

  unfoldable pub on_up_event :
      ℕ → Text → DecodedEvent → Device → PendingCorrelations → Correlated × PendingCorrelations
  on_up_event now dedup decoded device p =
      on_up_half now dedup decoded device (pending_queue_item (p dedup)) p

unfoldable pub run_garbage_collection : ℕ → PendingCorrelations → PendingCorrelations
run_garbage_collection now p dedup = age_kept now (p dedup)
