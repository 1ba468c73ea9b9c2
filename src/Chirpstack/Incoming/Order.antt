-- ===== src/Chirpstack/Incoming/Order.antt =====
-- What incoming.ts makes of an acknowledgement and its uplink, from the bodies of the two requests.
use nxt_device_messaging.Common.{
  ℕ, Text, ◌≡◌, refl, ◌==◌, true, false, none, some, drop, length, List,
}
use nxt_device_messaging.Message.{Device}
use nxt_device_messaging.Redis.MessageStore.{truthy}
use nxt_device_messaging.Chirpstack.Readout.{ResponseData}
use nxt_device_messaging.Chirpstack.Decode.{DecodedEvent, decode_response_data}
use nxt_device_messaging.Chirpstack.Correlate.{
  PendingCorrelations, nothing_yet, combined, combined_event, on_ack_event, on_up_event,
}
use nxt_device_messaging.Chirpstack.Correlate.Order.{on_up_event-on_ack_event}
use nxt_device_messaging.Chirpstack.Incoming.{
  GatewayInfo, LorawanCalinEvent, ack, up, handle, create_device, select_gateway_with_best_signal,
}

module _ (render : ResponseData → Text) (from_base64 : Text → List ℕ)
    (dev_eui dedup queue_item_id payload : Text) (rx_info : List GatewayInfo) where
  abbrev pub acknowledgement : LorawanCalinEvent
  acknowledgement =
      ack (record {
        queue_item_id = some queue_item_id;
        deduplication_id = dedup;
        acknowledged = true;
      })

  abbrev pub uplink : LorawanCalinEvent
  uplink = up (record { deduplication_id = dedup; rx_info = rx_info; payload = some payload })

  abbrev pub meter : Device
  meter = create_device (drop 5 dev_eui) (select_gateway_with_best_signal rx_info)

  module _ (decoded : DecodedEvent) (sixteen : (length dev_eui == 16) ≡ true)
      (given : truthy (some queue_item_id) ≡ some queue_item_id)
      (filled : truthy (some payload) ≡ some payload)
      (decodes : decode_response_data (from_base64 payload) ≡ some decoded)
      (asked : decoded.unsolicited_read_report ≡ false) where
    handle-ack :
        (now : ℕ) (p : PendingCorrelations)
        → handle render from_base64 now dev_eui acknowledgement p
          ≡ on_ack_event render now dedup queue_item_id p
    unfolding handle
    handle-ack now p = rw (sixteen, given) refl

    handle-up :
        (now : ℕ) (p : PendingCorrelations)
        → handle render from_base64 now dev_eui uplink p
          ≡ on_up_event render now dedup decoded meter p
    unfolding handle
    handle-up now p = rw (sixteen, filled, decodes, asked) refl

    -- For a DevEUI of sixteen digits, an acknowledgement with a queue item id and an uplink whose
    -- payload decodes to an answer that was asked for give, in either order and whatever the times,
    -- nothing first and then one and the same event, with the device of the uplink. The pending halves
    -- are then as before, when none was there under their deduplication id.
    pub handle_either_order :
        (now later : ℕ) (p : PendingCorrelations) (j : Text)
        → p dedup ≡ none
        → ((handle render from_base64 now dev_eui acknowledgement p).0 ≡ nothing_yet)
          × ((handle render from_base64 now dev_eui uplink p).0 ≡ nothing_yet)
          × ((handle render from_base64 later dev_eui uplink
                (handle render from_base64 now dev_eui acknowledgement p).1).0
              ≡ combined (combined_event render queue_item_id decoded meter))
          × ((handle render from_base64 later dev_eui acknowledgement
                (handle render from_base64 now dev_eui uplink p).1).0
              ≡ combined (combined_event render queue_item_id decoded meter))
          × ((handle render from_base64 later dev_eui uplink
                  (handle render from_base64 now dev_eui acknowledgement p).1).1
                j
              ≡ p j)
          × ((handle render from_base64 later dev_eui acknowledgement
                  (handle render from_base64 now dev_eui uplink p).1).1
                j
              ≡ p j)
    handle_either_order now later p j e =
        rw
          (
            handle-ack now p,
            handle-up now p,
            handle-ack later (on_up_event render now dedup decoded meter p).1,
            handle-up later (on_ack_event render now dedup queue_item_id p).1,
          )
          (on_up_event-on_ack_event render dedup queue_item_id decoded meter now later p j e given)
