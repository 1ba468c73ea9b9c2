-- ===== src/Chirpstack/Incoming.antt =====
-- src/plugins/calin-chirpstack/incoming.ts with lib/connectivity-helpers.ts: an event of the network
-- server as a parsed event. The body of a request is taken apart already, by its `?event=`; the check of
-- the API key compares hashes of a library and is left out. Signal strengths are integers.
pub mod Order
use nxt_device_messaging.Common.{
  ℕ, Text, txt, ℤ, ltb_ℤ, Bool, true, false, ◌&&◌, ◌||◌, not, Option, none, some, List, [], ◌∷◌,
  drop, length, ◌==◌, if◌then◌else◌,
}
use nxt_device_messaging.Message.{
  sent_to_device, delivery_successful, delivery_failed, join_network, read_report, Device,
  RelayNode, execution_success, ParsedIncomingEvent,
}
use nxt_device_messaging.Redis.MessageStore.{truthy}
use nxt_device_messaging.Chirpstack.Readout.{ResponseData}
use nxt_device_messaging.Chirpstack.Decode.{DecodedEvent, decode_response_data}
use nxt_device_messaging.Chirpstack.Correlate.{
  PendingCorrelations, Correlated, nothing_yet, combined, on_ack_event, on_up_event,
}

pub record GatewayInfo : Type 0 where
  pub gateway_id : Text
  pub snr : ℤ
  pub rssi : ℤ

pub record AckEvent : Type 0 where
  pub queue_item_id : Option Text
  pub deduplication_id : Text
  pub acknowledged : Bool

pub record UpEvent : Type 0 where
  pub deduplication_id : Text
  pub rx_info : List GatewayInfo
  pub payload : Option Text

-- A body with the `?event=` that it came under.
pub data LorawanCalinEvent : Type 0 where
  txack : Option Text → LorawanCalinEvent
  ack : AckEvent → LorawanCalinEvent
  join : LorawanCalinEvent
  up : UpEvent → LorawanCalinEvent
  other_event : LorawanCalinEvent

-- `signalSortFn(left, right) < 0`: a higher SNR, and on a tie a higher RSSI.
abbrev pub sorts_before : GatewayInfo → GatewayInfo → Bool
sorts_before left right =
    ltb_ℤ right.snr left.snr || (not (ltb_ℤ left.snr right.snr) && ltb_ℤ right.rssi left.rssi)

-- `sort(signalSortFn)`, which keeps the order of equals.
abbrev pub insert : GatewayInfo → List GatewayInfo → List GatewayInfo
insert g [] = g ∷ []
insert g (h ∷ hs) = let rest = insert g hs in if sorts_before h g then h ∷ rest else g ∷ h ∷ hs

abbrev pub sorted : List GatewayInfo → List GatewayInfo
sorted [] = []
sorted (g ∷ gs) = insert g (sorted gs)

abbrev pub relay_node_of : List GatewayInfo → Option RelayNode
relay_node_of [] = none
relay_node_of (best ∷ rest) = some (record { id = none; external_reference = some best.gateway_id })

-- None for no observation.
unfoldable pub select_gateway_with_best_signal : List GatewayInfo → Option RelayNode
select_gateway_with_best_signal rx_info = relay_node_of (sorted rx_info)

abbrev pub create_device : Text → Option RelayNode → Device
create_device external_reference relay_node = record {
  external_reference = external_reference;
  relay_node = relay_node;
}

abbrev pub handle_down : Option Text → Text → ParsedIncomingEvent
handle_down queue_item_id reference = record {
  command_type = none;
  delivery_queue_id = queue_item_id;
  delivery_status = sent_to_device;
  device = create_device reference none;
  response = none;
  unsolicited = false;
  failure_context = none;
}

-- The data of the response.
abbrev pub network_joined : Text
network_joined = txt "{ networkJoined: true }"

abbrev pub handle_join : Text → ParsedIncomingEvent
handle_join reference = record {
  command_type = some join_network;
  delivery_queue_id = none;
  delivery_status = delivery_successful;
  device = create_device reference none;
  response = some (record { status = execution_success; content = some network_joined });
  unsolicited = true;
  failure_context = none;
}

abbrev pub not_acknowledged : Text → Text → ParsedIncomingEvent
not_acknowledged queue_item_id reference = record {
  command_type = none;
  delivery_queue_id = some queue_item_id;
  delivery_status = delivery_failed;
  device = create_device reference none;
  response = none;
  unsolicited = false;
  failure_context = some (record {
    reason =
        txt
          "Downlink not acknowledged by device (may be offline, out of range, or missed RX window)";
    error_code = none;
    details = none;
    skip_retry = false;
  });
}

-- `nothing_yet` is the code's null.
module _ (render : ResponseData → Text) (from_base64 : Text → List ℕ) (now : ℕ) where
  abbrev pub handle_ack_of :
      AckEvent → Text → Option Text → PendingCorrelations → Correlated × PendingCorrelations
  handle_ack_of event reference none p = (nothing_yet, p)
  handle_ack_of event reference (some queue_item_id) p =
      if event.acknowledged
      then on_ack_event render now event.deduplication_id queue_item_id p
      else (combined (not_acknowledged queue_item_id reference), p)

  abbrev pub handle_ack : AckEvent → Text → PendingCorrelations → Correlated × PendingCorrelations
  handle_ack event reference p = handle_ack_of event reference (truthy event.queue_item_id) p

  abbrev pub automatic_report : DecodedEvent → Device → ParsedIncomingEvent
  automatic_report decoded device = record {
    command_type = some read_report;
    delivery_queue_id = none;
    delivery_status = delivery_successful;
    device = device;
    response = some (record { status = decoded.status; content = some (render decoded.content) });
    unsolicited = true;
    failure_context = none;
  }

  abbrev pub handle_decoded :
      UpEvent → Text → Option DecodedEvent → PendingCorrelations → Correlated × PendingCorrelations
  handle_decoded event reference none p = (nothing_yet, p)
  handle_decoded event reference (some decoded) p =
      let device = create_device reference (select_gateway_with_best_signal event.rx_info) in
      if decoded.unsolicited_read_report
      then (combined (automatic_report decoded device), p)
      else on_up_event render now event.deduplication_id decoded device p

  abbrev pub handle_payload :
      UpEvent → Text → Option Text → PendingCorrelations → Correlated × PendingCorrelations
  handle_payload event reference none p = (nothing_yet, p)
  handle_payload event reference (some payload) p =
      handle_decoded event reference (decode_response_data (from_base64 payload)) p

  abbrev pub handle_up : UpEvent → Text → PendingCorrelations → Correlated × PendingCorrelations
  handle_up event reference p = handle_payload event reference (truthy event.payload) p

  unfoldable pub handle_event :
      LorawanCalinEvent → Text → PendingCorrelations → Correlated × PendingCorrelations
  handle_event (txack queue_item_id) reference p =
      (combined (handle_down queue_item_id reference), p)
  handle_event (ack event) reference p = handle_ack event reference p
  handle_event join reference p = (combined (handle_join reference), p)
  handle_event (up event) reference p = handle_up event reference p
  handle_event other_event reference p = (nothing_yet, p)

  -- The meter reference is the DevEUI of 16 digits without its first five.
  unfoldable pub handle :
      Text → LorawanCalinEvent → PendingCorrelations → Correlated × PendingCorrelations
  unfolding handle_event
  handle dev_eui event p =
      if length dev_eui == 16 then handle_event event (drop 5 dev_eui) p else (nothing_yet, p)
