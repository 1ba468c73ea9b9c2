-- ===== src/Examples/OfIncoming.antt =====
-- The refusal of a token that comes as an uplink and its acknowledgement.
use nxt_device_messaging.Common.{ℕ, txt, Text, ◌≡◌, refl, pos, negsuc, none, some, List, [], ◌∷◌}
use nxt_device_messaging.Chirpstack.Readout.{ResponseData}
use nxt_device_messaging.Chirpstack.Decode.{decode_frame, decode_response_data}
use nxt_device_messaging.Chirpstack.Correlate.{
  Correlated, nothing_yet, combined, combined_event, PendingCorrelations,
}
use nxt_device_messaging.Chirpstack.Correlate.Order.{Arrival, acknowledged, answered, collected}
use nxt_device_messaging.Chirpstack.Incoming.{GatewayInfo, handle, select_gateway_with_best_signal}
use nxt_device_messaging.Chirpstack.Incoming.Order.{
  acknowledgement, uplink, meter, handle_either_order,
}
use nxt_device_messaging.Examples.OfChirpstack.{refusal, refused_event}

abbrev rendered : ResponseData → Text
rendered content = txt "{}"

abbrev bytes_of : Text → List ℕ
bytes_of payload = refusal

abbrev near : GatewayInfo
near = record { gateway_id = txt "g1"; snr = pos 7; rssi = negsuc 80 }

abbrev far : GatewayInfo
far = record { gateway_id = txt "g2"; snr = pos 7; rssi = negsuc 110 }

abbrev heard : List GatewayInfo
heard = far ∷ near ∷ []

best_gateway :
    select_gateway_with_best_signal heard
    ≡ some (record { id = none; external_reference = some (txt "g1") })
unfolding select_gateway_with_best_signal
best_gateway = refl

abbrev dev_eui : Text
dev_eui = txt "0000047003123456"

abbrev nothing_pending : PendingCorrelations
nothing_pending k = none

abbrev asks : ℕ → PendingCorrelations → Correlated × PendingCorrelations
asks now p =
    handle rendered bytes_of now dev_eui
      (acknowledgement rendered bytes_of dev_eui (txt "d1") (txt "q1") (txt "aCM2") heard) p

abbrev replies : ℕ → PendingCorrelations → Correlated × PendingCorrelations
replies now p =
    handle rendered bytes_of now dev_eui
      (uplink rendered bytes_of dev_eui (txt "d1") (txt "q1") (txt "aCM2") heard) p

abbrev joined : Correlated
joined = combined (
    combined_event rendered (txt "q1") refused_event
      (meter rendered bytes_of dev_eui (txt "d1") (txt "q1") (txt "aCM2") heard))

refusal_decodes : decode_response_data (bytes_of (txt "aCM2")) ≡ some refused_event
unfolding decode_response_data decode_frame
refusal_decodes = refl

handle_either_order_example :
    ((asks 5 nothing_pending).0 ≡ nothing_yet)
    × ((replies 5 nothing_pending).0 ≡ nothing_yet)
    × ((replies 9 (asks 5 nothing_pending).1).0 ≡ joined)
    × ((asks 9 (replies 5 nothing_pending).1).0 ≡ joined)
    × ((replies 9 (asks 5 nothing_pending).1).1 (txt "d1") ≡ none)
    × ((asks 9 (replies 5 nothing_pending).1).1 (txt "d1") ≡ none)
handle_either_order_example =
    handle_either_order rendered bytes_of dev_eui (txt "d1") (txt "q1") (txt "aCM2") heard
      refused_event refl refl refl refusal_decodes refl 5 9 nothing_pending (txt "d1") refl

abbrev arrivals : List Arrival
arrivals =
    answered 5 (txt "d1") refused_event
      (record { external_reference = txt "m1"; relay_node = none })
    ∷ collected 30000
    ∷ acknowledged 30001 (txt "d1") (txt "q1")
    ∷ []
