-- ===== src/Chirpstack/Outgoing.antt =====
-- src/plugins/calin-chirpstack/outgoing.ts: a message as a downlink, and what becomes of it. The gRPC
-- client is an argument; the code of its error is taken as written out.
pub mod GivenUp
use nxt_device_messaging.Common.{
  ℕ, Text, txt, text_discrete, includes_text, pad_zeros, Bool, true, false, Option, none, some,
  List, [], ◌∷◌, ◌||◌, ite,
}
use nxt_device_messaging.Message.{
  Phase, phase_a, RequestPayload, RequestData, DeviceMessage, DeliveryStatus, delivery_failed,
  FailureContext,
}
use nxt_device_messaging.Engine.Actions.{RemoteStatus, call_failed, reported}
use nxt_device_messaging.Engine.Outgoing
use nxt_device_messaging.Chirpstack.Encode.{ToEncode, encode_request_data}

-- What `sendOne` throws: an error of its own, or one of gRPC.
pub data SendError : Type 0 where
  calin_chirpstack_error : Text → Bool → SendError
  grpc_error : Option Text → Option Text → SendError

-- The answer of `enqueueDeviceRequest`.
pub data Enqueued : Type 0 where
  enqueued : Text → Enqueued
  enqueue_failed : Option Text → Option Text → Enqueued

abbrev phase_or_a : Option Phase → Phase
phase_or_a none = phase_a
phase_or_a (some p) = p

abbrev request_token : Option RequestData → Option Text
request_token none = none
request_token (some d) = d.token

abbrev request_payload : Option RequestData → Option RequestPayload
request_payload none = none
request_payload (some d) = d.payload

abbrev pub request_of : DeviceMessage → ToEncode
request_of m = record {
  device_identifier = m.device.external_reference;
  device_phase = phase_or_a m.phase;
  request_type = m.command_type;
  token = request_token m.request_data;
  payload = request_payload m.request_data;
}

abbrev pub device_eui : DeviceMessage → Text
device_eui m = pad_zeros 16 m.device.external_reference

abbrev pub unregistered_device : Text
unregistered_device = txt "device_queue_item_dev_eui_fkey"

abbrev is_unregistered : Option Text → Bool
is_unregistered none = false
is_unregistered (some details) = includes_text unregistered_device details

abbrev grpc_context : Option Text → Option Text → Bool → FailureContext
grpc_context error_code details true = record {
  reason = txt "Device not registered in Network Server (ChirpStack)";
  error_code = error_code;
  details = details;
  skip_retry = true;
}
grpc_context error_code details false = record {
  reason = txt "Failed to enqueue message at ChirpStack";
  error_code = error_code;
  details = details;
  skip_retry = false;
}

unfoldable pub parse_error : SendError → FailureContext
parse_error (calin_chirpstack_error message skip_retry) = record {
  reason = message;
  error_code = none;
  details = none;
  skip_retry = skip_retry;
}
parse_error (grpc_error error_code details) =
    grpc_context error_code details (is_unregistered details)

abbrev pub could_not_encode : SendError
could_not_encode =
    calin_chirpstack_error (txt "Could not encode request data prior to sending to device") true

abbrev pub downlink_of : Enqueued → Outgoing.Sent
unfolding parse_error
downlink_of (enqueued id) = Outgoing.accepted id
downlink_of (enqueue_failed error_code details) =
    Outgoing.refused (parse_error (grpc_error error_code details))

abbrev pub send_encoded :
    (Text → List ℕ → Enqueued) → DeviceMessage → Option (List ℕ) → Outgoing.Sent
send_encoded enqueue m none = Outgoing.refused (parse_error could_not_encode)
send_encoded enqueue m (some bytes) = downlink_of (enqueue (device_eui m) bytes)

-- `sendOne`, with what the engine makes of a throw.
unfoldable pub send_one : (Text → List ℕ → Enqueued) → DeviceMessage → Outgoing.Sent
send_one enqueue m = send_encoded enqueue m (encode_request_data (request_of m))

unfoldable pub is_queued_remotely : Text → List Text → Bool
is_queued_remotely id [] = false
is_queued_remotely id (queued_id ∷ rest) =
    ite (text_discrete queued_id id) true false || is_queued_remotely id rest

abbrev status_in : DeviceMessage → Bool → DeliveryStatus
status_in m true = m.delivery_status
status_in m false = delivery_failed

abbrev answer_of : DeviceMessage → Option (List Text) → RemoteStatus
answer_of m none = call_failed
answer_of m (some queue) = reported (status_in m (is_queued_remotely m.delivery_queue_id queue))

-- `getDeviceQueue` throws, or gives the ids in the remote queue.
unfoldable pub get_remote_status : (Text → Option (List Text)) → DeviceMessage → RemoteStatus
unfolding is_queued_remotely
get_remote_status get_device_queue m = answer_of m (get_device_queue (device_eui m))
