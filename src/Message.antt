-- ===== src/Message.antt =====
-- The device-message aggregate: src/lib/device-message/types.ts, schemas.ts, command-types.ts.
-- A value that the service only passes on (the data of a response, a timestamp) is a text. Signal
-- strengths of a relay node are left out; a priority is an integer.
use nxt_device_messaging.Common.{ℕ, Text, ℤ, Bool, Option, List}

pub data DeliveryStatus : Type 0 where
  queued to_retry sent_to_ns delivered_to_ns sent_to_device : DeliveryStatus
  delivery_successful delivery_failed : DeliveryStatus

pub data Phase : Type 0 where
  phase_a phase_b phase_c : Phase

pub data CommandType : Type 0 where
  read_voltage read_current read_power read_power_limit read_credit read_version : CommandType
  read_date read_time turn_on turn_off set_date set_time : CommandType
  clear_credit clear_tamper set_power_limit top_up_kwh : CommandType
  deliver_preexisting_token read_report join_network : CommandType

pub record RelayNode : Type 0 where
  pub id : Option ℕ
  pub external_reference : Option Text

pub record Device : Type 0 where
  pub external_reference : Text
  pub relay_node : Option RelayNode

pub data RequestPayload : Type 0 where
  date_payload : ℕ → ℕ → ℕ → RequestPayload
  time_payload : ℕ → ℕ → Option ℕ → RequestPayload

pub record RequestData : Type 0 where
  pub token : Option Text
  pub payload : Option RequestPayload

pub data ResponseStatus : Type 0 where
  execution_success execution_failure : ResponseStatus

pub record MessageResponse : Type 0 where
  pub status : ResponseStatus
  pub content : Option Text

pub record FailureContext : Type 0 where
  pub reason : Text
  pub error_code : Option Text
  pub details : Option Text
  pub skip_retry : Bool

pub record FailureReason : Type 0 where
  pub reason : Text
  pub error_code : Option Text
  pub details : Option Text
  pub status : DeliveryStatus
  pub timestamp : Text
  pub is_final : Bool

pub record CreateDeviceMessage : Type 0 where
  pub command_type : CommandType
  pub priority : ℤ
  pub plugin_id : Text
  pub request_data : Option RequestData
  pub phase : Option Phase
  pub network_id : Option ℕ
  pub correlation_id : Option Text
  pub device : Device

-- `delivery_queue_id` is the empty text before the network server has taken the message.
pub record DeviceMessage : Type 0 where
  pub id : Text
  pub command_type : CommandType
  pub priority : ℤ
  pub plugin_id : Text
  pub request_data : Option RequestData
  pub phase : Option Phase
  pub network_id : Option ℕ
  pub correlation_id : Option Text
  pub device : Device
  pub delivery_queue_id : Text
  pub delivery_status : DeliveryStatus
  pub response : Option MessageResponse
  pub retry_count : ℕ
  pub failure_history : List FailureReason
  pub concurrency_rate_limit_key : Option Text

pub record ParsedIncomingEvent : Type 0 where
  pub command_type : Option CommandType
  pub delivery_queue_id : Option Text
  pub delivery_status : DeliveryStatus
  pub device : Device
  pub response : Option MessageResponse
  pub unsolicited : Bool
  pub failure_context : Option FailureContext
