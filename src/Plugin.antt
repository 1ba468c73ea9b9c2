-- ===== src/Plugin.antt =====
-- The hardware integration contract, src/plugins/plugin.interface.ts. What a plugin computes is a
-- function of its record; what it asks of a vendor enters the engine's operations as an answer.
pub mod Tuning
pub mod QueueKey
pub mod Registry
use nxt_device_messaging.Common.{ℕ, Text, Option, List}
use nxt_device_messaging.Message.{Device, CommandType, CreateDeviceMessage}

-- The delivery patterns that have a pipeline; a token-only plugin has none.
pub data PipelinePattern : Type 0 where
  push pull : PipelinePattern

pub data Admission : Type 0 where
  spacing : ℕ → Admission
  concurrency : ℕ → Admission

pub record PluginTuning : Type 0 where
  pub ns_in_flight_timeout_ms : ℕ
  pub relay_node_in_flight_timeout_ms : ℕ
  pub device_in_flight_timeout_ms : ℕ
  pub initial_poll_delay_ms : ℕ

pub record DeliveryPlugin : Type 0 where
  pub id : Text
  pub delivery_pattern : PipelinePattern
  pub supported_command_types : List CommandType
  pub initial_queue_key : Option ℕ → Device → Text
  pub validate_enqueue : CreateDeviceMessage → Option Text
  pub admission : Admission
  pub tuning : PluginTuning
  pub relay_node_noun : Option Text

-- A token-only plugin keeps its id only: it has no queue and no pipeline.
pub data DeviceMessagingPlugin : Type 0 where
  delivery : DeliveryPlugin → DeviceMessagingPlugin
  token_only : Text → DeviceMessagingPlugin

-- src/config/schema.ts: the shared retry knobs, with a whole multiplier.
pub record DeliveryConfig : Type 0 where
  pub max_retries : ℕ
  pub retry_base_delay_ms : ℕ
  pub retry_backoff_multiplier : ℕ
  pub retry_max_delay_ms : ℕ
  pub message_ttl_seconds : ℕ
