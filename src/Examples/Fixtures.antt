-- ===== src/Examples/Fixtures.antt =====
-- A plugin, a registry, the shared retry knobs and a message, with values of the size that the
-- service runs with.
use nxt_device_messaging.Common.{txt, text_discrete, pos, none, some, [], ◌∷◌, ite}
use nxt_device_messaging.Message.{Device, CreateDeviceMessage, DeviceMessage, read_credit, queued}
use nxt_device_messaging.Plugin.{
  push, concurrency, PluginTuning, DeliveryPlugin, DeliveryConfig, delivery,
}
use nxt_device_messaging.Lifecycle.Home.{Registry}

abbrev pub tuning : PluginTuning
tuning = record {
  ns_in_flight_timeout_ms = 30000;
  relay_node_in_flight_timeout_ms = 60000;
  device_in_flight_timeout_ms = 90000;
  initial_poll_delay_ms = 5000;
}

abbrev pub acme : DeliveryPlugin
acme = record {
  id = txt "acme";
  delivery_pattern = push;
  supported_command_types = read_credit ∷ [];
  initial_queue_key = λ network d. txt "q";
  validate_enqueue = λ dto. none;
  admission = concurrency 2;
  tuning = tuning;
  relay_node_noun = none;
}

-- The registry with that plugin alone.
abbrev pub one_plugin : Registry
one_plugin id = ite (text_discrete id (txt "acme")) (some (delivery acme)) none

abbrev pub config : DeliveryConfig
config = record {
  max_retries = 3;
  retry_base_delay_ms = 1000;
  retry_backoff_multiplier = 2;
  retry_max_delay_ms = 60000;
  message_ttl_seconds = 86400;
}

abbrev pub meter : Device
meter = record { external_reference = txt "m1"; relay_node = none }

abbrev pub dto : CreateDeviceMessage
dto = record {
  command_type = read_credit;
  priority = pos 5;
  plugin_id = txt "acme";
  request_data = none;
  phase = none;
  network_id = some 7;
  correlation_id = some (txt "c1");
  device = meter;
}

-- The message of `dto` under the id "a", as a read of its hash gives it before it is sent.
abbrev pub message : DeviceMessage
message = record {
  id = txt "a";
  command_type = read_credit;
  priority = pos 5;
  plugin_id = txt "acme";
  request_data = none;
  phase = none;
  network_id = some 7;
  correlation_id = some (txt "c1");
  device = meter;
  delivery_queue_id = [];
  delivery_status = queued;
  response = none;
  retry_count = 0;
  failure_history = [];
  concurrency_rate_limit_key = none;
}
