-- ===== src/Examples/OfKnobs.antt =====
-- The webhook's backoff and the tuning of a plugin at concrete inputs.
use nxt_device_messaging.Common.{none, some}
use nxt_device_messaging.Webhook.{EventWebhookConfig}
use nxt_device_messaging.Plugin.Tuning.{TuningOverride}

abbrev knobs : EventWebhookConfig
knobs = record {
  base_delay_ms = 500;
  backoff_multiplier = 2;
  max_delay_ms = 30000;
  max_attempts = 6;
}

abbrev slow_device : TuningOverride
slow_device = record {
  ns_in_flight_timeout_ms = none;
  relay_node_in_flight_timeout_ms = none;
  device_in_flight_timeout_ms = some 60000;
  initial_poll_delay_ms = none;
}
