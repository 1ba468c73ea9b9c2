-- ===== src/Plugin/Tuning.antt =====
-- src/plugins/_shared/merge-plugin-tuning.ts: the tuning of a plugin, from the defaults of the service,
-- those of the plugin, and the entry of the configuration, which the schema has parsed already.
use nxt_device_messaging.Common.{ℕ, ◌<◌, Option, none, some, arith}
use nxt_device_messaging.Plugin.{PluginTuning}
use nxt_device_messaging.Lifecycle.Stages.Waits.{IsPositive}

pub record TuningOverride : Type 0 where
  pub ns_in_flight_timeout_ms : Option ℕ
  pub relay_node_in_flight_timeout_ms : Option ℕ
  pub device_in_flight_timeout_ms : Option ℕ
  pub initial_poll_delay_ms : Option ℕ

abbrev pub default_plugin_tuning : PluginTuning
default_plugin_tuning = record {
  ns_in_flight_timeout_ms = 20000;
  relay_node_in_flight_timeout_ms = 900000;
  device_in_flight_timeout_ms = 12000;
  initial_poll_delay_ms = 10000;
}

abbrev or_default : ℕ → Option ℕ → ℕ
or_default n none = n
or_default n (some v) = v

-- The spread of an override over a tuning.
abbrev pub override : PluginTuning → TuningOverride → PluginTuning
override t o = record {
  ns_in_flight_timeout_ms = or_default t.ns_in_flight_timeout_ms o.ns_in_flight_timeout_ms;
  relay_node_in_flight_timeout_ms =
      or_default t.relay_node_in_flight_timeout_ms o.relay_node_in_flight_timeout_ms;
  device_in_flight_timeout_ms =
      or_default t.device_in_flight_timeout_ms o.device_in_flight_timeout_ms;
  initial_poll_delay_ms = or_default t.initial_poll_delay_ms o.initial_poll_delay_ms;
}

abbrev override_if : PluginTuning → Option TuningOverride → PluginTuning
override_if t none = t
override_if t (some o) = override t o

pub merge_plugin_tuning : Option TuningOverride → Option TuningOverride → PluginTuning
merge_plugin_tuning entry overrides =
    override_if (override_if default_plugin_tuning overrides) entry

abbrev pub PositiveIfSet : Option ℕ → Type 0
PositiveIfSet none = Unit
PositiveIfSet (some n) = 0 < n

abbrev pub IsPositiveOverride : Option TuningOverride → Type 0
IsPositiveOverride none = Unit
IsPositiveOverride (some o) =
    PositiveIfSet o.ns_in_flight_timeout_ms
    × PositiveIfSet o.relay_node_in_flight_timeout_ms
    × PositiveIfSet o.device_in_flight_timeout_ms
    × PositiveIfSet o.initial_poll_delay_ms

or_default_pos : (n : ℕ) (o : Option ℕ) → 0 < n → PositiveIfSet o → 0 < or_default n o
or_default_pos n none h p = h
or_default_pos n (some v) h p = p

override_if-IsPositive :
    (t : PluginTuning) (o : Option TuningOverride)
    → IsPositive t
    → IsPositiveOverride o
    → IsPositive (override_if t o)
override_if-IsPositive t none h p = h
override_if-IsPositive t (some o) (h1, h2, h3, h4) (p1, p2, p3, p4) = (
  or_default_pos _ _ h1 p1,
  or_default_pos _ _ h2 p2,
  or_default_pos _ _ h3 p3,
  or_default_pos _ _ h4 p4,
)

-- With positive overrides, as the schema asks for of the configuration's, the tuning of a plugin is
-- positive in every knob.
pub merge_plugin_tuning-IsPositive :
    (entry overrides : Option TuningOverride)
    → IsPositiveOverride entry
    → IsPositiveOverride overrides
    → IsPositive (merge_plugin_tuning entry overrides)
unfolding merge_plugin_tuning
merge_plugin_tuning-IsPositive entry overrides e o =
    override_if-IsPositive (override_if default_plugin_tuning overrides) entry
      (override_if-IsPositive default_plugin_tuning overrides
        (omega arith, omega arith, omega arith, omega arith) o)
      e
