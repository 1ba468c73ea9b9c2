-- ===== src/Examples/OfStages.antt =====
-- The stage table at concrete inputs.
use nxt_device_messaging.Common.{txt, ◌+◌, ◌/◌, ◌≤◌, ◌≡◌, ◌↔◌, ◌⊎◌, true, some, [], ◌∷◌, arith}
use nxt_device_messaging.Message.{delivered_to_ns}
use nxt_device_messaging.Plugin.{push}
use nxt_device_messaging.Lifecycle.Stages.{
  relay_node, device, stages, stage_for_status, capped_delay, calculate_backoff_delay,
  enumerate_stage_keys,
}
use nxt_device_messaging.Lifecycle.Stages.Table.{visits, stage_for_status_iff}
use nxt_device_messaging.Lifecycle.Stages.Waits.{calculate_backoff_delay_bounds}
use nxt_device_messaging.Lifecycle.Stages.Keys.{Distinct, enumerate_stage_keys-Distinct}
use nxt_device_messaging.Examples.Fixtures.{config}

stage_for_status_iff_example : (stage_for_status delivered_to_ns push ≡ some relay_node) ↔ (
    ((stages relay_node).entry_status ≡ delivered_to_ns)
    × ((visits push relay_node ≡ true) ⊎ (relay_node ≡ device)))
stage_for_status_iff_example = stage_for_status_iff delivered_to_ns push relay_node

calculate_backoff_delay_bounds_example :
    (capped_delay 2 config ≤ calculate_backoff_delay 2 config 77)
    × (calculate_backoff_delay 2 config 77 ≤ capped_delay 2 config + capped_delay 2 config / 2)
    × (calculate_backoff_delay 2 config 77 ≤ 60000 + 60000 / 2)
calculate_backoff_delay_bounds_example = calculate_backoff_delay_bounds 2 77 config (omega arith)

enumerate_stage_keys-Distinct_example :
    Distinct (enumerate_stage_keys (txt "acme" ∷ txt "other" ∷ []))
enumerate_stage_keys-Distinct_example =
    enumerate_stage_keys-Distinct (txt "acme" ∷ txt "other" ∷ [])
      (((λ e. ground arith), tt), (tt, tt))
