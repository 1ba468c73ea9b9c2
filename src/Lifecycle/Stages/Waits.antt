-- ===== src/Lifecycle/Stages/Waits.antt =====
-- How long a message waits: the retry delay, the poll ladder and the reschedule wait.
use native.Mathlib.Nat.{one-le-pow, pow-le-pow_right}
use nxt_device_messaging.Common.{ℕ, ◌+◌, ◌*◌, ◌/◌, ◌^◌, ◌≤◌, ◌<◌, ◌≡◌, refl, arith}
use nxt_device_messaging.Plugin.{PluginTuning, DeliveryConfig}
use nxt_device_messaging.Lifecycle.Stages.{
  StageName, ns, relay_node, device, awaiting_task, retry, stages, default_poll_ladder_ms,
  capped_delay, jitter, calculate_backoff_delay, reschedule_wait_ms_for, StageRescheduleContext,
}

mul_mono : (r m c : ℕ) → r ≤ m → r * c ≤ m * c
mul_mono r m c h = grind arith

jitter_bound : (random capped : ℕ) → random < 2 ^ 53 → jitter random capped ≤ capped / 2
unfolding jitter
jitter_bound random capped h = omega (arith, mul_mono random (2 ^ 53) capped (omega arith))

-- With a draw below 2 ^ 53 the delay lies between the capped exponential and one and a half times
-- it, and so it never passes one and a half times the configured maximum.
pub calculate_backoff_delay_bounds :
    (retry_count random : ℕ) (d : DeliveryConfig)
    → random < 2 ^ 53
    → (capped_delay retry_count d ≤ calculate_backoff_delay retry_count d random)
      × (calculate_backoff_delay retry_count d random
          ≤ capped_delay retry_count d + capped_delay retry_count d / 2)
      × (calculate_backoff_delay retry_count d random
          ≤ d.retry_max_delay_ms + d.retry_max_delay_ms / 2)
unfolding calculate_backoff_delay
calculate_backoff_delay_bounds k random d h =
    (omega arith, omega (arith, bound), omega (arith, bound, capped))
  where
    bound : jitter random (capped_delay k d) ≤ capped_delay k d / 2
    bound = jitter_bound random (capped_delay k d) h

    capped : capped_delay k d ≤ d.retry_max_delay_ms
    capped = unfold capped_delay in omega arith

mul_mono_right : (a b c : ℕ) → b ≤ c → a * b ≤ a * c
mul_mono_right a b c h = grind arith

-- The capped delay never falls from an attempt to a later one, for a multiplier of at least one.
pub capped_delay_mono :
    (j k : ℕ) (d : DeliveryConfig)
    → 1 ≤ d.retry_backoff_multiplier
    → j ≤ k
    → capped_delay j d ≤ capped_delay k d
unfolding capped_delay
capped_delay_mono j k d one_le h = omega (
  arith,
  mul_mono_right d.retry_base_delay_ms (d.retry_backoff_multiplier ^ j)
      (d.retry_backoff_multiplier ^ k) (pow-le-pow_right one_le h),
)

-- The poll ladder stays between ten and thirty seconds, and an older message is never polled more
-- often.
pub default_poll_ladder_ms_mono :
    (age age' : ℕ)
    → age ≤ age'
    → (default_poll_ladder_ms age ≤ default_poll_ladder_ms age')
      × (10000 ≤ default_poll_ladder_ms age)
      × (default_poll_ladder_ms age' ≤ 30000)
unfolding default_poll_ladder_ms
default_poll_ladder_ms_mono age age' h = (ground arith, ground arith, ground arith)

abbrev pub IsPositive : PluginTuning → Type 0
IsPositive t =
    (0 < t.ns_in_flight_timeout_ms)
    × (0 < t.relay_node_in_flight_timeout_ms)
    × (0 < t.device_in_flight_timeout_ms)
    × (0 < t.initial_poll_delay_ms)

abbrev pub row_wait : StageName → StageRescheduleContext → ℕ
row_wait ns c = c.tuning.ns_in_flight_timeout_ms
row_wait relay_node c = c.tuning.relay_node_in_flight_timeout_ms
row_wait device c = c.tuning.device_in_flight_timeout_ms
row_wait awaiting_task c = default_poll_ladder_ms c.message_age_ms
row_wait retry c = calculate_backoff_delay c.message.retry_count c.delivery c.random

abbrev pub IsValid : DeliveryConfig → Type 0
IsValid d =
    (0 < d.retry_base_delay_ms) × (1 ≤ d.retry_backoff_multiplier) × (0 < d.retry_max_delay_ms)

mul_pos : (a b : ℕ) → 0 < a → 1 ≤ b → 0 < a * b
mul_pos a b h k = grind arith

calculate_backoff_delay_pos :
    (k random : ℕ) (d : DeliveryConfig) → IsValid d → 0 < calculate_backoff_delay k d random
unfolding calculate_backoff_delay capped_delay
calculate_backoff_delay_pos k random d v = omega (
  arith,
  mul_pos d.retry_base_delay_ms (d.retry_backoff_multiplier ^ k) v.0
      (one-le-pow k d.retry_backoff_multiplier v.1),
)

-- With positive knobs, as the schemas ask for, a member that still waits gets a positive wait: the
-- timeout of its own row again, or in the awaiting-task stage the poll ladder at its age.
pub reschedule_wait_ms_for_lem :
    (st : StageName) (c : StageRescheduleContext)
    → IsPositive c.tuning
    → IsValid c.delivery
    → (reschedule_wait_ms_for (stages st) c ≡ row_wait st c)
      × (0 < reschedule_wait_ms_for (stages st) c)
unfolding reschedule_wait_ms_for default_poll_ladder_ms
reschedule_wait_ms_for_lem ns c t v = (refl, omega arith)
reschedule_wait_ms_for_lem relay_node c t v = (refl, omega arith)
reschedule_wait_ms_for_lem device c t v = (refl, omega arith)
reschedule_wait_ms_for_lem awaiting_task c t v = (refl, ground arith)
reschedule_wait_ms_for_lem retry c t v =
    (refl, calculate_backoff_delay_pos c.message.retry_count c.random c.delivery v)
