-- ===== src/Webhook.antt =====
-- src/engine/webhook/backoff.ts: the wait before the next delivery of an event to the adopter. The
-- multiplier is a whole number.
pub mod Outbox
use native.Mathlib.Nat.{pow-le-pow_right}
use nxt_device_messaging.Common.{ℕ, ◌-◌, ◌*◌, ◌^◌, ◌≤◌, min, leb, if◌then◌else◌, arith}

-- The knobs of the webhook that its waits and its end read.
pub record EventWebhookConfig : Type 0 where
  pub base_delay_ms : ℕ
  pub backoff_multiplier : ℕ
  pub max_delay_ms : ℕ
  pub max_attempts : ℕ

abbrev pub safe_count : ℕ → ℕ
safe_count failed_attempt_count = if leb 1 failed_attempt_count then failed_attempt_count else 1

unfoldable pub calculate_webhook_backoff_delay : ℕ → EventWebhookConfig → ℕ
calculate_webhook_backoff_delay failed_attempt_count c =
    min (c.base_delay_ms * c.backoff_multiplier ^ (safe_count failed_attempt_count - 1))
      c.max_delay_ms

safe_count_mono : (j k : ℕ) → j ≤ k → safe_count j - 1 ≤ safe_count k - 1
safe_count_mono j k h = ground arith

mul_mono_right : (a b c : ℕ) → b ≤ c → a * b ≤ a * c
mul_mono_right a b c h = grind arith

-- For a multiplier of at least one, the wait never falls from a failed attempt to a later one, and it
-- never passes the configured maximum.
pub calculate_webhook_backoff_delay_mono :
    (j k : ℕ) (c : EventWebhookConfig)
    → 1 ≤ c.backoff_multiplier
    → j ≤ k
    → (calculate_webhook_backoff_delay j c ≤ calculate_webhook_backoff_delay k c)
      × (calculate_webhook_backoff_delay k c ≤ c.max_delay_ms)
unfolding calculate_webhook_backoff_delay
calculate_webhook_backoff_delay_mono j k c one_le h = (
  omega (
    arith,
    mul_mono_right c.base_delay_ms (c.backoff_multiplier ^ (safe_count j - 1))
        (c.backoff_multiplier ^ (safe_count k - 1))
        (pow-le-pow_right one_le (safe_count_mono j k h)),
  ),
  omega arith,
)
