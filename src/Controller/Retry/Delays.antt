-- ===== src/Controller/Retry/Delays.antt =====
-- The waits between retries.
use mlx_serving.Prelude.{ℕ, suc, ◌+◌, ◌-◌, ◌*◌, ◌^◌, ◌≤◌, ◌≡◌, min, true, arith, ap, ◌∙◌}
use native.Mathlib.Nat.{two-pow-succ}
use mlx_serving.Controller.Retry.{RetryConfig, calculate_delay}

doubled : (d n : ℕ) → d * 2 ^ suc n ≡ d * 2 ^ n + d * 2 ^ n
doubled d n = ap (λ t. d * t) (two-pow-succ n) ∙ omega arith

minus_one : (n : ℕ) → (n + 2 - 1 ≡ suc n) × (n + 1 - 1 ≡ n)
minus_one n = omega arith

-- With exponential backoff the wait before the first retry is the configured delay, each further
-- wait is twice the one before, and none passes the maximum.
pub calculate_delay-doubles :
    (c : RetryConfig) (n : ℕ)
    → c.exponential_backoff ≡ true
    → c.retry_delay_ms ≤ c.max_delay_ms
    → (calculate_delay c 1 ≡ c.retry_delay_ms)
      × (calculate_delay c (n + 2) ≡ min (2 * calculate_delay c (n + 1)) c.max_delay_ms)
      × (calculate_delay c (n + 1) ≤ c.max_delay_ms)
unfolding calculate_delay
calculate_delay-doubles c n e l = (
  rw e (omega arith),
  rw (e, (minus_one n).0, (minus_one n).1) (omega (arith, doubled c.retry_delay_ms n)),
  rw e (omega arith),
)
