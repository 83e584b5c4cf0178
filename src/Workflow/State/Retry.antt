-- ===== src/Workflow/State/Retry.antt =====
-- The backoff.
use farm_exc.Prelude.{ℕ, ◌+◌, ◌*◌, ◌/◌, ◌^◌, ◌≤◌, ◌<◌, arith}
use farm_exc.Workflow.State.{calculate_next_retry_time}

mul_mono : (a b c : ℕ) → a ≤ b → a * c ≤ b * c
mul_mono a b c h = grind arith

-- Every retry waits for at least the exponential delay, and for at most a tenth more.
pub calculate_next_retry_time_bounds :
    (now sample retry_count base_delay : ℕ)
    → sample < 2 ^ 53
    → (now + base_delay * 2 ^ retry_count
        ≤ calculate_next_retry_time now sample retry_count base_delay)
      × (calculate_next_retry_time now sample retry_count base_delay
          ≤ now + base_delay * 2 ^ retry_count + base_delay * 2 ^ retry_count / 10)
unfolding calculate_next_retry_time
calculate_next_retry_time_bounds now sample retry_count base_delay h =
    omega (arith, mul_mono sample (2 ^ 53) (base_delay * 2 ^ retry_count) (omega arith))
