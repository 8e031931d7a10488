-- ===== src/Workflow/StateMachine/Retry.antt =====
-- When a failed step is tried again: the limit on attempts and the backoff.
use xlm_pay.Base.{ℕ, ◌+◌, ◌*◌, ◌/◌, ◌^◌, ◌≤◌, ◌<◌, arith}
use xlm_pay.Workflow.StateMachine.{calculate_next_retry_time}

mul_mono_left : (r m e : ℕ) → r ≤ m → r * e ≤ m * e
mul_mono_left r m e h = grind arith

-- A retry is scheduled no sooner than the base delay doubled once for each attempt, and no later
-- than a tenth of that after it, whatever fraction of 1 the random source returns.
pub calculate_next_retry_time_bounds :
    (now random retry_count base_delay : ℕ)
    → random < 2 ^ 53
    → (now + base_delay * 2 ^ retry_count
        ≤ calculate_next_retry_time now random retry_count base_delay)
      × (calculate_next_retry_time now random retry_count base_delay
          ≤ now + base_delay * 2 ^ retry_count + base_delay * 2 ^ retry_count / 10)
unfolding calculate_next_retry_time
calculate_next_retry_time_bounds now random retry_count base_delay h = (
  omega arith,
  omega (arith, mul_mono_left random (2 ^ 53) (base_delay * 2 ^ retry_count) (omega arith)),
)
