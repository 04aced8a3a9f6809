-- ===== src/Workflow/Retry/Backoff.antt =====
-- workflow-retry-policy.ts, `computeRetryBackoffMs`: how the delay grows with the attempts.
use athena_console.Prelude.{ℕ, ◌≤◌, max, arith}
use native.Mathlib.Nat.{mul-le-mul_left, pow-le-pow_right}
use athena_console.Workflow.Retry.{
  RetryBackoff, no_backoff, fixed, linear, exponential, compute_retry_backoff_ms,
  max_retry_delay_ms, uncapped_ms,
}

uncapped_le :
    (backoff : RetryBackoff) (m n base_ms : ℕ)
    → m ≤ n
    → uncapped_ms backoff m base_ms ≤ uncapped_ms backoff n base_ms
uncapped_le no_backoff m n base_ms h = omega arith
uncapped_le fixed m n base_ms h = omega arith
uncapped_le linear m n base_ms h = mul-le-mul_left base_ms h
uncapped_le exponential m n base_ms h =
    mul-le-mul_left base_ms (pow-le-pow_right (omega arith) (omega arith))

-- The delay is at most a minute, and does not shrink as the attempts grow.
pub compute_retry_backoff_ms-bounds :
    (backoff : RetryBackoff) (m n base_ms : ℕ)
    → m ≤ n
    → (compute_retry_backoff_ms backoff m base_ms ≤ compute_retry_backoff_ms backoff n base_ms)
      × (compute_retry_backoff_ms backoff n base_ms ≤ max_retry_delay_ms)
unfolding compute_retry_backoff_ms
compute_retry_backoff_ms-bounds backoff m n base_ms h =
    let grows = uncapped_le backoff (max 1 m) (max 1 n) base_ms (omega arith) in
    (omega arith, omega arith)
