-- ===== src/Backoff/Doubling.antt =====
-- The delays of `compute_backoff_seconds` double up to a cap, and the jitter stays in its band.
use native.Mathlib.Nat.{pow-suc, one-le-pow}
use news_crawl_intelligence.Prelude.{ℕ, zero, suc, ◌*◌, ◌/◌, ◌^◌, ◌≤◌, min, ◌≡◌, arith}
use news_crawl_intelligence.Backoff.{
  Uniform, IsUniform, second, base_seconds, max_seconds, backoff_delay, compute_backoff_seconds,
}

backoff_delay-pos : (n : ℕ) → backoff_delay (suc n) ≡ min (base_seconds * 2 ^ n) max_seconds
unfolding backoff_delay
backoff_delay-pos n = ground arith

-- The first failure waits a minute, every further one twice as long, up to six hours.
pub backoff_delay-suc :
    (n : ℕ) → 1 ≤ n → backoff_delay (suc n) ≡ min (2 * backoff_delay n) max_seconds
backoff_delay-suc zero h = absurd (omega arith)
backoff_delay-suc (suc n) h =
    omega (arith, backoff_delay-pos n, backoff_delay-pos (suc n), pow-suc 2 n)

pub backoff_delay_bounds :
    (n : ℕ) → (base_seconds ≤ backoff_delay n) × (backoff_delay n ≤ max_seconds)
backoff_delay_bounds zero = unfold backoff_delay in omega arith
backoff_delay_bounds (suc n) = omega (arith, backoff_delay-pos n, one-le-pow n 2 (omega arith))

-- A retry waits the exponential delay, at most a fifth of it less or more, and so at least 48
-- seconds and at most 7 hours and 12 minutes, if the random draw lies in its interval.
pub compute_backoff_seconds_bounds :
    (uniform : Uniform) (retry_count : ℕ)
    → IsUniform uniform
    → (4 * backoff_delay retry_count ≤ 5 * compute_backoff_seconds uniform retry_count)
      × (5 * compute_backoff_seconds uniform retry_count ≤ 6 * backoff_delay retry_count)
      × (48 * second ≤ compute_backoff_seconds uniform retry_count)
      × (compute_backoff_seconds uniform retry_count ≤ 25920 * second)
unfolding compute_backoff_seconds
compute_backoff_seconds_bounds uniform n h =
    omega (arith, backoff_delay_bounds n, h (2 * (backoff_delay n / 5)))
