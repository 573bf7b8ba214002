-- ===== src/Backoff.antt =====
-- packages/crawler-utils/newscrawl_crawler_utils/backoff.py. A duration is a number of
-- microseconds, the resolution of Python's `timedelta`.
pub mod Doubling
use news_crawl_intelligence.Prelude.{ℕ, ◌+◌, ◌-◌, ◌*◌, ◌/◌, ◌^◌, ◌≤◌, min, ltb, if◌then◌else◌}

abbrev pub second : ℕ
second = 1_000_000

abbrev pub minute : ℕ
minute = 60 * second

abbrev pub hour : ℕ
hour = 60 * minute

-- `random.uniform(-jitter, jitter)`: the width of the interval gives the distance of the draw from
-- the interval's lower end. The random source is a parameter.
abbrev pub Uniform : Type 0
Uniform = ℕ → ℕ

-- `random.uniform` stays in the interval that it is given.
abbrev pub IsUniform : Uniform → Type 0
IsUniform uniform = (width : ℕ) → uniform width ≤ width

abbrev base_seconds : ℕ
base_seconds = 60 * second

abbrev max_seconds : ℕ
max_seconds = 6 * 3600 * second

-- The delay before jitter.
unfoldable pub backoff_delay : ℕ → ℕ
backoff_delay retry_count =
    let n = if ltb retry_count 1 then 1 else retry_count in
    min (base_seconds * 2 ^ (n - 1)) max_seconds

-- The jitter ratio is 0.2, a fifth.
unfoldable pub compute_backoff_seconds : Uniform → ℕ → ℕ
unfolding backoff_delay
compute_backoff_seconds uniform retry_count =
    let delay = backoff_delay retry_count in
    let jitter = delay / 5 in delay - jitter + uniform (2 * jitter)
