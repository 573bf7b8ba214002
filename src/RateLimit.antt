-- ===== src/RateLimit.antt =====
-- The politeness limiter: one token bucket per domain, which all workers share
-- (apps/api/newscrawl_api/coordination/ratelimit.py), and the wait of the downloader
-- (apps/crawler/newscrawl_crawler/middlewares.py). Instants are microseconds and a rate is in
-- thousandths of a token per second, so that an elapsed time times the rate is in billionths of a
-- token. A wait is given as the tokens that flow in meanwhile, that is times the rate: in these units
-- the script's arithmetic is exact, and nothing is rounded.
pub mod Bound
pub mod Expiry
pub mod Politeness
use news_crawl_intelligence.Prelude.{
  ℕ, zero, suc, ◌+◌, ◌-◌, ◌*◌, ◌/◌, min, leb, Bool, true, false, String, Option, none, some, str_eq,
  if◌then◌else◌,
}
use news_crawl_intelligence.Backoff.{second}

-- One token.
abbrev pub token : ℕ
token = 1000000000

-- The hash of a bucket, with the time at which Redis drops it.
pub record Bucket : Type 0 where
  pub tokens : ℕ
  pub ts : ℕ
  pub expires_at : ℕ

-- The least number of whole seconds in which a bucket of `burst` tokens fills, and a minute more.
abbrev pub lifetime : ℕ → ℕ → ℕ
lifetime rate burst = ((burst * 1000 + rate - 1) / rate + 60) * second

-- What HMGET gives: the tokens and the time of a bucket that is there, and a full one otherwise.
unfoldable pub stored : ℕ → ℕ → Option Bucket → ℕ × ℕ
stored burst now none = (burst * token, now)
stored burst now (some b) = if leb b.expires_at now then (burst * token, now) else (b.tokens, b.ts)

-- The tokens after the refill. Clocks are taken not to run back, so that `now - ts` is no less than
-- zero.
unfoldable pub refilled : ℕ → ℕ → ℕ → Option Bucket → ℕ
unfolding stored
refilled rate burst now b =
    let (tokens, ts) = stored burst now b in min (burst * token) (tokens + (now - ts) * rate)

-- The new bucket, whether the request is allowed, and the wait, times the rate.
unfoldable pub acquire : ℕ → ℕ → ℕ → Option Bucket → Bucket × Bool × ℕ
unfolding refilled
acquire rate burst now b =
    let tokens = refilled rate burst now b in
    let expires = now + lifetime rate burst in
    if leb token tokens
    then (record { tokens = tokens - token; ts = now; expires_at = expires }, true, 0)
    else (record { tokens = tokens; ts = now; expires_at = expires }, false, token - tokens)

-- The wait that a request would have, times the rate, with no token taken; the peek ignores the burst.
unfoldable pub wait_time : ℕ → ℕ → Option (ℕ × ℕ) → ℕ
wait_time rate now none = 0
wait_time rate now (some (tokens, ts)) =
    let full = min (tokens + (now - ts) * rate) token in if leb token full then 0 else token - full
