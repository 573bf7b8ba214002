-- ===== src/RateLimit/Expiry.antt =====
-- The time to live of a bucket is long enough: when Redis has dropped it, it would be full.
use native.Mathlib.Nat.{lt-div-mul-add, mul-le-mul_right}
use news_crawl_intelligence.Prelude.{
  ℕ, ◌+◌, ◌-◌, ◌*◌, ◌/◌, ◌≤◌, ◌<◌, ◌≡◌, min, leb, some, arith, Bool-cases, inl, inr, refl, leb→le,
}
use news_crawl_intelligence.RateLimit.{Bucket, token, lifetime, stored, refilled}

-- The quotient rounded up is enough.
pub le-ceil : (a rate : ℕ) → 1 ≤ rate → a ≤ (a + rate - 1) / rate * rate
le-ceil a rate h =
    let near : a + rate - 1 < (a + rate - 1) / rate * rate + rate = lt-div-mul-add h in omega arith

lifetime-full : (rate burst : ℕ) → 1 ≤ rate → burst * token ≤ lifetime rate burst * rate
lifetime-full rate burst h = omega (arith, le-ceil (burst * 1000) rate h)

-- A bucket that has been kept: it holds no more than the burst, it is of no later time, and it
-- lives for as long as it needs to fill up.
abbrev pub IsKept : ℕ → ℕ → ℕ → Bucket → Type 0
IsKept rate burst now b =
    (b.tokens ≤ burst * token) × (b.ts ≤ now) × (b.ts + lifetime rate burst ≤ b.expires_at)

-- That Redis drops a bucket which is out of use never shows: a dropped one refills to what it would
-- hold had it been kept.
pub refilled-stored :
    (rate burst now : ℕ) (b : Bucket)
    → 1 ≤ rate
    → IsKept rate burst now b
    → refilled rate burst now (some b) ≡ min (burst * token) (b.tokens + (now - b.ts) * rate)
unfolding refilled stored
refilled-stored rate burst now b h (full, old, live) = elim (Bool-cases (leb b.expires_at now)) [
  | inl e ↦
      let late : lifetime rate burst ≤ now - b.ts = omega (arith, leb→le b.expires_at now e) in
      let more : lifetime rate burst * rate ≤ (now - b.ts) * rate = mul-le-mul_right rate late in
      rw (e) omega (arith, more, lifetime-full rate burst h)
  | inr e ↦ rw (e) refl
]
