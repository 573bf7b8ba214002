-- ===== src/RateLimit/Bound.antt =====
-- However many workers ask, and however often: no more requests pass than the bucket's burst and
-- the tokens that flow in.
use native.Mathlib.Nat.{add-mul}
use news_crawl_intelligence.Prelude.{
  ℕ, ◌+◌, ◌-◌, ◌*◌, ◌≤◌, ◌≡◌, min, leb, true, false, List, [], ◌∷◌, Option, some, arith,
  if◌then◌else◌, Bool-cases, inl, inr, refl, leb→le, le→leb, ◌<◌, sym, ap, ◌∙◌,
}
use news_crawl_intelligence.RateLimit.{Bucket, token, refilled, acquire}
use news_crawl_intelligence.RateLimit.Expiry.{IsKept, refilled-stored}

-- The requests that pass, of those that ask at the given times.
unfoldable pub passed : ℕ → ℕ → List ℕ → Option Bucket → ℕ
unfolding acquire
passed rate burst [] b = 0
passed rate burst (t ∷ times) b =
    let (b', allowed, wait) = acquire rate burst t b in
    (if allowed then 1 else 0) + passed rate burst times (some b')

-- Times in order, from `t` on, and the last of them.
abbrev pub IsOrdered : ℕ → List ℕ → Type 0
IsOrdered t [] = Unit
IsOrdered t (u ∷ times) = (t ≤ u) × IsOrdered u times

abbrev pub last_time : ℕ → List ℕ → ℕ
last_time t [] = t
last_time t (u ∷ times) = last_time u times

last_time-le : (t : ℕ) (times : List ℕ) → IsOrdered t times → t ≤ last_time t times
last_time-le t [] h = omega arith
last_time-le t (u ∷ times) (h, hs) = omega (arith, last_time-le u times hs)

-- A request takes a token from the bucket if it passes, and none otherwise.
acquire-tokens :
    (rate burst t : ℕ) (b : Option Bucket)
    → token * (if (acquire rate burst t b).1 then 1 else 0) + (acquire rate burst t b).0.tokens
      ≡ refilled rate burst t b
unfolding acquire
acquire-tokens rate burst t b = elim (Bool-cases (leb token (refilled rate burst t b))) [
  | inl e ↦ rw (e) omega (arith, leb→le token (refilled rate burst t b) e)
  | inr e ↦ rw (e) omega arith
]

refilled-le : (rate burst t : ℕ) (b : Option Bucket) → refilled rate burst t b ≤ burst * token
unfolding refilled
refilled-le rate burst t b = omega arith

acquire-IsKept :
    (rate burst t u : ℕ) (b : Option Bucket)
    → t ≤ u
    → IsKept rate burst u (acquire rate burst t b).0
unfolding acquire
acquire-IsKept rate burst t u b h = elim (Bool-cases (leb token (refilled rate burst t b))) [
  | inl e ↦ rw (e) omega (arith, refilled-le rate burst t b)
  | inr e ↦ rw (e) omega (arith, refilled-le rate burst t b)
]

acquire-ts : (rate burst t : ℕ) (b : Option Bucket) → (acquire rate burst t b).0.ts ≡ t
unfolding acquire
acquire-ts rate burst t b = elim (Bool-cases (leb token (refilled rate burst t b))) [
  | inl e ↦ rw (e) refl
  | inr e ↦ rw (e) refl
]

-- Between two requests no more flows in than the rate gives.
refilled_after :
    (rate burst t u : ℕ) (b : Option Bucket)
    → 1 ≤ rate
    → t ≤ u
    → refilled rate burst u (some (acquire rate burst t b).0)
      ≤ (acquire rate burst t b).0.tokens + (u - t) * rate
refilled_after rate burst t u b pos h =
    let b' : Bucket = (acquire rate burst t b).0 in
    let kept : refilled rate burst u (some b')
        ≡ min (burst * token) (b'.tokens + (u - b'.ts) * rate) =
      refilled-stored rate burst u b' pos (acquire-IsKept rate burst t u b h) in
    let same : (u - b'.ts) * rate ≡ (u - t) * rate =
      ap (λ s. (u - s) * rate) (acquire-ts rate burst t b) in
    omega (arith, kept, same)

span : (rate t u v : ℕ) → t ≤ u → u ≤ v → (u - t) * rate + (v - u) * rate ≡ (v - t) * rate
span rate t u v h h' = sym (add-mul (u - t) (v - u) rate) ∙ ap (λ d. d * rate) (omega arith)

passed-level :
    (rate burst t : ℕ) (times : List ℕ) (b : Option Bucket)
    → 1 ≤ rate
    → IsOrdered t times
    → token * passed rate burst (t ∷ times) b
      ≤ refilled rate burst t b + (last_time t times - t) * rate
unfolding passed
passed-level rate burst t [] b pos order = omega (arith, acquire-tokens rate burst t b)
passed-level rate burst t (u ∷ times) b pos (le, order) =
    let b' : Bucket = (acquire rate burst t b).0 in
    let rest : token * passed rate burst (u ∷ times) (some b')
        ≤ refilled rate burst u (some b') + (last_time u times - u) * rate =
      passed-level rate burst u times (some b') pos order in
    let flows = refilled_after rate burst t u b pos le in
    let whole = span rate t u (last_time u times) le (last_time-le u times order) in
    omega (arith, acquire-tokens rate burst t b, rest, flows, whole)

-- Whatever the bucket is, and if the rate is not zero: the requests that pass, of those that all
-- workers make for a domain at times in order, are no more than the burst and the tokens that the
-- rate gives between the first and the last of them.
pub passed_bound :
    (rate burst t : ℕ) (times : List ℕ) (b : Option Bucket)
    → 1 ≤ rate
    → IsOrdered t times
    → token * passed rate burst (t ∷ times) b ≤ burst * token + (last_time t times - t) * rate
passed_bound rate burst t times b pos order =
    omega (arith, passed-level rate burst t times b pos order, refilled-le rate burst t b)

-- What a request that is refused waits for.
pub refused_tokens :
    (rate burst t : ℕ) (b : Option Bucket)
    → (acquire rate burst t b).1 ≡ false
    → ((acquire rate burst t b).0.tokens < token)
      × ((acquire rate burst t b).2 ≡ token - (acquire rate burst t b).0.tokens)
unfolding acquire
refused_tokens rate burst t b = elim (Bool-cases (leb token (refilled rate burst t b))) [
  | inl e ↦ rw (e) (λ h. absurd (ground arith))
  | inr e ↦ rw (e) (λ h. (ground arith, refl))
]

acquire_full :
    (rate burst t : ℕ) (b : Option Bucket)
    → token ≤ refilled rate burst t b
    → (acquire rate burst t b).1 ≡ true
unfolding acquire
acquire_full rate burst t b h = rw (le→leb token (refilled rate burst t b) h) refl

-- A request that is refused, and asks again no sooner than it was told, passes, if the rate and
-- the burst are not zero and nobody else has asked meanwhile.
pub acquire_after_wait :
    (rate burst t u : ℕ) (b : Option Bucket)
    → 1 ≤ rate
    → 1 ≤ burst
    → (acquire rate burst t b).1 ≡ false
    → t ≤ u
    → (acquire rate burst t b).2 ≤ (u - t) * rate
    → (acquire rate burst u (some (acquire rate burst t b).0)).1 ≡ true
acquire_after_wait rate burst t u b pos room refuses later waits =
    let b' : Bucket = (acquire rate burst t b).0 in
    let (short, wait) = refused_tokens rate burst t b refuses in
    let kept : refilled rate burst u (some b')
        ≡ min (burst * token) (b'.tokens + (u - b'.ts) * rate) =
      refilled-stored rate burst u b' pos (acquire-IsKept rate burst t u b later) in
    let same : (u - b'.ts) * rate ≡ (u - t) * rate =
      ap (λ s. (u - s) * rate) (acquire-ts rate burst t b) in
    acquire_full rate burst u (some b') (omega arith)
