-- ===== src/RateLimit/Politeness.antt =====
-- The wait before a download (apps/crawler/newscrawl_crawler/middlewares.py). Waits and sleeps are times
-- the rate, as in `RateLimit`.
use news_crawl_intelligence.Prelude.{
  ℕ, zero, suc, ◌+◌, ◌-◌, ◌*◌, ◌≤◌, ◌≡◌, ◌⊎◌, inl, inr, min, leb, ◌==◌, Bool, true, false, String,
  Option, none, some, str_eq, arith, if◌then◌else◌, refl, leb→le, if_cases, ap, ◌∙◌,
}
use news_crawl_intelligence.Backoff.{second}
use news_crawl_intelligence.RateLimit.{Bucket, acquire}
use news_crawl_intelligence.RateLimit.Bound.{refused_tokens, acquire_after_wait}

abbrev pub max_politeness_wait : ℕ
max_politeness_wait = 30 * second

-- What the n-th call of `acquire` finds in Redis, and when: the other workers use the bucket too.
abbrev pub Seen : Type 0
Seen = ℕ → ℕ × Option Bucket

-- Whether the limiter allowed the request, and how long it waited.
pub record Pass : Type 0 where
  pub allowed : Bool
  pub waited : ℕ

-- The sleep: the wait, but no more than is left, or a tenth of a second if that is nothing.
abbrev pub sleep_for : ℕ → ℕ → ℕ → ℕ
sleep_for rate wait waited =
    let least = min wait (max_politeness_wait * rate - waited) in
    if least == 0 then 100000 * rate else least

-- The loop on fuel: `n` calls of `acquire` have been made.
unfoldable pub wait_turn : ℕ → ℕ → Seen → ℕ → ℕ → ℕ → Option Pass
unfolding acquire
wait_turn rate burst seen zero n waited = none
wait_turn rate burst seen (suc fuel) n waited =
    let (now, bucket) = seen n in
    let (b, allowed, wait) = acquire rate burst now bucket in
    let again = wait_turn rate burst seen fuel (suc n) (waited + sleep_for rate wait waited) in
    if allowed
    then some (record { allowed = true; waited = waited })
    else if leb (max_politeness_wait * rate) waited
    then some (record { allowed = false; waited = waited })
    else again

-- A URL without a host passes at once.
unfoldable pub process_request : ℕ → ℕ → Seen → ℕ → Option String → Option Pass
unfolding wait_turn
process_request rate burst seen fuel none = some (record { allowed = true; waited = 0 })
process_request rate burst seen fuel (some host) =
    if str_eq host ""
    then some (record { allowed = true; waited = 0 })
    else wait_turn rate burst seen fuel 0 0

-- How a request ends.
abbrev pub IsPassed : ℕ → Pass → Type 0
IsPassed rate p =
    (p.waited ≤ max_politeness_wait * rate)
    × ((p.allowed ≡ true) ⊎ (p.waited ≡ max_politeness_wait * rate))

-- Two calls of `acquire`, of which the second comes after the sleep and finds the bucket as the first
-- left it.
pub record IsAlone (rate burst : ℕ) (seen : Seen) : Type 0 where
  pub undisturbed : (seen 1).1 ≡ some (acquire rate burst (seen 0).0 (seen 0).1).0
  pub later : (seen 0).0 ≤ (seen 1).0
  pub slept :
      min (acquire rate burst (seen 0).0 (seen 0).1).2 (max_politeness_wait * rate)
      ≤ ((seen 1).0 - (seen 0).0) * rate

-- How the turn of one worker ends: it waits no longer than it was told by the first call.
abbrev pub EndsAlone : ℕ → ℕ → Seen → Option Pass → Type 0
EndsAlone rate burst seen result =
    (p : Pass) × (result ≡ some p)
    × IsPassed rate p
    × (p.waited ≤ (acquire rate burst (seen 0).0 (seen 0).1).2)

sleep_for-min :
    (rate wait : ℕ)
    → 1 ≤ rate
    → 1 ≤ wait
    → sleep_for rate wait 0 ≡ min wait (max_politeness_wait * rate)
sleep_for-min rate wait pos some_wait = ground arith

-- A second call that comes when it was told to passes.
second_call :
    (rate burst : ℕ) (seen : Seen)
    → 1 ≤ rate
    → 1 ≤ burst
    → IsAlone rate burst seen
    → (acquire rate burst (seen 0).0 (seen 0).1).1 ≡ false
    → (acquire rate burst (seen 0).0 (seen 0).1).2 ≤ max_politeness_wait * rate
    → (acquire rate burst (seen 1).0 (seen 1).1).1 ≡ true
second_call rate burst seen pos room alone refuses short =
    ap (λ b. (acquire rate burst (seen 1).0 b).1) alone.undisturbed
    ∙ acquire_after_wait rate burst (seen 0).0 (seen 1).0 (seen 0).1 pos room refuses alone.later
        (omega (arith, alone.slept))

wait_turn-EndsAlone :
    (rate burst : ℕ) (seen : Seen)
    → 1 ≤ rate
    → 1 ≤ burst
    → IsAlone rate burst seen
    → EndsAlone rate burst seen (wait_turn rate burst seen 2 0 0)
unfolding wait_turn
wait_turn-EndsAlone rate burst seen pos room alone =
    let ends = EndsAlone rate burst seen in
    let longest = max_politeness_wait * rate in
    let wait = (acquire rate burst (seen 0).0 (seen 0).1).2 in
    let slept = 0 + sleep_for rate wait 0 in
    if_cases ends (acquire rate burst (seen 0).0 (seen 0).1).1
      (λ _. (record { allowed = true; waited = 0 }, refl, (omega arith, inl refl), omega arith))
      (λ refuses.
        let (short, exact) = refused_tokens rate burst (seen 0).0 (seen 0).1 refuses in
        let least = sleep_for-min rate wait pos (omega arith) in
        if_cases ends (leb longest 0) (λ over. absurd (omega (arith, leb→le longest 0 over)))
          (λ _.
            if_cases ends (acquire rate burst (seen 1).0 (seen 1).1).1
              (λ _. (
                record { allowed = true; waited = slept },
                refl,
                (omega (arith, least), inl refl),
                omega (arith, least),
              ))
              (λ again.
                if_cases ends (leb longest slept)
                  (λ over. (
                    record { allowed = false; waited = slept },
                    refl,
                    (omega (arith, least), inr (omega (arith, least, leb→le longest slept over))),
                    omega (arith, least),
                  ))
                  (λ more.
                    let passes =
                      second_call rate burst seen pos room alone refuses
                        (ground (arith, least, more)) in
                    absurd (ground (arith, again, passes))))))

-- If the rate and the burst are not zero, and no other worker uses the bucket between its calls,
-- then a worker needs at most two calls to get its turn: it waits no longer than the first call
-- told it to, and no longer than the longest wait, and it passes unless it has waited so long.
pub process_request_ends :
    (rate burst : ℕ) (seen : Seen) (host : String)
    → 1 ≤ rate
    → 1 ≤ burst
    → IsAlone rate burst seen
    → EndsAlone rate burst seen (process_request rate burst seen 2 (some host))
unfolding process_request
process_request_ends rate burst seen host pos room alone =
    if_cases (EndsAlone rate burst seen) (str_eq host "")
      (λ _. (record { allowed = true; waited = 0 }, refl, (omega arith, inl refl), omega arith))
      (λ _. wait_turn-EndsAlone rate burst seen pos room alone)
