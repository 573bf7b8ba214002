-- ===== src/Simhash/Votes.antt =====
-- A bit of the hash is the majority of the votes on it.
use native.Mathlib.Nat.{pow-succ', zero-add, add-zero, div-one}
use native.Mathlib.Numerals.{add-one}
use news_crawl_intelligence.Prelude.{
  ℕ, zero, suc, ◌+◌, ◌*◌, ◌/◌, ◌%◌, ◌^◌, ◌<◌, ◌≡◌, ◌∙◌, ltb, refl, ap, List, [], ◌∷◌, map, arith,
  count_if, length, ◌==◌, if◌then◌else◌,
}
use news_crawl_intelligence.Prelude.Int.{pos, pos_part, neg_part, ltb_ℤ, ◌+ℤ◌}
use news_crawl_intelligence.Simhash.Xor.{shift-suc}
use news_crawl_intelligence.Simhash.{vote, collect, features, simhash64}

-- The features whose hash has a bit, twice, against all of them.
vote_parts :
    (bit : ℕ) (hashes : List ℕ)
    → pos_part (vote bit hashes) + length hashes
      ≡ neg_part (vote bit hashes) + 2 * count_if (λ h. h / 2 ^ bit % 2 == 1) hashes
unfolding vote count_if ◌+ℤ◌
vote_parts bit [] = refl
vote_parts bit (h ∷ hashes) = ground (arith, vote_parts bit hashes)

-- 1 if more of the hashes have the bit than not, else 0.
abbrev pub majority : ℕ → List ℕ → ℕ
majority bit hashes =
    if ltb (length hashes) (2 * count_if (λ h. h / 2 ^ bit % 2 == 1) hashes) then 1 else 0

vote-majority :
    (bit : ℕ) (hashes : List ℕ)
    → (if ltb_ℤ (pos 0) (vote bit hashes) then 2 ^ bit else 0) ≡ 2 ^ bit * majority bit hashes
vote-majority bit hashes = ground (arith, vote_parts bit hashes)

-- The bits from `bit` up, lowest first.
digits_from : ℕ → ℕ → List ℕ → ℕ
digits_from zero bit hashes = 0
digits_from (suc n) bit hashes = majority bit hashes + 2 * digits_from n (bit + 1) hashes

collect-digits_from :
    (n bit : ℕ) (hashes : List ℕ) → collect n bit hashes ≡ 2 ^ bit * digits_from n bit hashes
unfolding collect digits_from
collect-digits_from zero bit hashes = omega arith
collect-digits_from (suc n) bit hashes = omega (
  arith,
  vote-majority bit hashes,
  collect-digits_from n (bit + 1) hashes,
  ap (λ (t : ℕ). t * digits_from n (bit + 1) hashes)
      (ap (λ (k : ℕ). 2 ^ k) (add-one bit) ∙ pow-succ' 2 bit),
)

digits_from_half :
    (n bit : ℕ) (hashes : List ℕ)
    → (digits_from (suc n) bit hashes % 2 ≡ majority bit hashes)
      × (digits_from (suc n) bit hashes / 2 ≡ digits_from n (bit + 1) hashes)
unfolding digits_from
digits_from_half n bit hashes = ground arith

digits_from_bit :
    (n bit i : ℕ) (hashes : List ℕ)
    → i < n
    → digits_from n bit hashes / 2 ^ i % 2 ≡ majority (bit + i) hashes
digits_from_bit zero bit i hashes h = absurd (omega arith)
digits_from_bit (suc n) bit zero hashes h = rw (div-one, add-zero) (digits_from_half n bit hashes).0
digits_from_bit (suc n) bit (suc i) hashes h =
    rw (← shift-suc (digits_from (suc n) bit hashes) i, (digits_from_half n bit hashes).1)
      (digits_from_bit n (bit + 1) i hashes (omega arith)
        ∙ ap (λ k. majority k hashes) (omega arith))

digits_from-lt : (n bit : ℕ) (hashes : List ℕ) → digits_from n bit hashes < 2 ^ n
digits_from-lt zero bit hashes = unfold digits_from in omega arith
digits_from-lt (suc n) bit hashes =
    omega (arith, digits_from_half n bit hashes, digits_from-lt n (bit + 1) hashes, pow-succ' 2 n)

module _ {ℓ} {Word : Type ℓ} (feature_hash : List Word → ℕ) where
  simhash64-digits_from :
      (shingle_size : ℕ) (words : List Word)
      → simhash64 feature_hash shingle_size words
        ≡ digits_from 64 0 (map feature_hash (features shingle_size words))
  unfolding simhash64
  simhash64-digits_from size words =
      omega (arith, collect-digits_from 64 0 (map feature_hash (features size words)))

  -- The hash has 64 bits, and each of them is set exactly when more of the text's features have
  -- it than not.
  pub simhash64_bits :
      (shingle_size : ℕ) (words : List Word) (i : ℕ)
      → i < 64
      → (simhash64 feature_hash shingle_size words < 2 ^ 64)
        × (simhash64 feature_hash shingle_size words / 2 ^ i % 2
            ≡ majority i (map feature_hash (features shingle_size words)))
  simhash64_bits size words i h = rw simhash64-digits_from (
    digits_from-lt 64 0 _,
    digits_from_bit 64 0 i _ h
        ∙ ap (λ k. majority k (map feature_hash (features size words))) (zero-add i),
  )
