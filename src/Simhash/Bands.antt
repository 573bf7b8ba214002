-- ===== src/Simhash/Bands.antt =====
-- Banding: hashes at a small Hamming distance share a band.
use Prim.Native.Nat.{bit_xor}
use native.Mathlib.Decide.{ℕ_discrete}
use news_crawl_intelligence.Prelude.{ℕ, ◌+◌, ◌*◌, ◌/◌, ◌^◌, ◌≤◌, ◌<◌, ◌≡◌, refl, arith}
use news_crawl_intelligence.Simhash.{
  bands, band, bit_count, hamming_distance, default_hamming_threshold,
}
use news_crawl_intelligence.Simhash.Xor.{eq-of-bit_count, bit_count-xor-add}

-- The positions of one band at which two hashes differ.
abbrev band_distance : ℕ → ℕ → ℕ → ℕ
band_distance i a b = bit_count 16 (bit_xor (a / 2 ^ (i * 16)) (b / 2 ^ (i * 16)))

hamming_distance-bit_count : (a b : ℕ) → hamming_distance a b ≡ bit_count 64 (bit_xor a b)
unfolding hamming_distance
hamming_distance-bit_count a b = refl

bit_count-zero : (x : ℕ) → bit_count 0 x ≡ 0
unfolding bit_count
bit_count-zero x = refl

-- The distance of two hashes is the sum over their bands.
hamming_distance-bands :
    (a b : ℕ)
    → hamming_distance a b
      ≡ bit_count 16 (bit_xor (a / 2 ^ 0) (b / 2 ^ 0))
        + band_distance 1 a b
        + band_distance 2 a b
        + band_distance 3 a b
hamming_distance-bands a b = omega (
  arith,
  hamming_distance-bit_count a b,
  bit_count-xor-add 48 16 a b,
  bit_count-xor-add 32 16 a b,
  bit_count-xor-add 16 16 a b,
  bit_count-xor-add 0 16 a b,
  bit_count-zero (bit_xor a b),
)

band-eq : (i a b : ℕ) → band_distance i a b ≡ 0 → band i a ≡ band i b
band-eq i a b h = eq-of-bit_count 16 (a / 2 ^ (i * 16)) (b / 2 ^ (i * 16)) h

-- By the pigeonhole principle, two hashes whose Hamming distance is at most the default threshold
-- agree on one of the bands: the candidate lookup by band misses none of them.
pub band_of_close :
    (a b : ℕ)
    → hamming_distance a b ≤ default_hamming_threshold
    → (i : ℕ) × (i < bands) × (band i a ≡ band i b)
band_of_close a b h = elim (ℕ_discrete (band_distance 0 a b) 0) [
  | yes e ↦ (0, omega arith, band-eq 0 a b e)
  | no n0 ↦ elim (ℕ_discrete (band_distance 1 a b) 0) [
    | yes e ↦ (1, omega arith, band-eq 1 a b e)
    | no n1 ↦ elim (ℕ_discrete (band_distance 2 a b) 0) [
      | yes e ↦ (2, omega arith, band-eq 2 a b e)
      | no n2 ↦ (3, omega arith, band-eq 3 a b (omega (arith, hamming_distance-bands a b)))
    ]
  ]
]
