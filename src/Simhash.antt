-- ===== src/Simhash.antt =====
-- packages/crawler-utils/newscrawl_crawler_utils/simhash.py. A text is the list of its code points.
-- The word splitter and the feature hash (blake2b, eight bytes) are parameters.
pub mod Xor
pub mod Bands
pub mod Signed
pub mod Votes
use Prim.Native.Nat.{bit_xor}
use news_crawl_intelligence.Prelude.{
  ℕ, zero, suc, ◌+◌, ◌-◌, ◌*◌, ◌/◌, ◌%◌, ◌^◌, Bool, List, [], ◌∷◌, map, length, take, ltb, leb,
  ◌==◌, if◌then◌else◌,
}
use news_crawl_intelligence.Prelude.Int.{ℤ, pos, negsuc, pos_part, neg_part, ◌+ℤ◌, ltb_ℤ}

abbrev pub bands : ℕ
bands = 4

-- 64 // BANDS
abbrev pub band_bits : ℕ
band_bits = 16

abbrev pub default_hamming_threshold : ℕ
default_hamming_threshold = 3

-- `x & 0xFFFFFFFFFFFFFFFF` of a Python integer: of a negative one, its two's complement.
abbrev pub mask64 : ℤ → ℕ
mask64 (pos n) = n % 2 ^ 64
mask64 (negsuc n) = 2 ^ 64 - 1 - n % 2 ^ 64

-- The ones among the lowest `k` bits.
unfoldable pub bit_count : ℕ → ℕ → ℕ
bit_count zero x = 0
bit_count (suc k) x = x % 2 + bit_count k (x / 2)

unfoldable pub hamming_distance : ℕ → ℕ → ℕ
unfolding bit_count
hamming_distance a b = bit_count 64 (bit_xor a b)

-- One 16-bit band, `(unsigned >> (i * BAND_BITS)) & _BAND_MASK`.
abbrev pub band : ℕ → ℕ → ℕ
band i unsigned = unsigned / 2 ^ (i * band_bits) % 2 ^ band_bits

unfoldable pub simhash_bands : ℕ → List ℕ
simhash_bands value =
    let unsigned = value % 2 ^ 64 in map (λ i. band i unsigned) (0 ∷ 1 ∷ 2 ∷ 3 ∷ [])

unfoldable pub to_signed64 : ℕ → ℤ
to_signed64 value =
    let v = value % 2 ^ 64 in if leb (2 ^ 63) v then negsuc (2 ^ 64 - v - 1) else pos v

unfoldable pub to_unsigned64 : ℤ → ℕ
to_unsigned64 value = mask64 value

-- `feature` is `_feature_hash`: the hash of a shingle. `words` is `normalize_text(text).lower().split()`.
module _ {ℓ} {Word : Type ℓ} where
  -- The shingles that begin at each of the first `n` words.
  unfoldable pub shingles : ℕ → ℕ → List Word → List (List Word)
  shingles size zero words = []
  shingles size (suc n) [] = []
  shingles size (suc n) (w ∷ words) = take size (w ∷ words) ∷ shingles size n words

  -- `" ".join` is left to the hash: a shingle is the list of its words.
  unfoldable pub features : ℕ → List Word → List (List Word)
  unfolding shingles
  features shingle_size [] = []
  features shingle_size (w ∷ words) =
      let n = length (w ∷ words) in
      if ltb n shingle_size
      then (w ∷ words) ∷ []
      else shingles shingle_size (n - shingle_size + 1) (w ∷ words)

-- The votes on one bit: one for each feature whose hash has it, one against for each other.
unfoldable pub vote : ℕ → List ℕ → ℤ
vote bit [] = pos 0
vote bit (h ∷ hashes) = (if h / 2 ^ bit % 2 == 1 then pos 1 else negsuc 0) +ℤ vote bit hashes

-- `value |= 1 << bit` for the bits from `bit` up, `n` of them, that have more votes for than against.
unfoldable pub collect : ℕ → ℕ → List ℕ → ℕ
unfolding vote
collect zero bit hashes = 0
collect (suc n) bit hashes =
    (if ltb_ℤ (pos 0) (vote bit hashes) then 2 ^ bit else 0) + collect n (bit + 1) hashes

module _ {ℓ} {Word : Type ℓ} (feature_hash : List Word → ℕ) where
  unfoldable pub simhash64 : ℕ → List Word → ℕ
  unfolding features collect
  simhash64 shingle_size words = collect 64 0 (map feature_hash (features shingle_size words))
