-- ===== src/Articles/Dedup.antt =====
-- Staged deduplication (apps/processor/newscrawl_processor/dedup.py). An article's key is a number.
use news_crawl_intelligence.Prelude.{
  ℕ, ◌+◌, ◌*◌, ◌&&◌, ◌||◌, not, ltb, leb, ◌==◌, Bool, true, false, String, List, [], ◌∷◌, ◌++◌,
  Option, none, some, map, filter, take, str_eq, if◌then◌else◌,
}
use news_crawl_intelligence.Prelude.Int.{ℤ, pos, negsuc}
use news_crawl_intelligence.Prelude.Sorting.{sort}
use news_crawl_intelligence.Simhash.{band_bits, hamming_distance, simhash_bands, to_unsigned64}
use news_crawl_intelligence.Simhash.Signed.{sql_band}
use news_crawl_intelligence.Articles.Rows.{Article}

abbrev pub gray_zone_hamming : ℕ
gray_zone_hamming = 6

pub data DedupStage : Type 0 where
  exact simhash : DedupStage

pub record DedupResult : Type 0 where
  pub is_duplicate : Bool
  pub duplicate_of : Option ℕ
  pub stage : Option DedupStage
  pub hamming : Option ℕ
  pub semantic_candidates : List ℕ

abbrev pub no_duplicate : List ℕ → DedupResult
no_duplicate candidates = record {
  is_duplicate = false;
  duplicate_of = none;
  stage = none;
  hamming = none;
  semantic_candidates = candidates;
}

abbrev pub duplicate : ℕ → DedupStage → ℕ → DedupResult
duplicate id stage distance = record {
  is_duplicate = true;
  duplicate_of = some id;
  stage = some stage;
  hamming = some distance;
  semantic_candidates = [];
}

-- The threshold of a DedupService; `none` is the ValueError of its constructor.
unfoldable pub dedup_service : ℕ → Option ℕ
dedup_service hamming_threshold = if ltb 3 hamming_threshold then none else some hamming_threshold

-- `Article.id != exclude_article_id`, if one is given.
abbrev pub is_included : Option ℕ → Article → Bool
is_included none a = true
is_included (some id) a = not (a.id == id)

abbrev pub has_hash : String → Option ℕ → Article → Bool
has_hash content_hash exclude a = str_eq a.content_hash content_hash && is_included exclude a

-- Any one of the band expressions, from band `i` up, equals the value of its band.
unfoldable pub match_bands : ℕ → List ℕ → ℤ → Bool
match_bands i [] z = false
match_bands i (b ∷ bs) z = sql_band (i * band_bits) z == b || match_bands (i + 1) bs z

abbrev pub match_simhash : ℕ → Option ℤ → Bool
match_simhash unsigned none = false
match_simhash unsigned (some z) = match_bands 0 (simhash_bands unsigned) z

unfoldable pub is_near : ℕ → Option ℕ → Article → Bool
unfolding match_bands simhash_bands
is_near unsigned exclude a = match_simhash unsigned a.simhash && is_included exclude a

-- What the loop over the candidates carries: the best key and distance, and the gray zone.
pub record Scan : Type 0 where
  pub best : Option (ℕ × ℕ)
  pub gray : List (ℕ × ℕ)

abbrev closer : ℕ → Option (ℕ × ℕ) → Bool
closer distance none = true
closer distance (some (id, best_distance)) = ltb distance best_distance

unfoldable pub scan_one : ℕ → ℕ → ℕ → Scan → Scan
scan_one hamming_threshold id distance s =
    if leb distance hamming_threshold
    then (if closer distance s.best then record s { best = some (id, distance) } else s)
    else if leb distance gray_zone_hamming
    then record s { gray = s.gray ++ (distance, id) ∷ [] }
    else s

abbrev pub distance_to : ℕ → Option ℤ → ℕ
distance_to unsigned none = 64
distance_to unsigned (some z) = hamming_distance unsigned (to_unsigned64 z)

unfoldable pub scan : ℕ → ℕ → List Article → Scan → Scan
unfolding scan_one
scan hamming_threshold unsigned [] s = s
scan hamming_threshold unsigned (a ∷ rows) s =
    scan hamming_threshold unsigned rows
      (scan_one hamming_threshold a.id (distance_to unsigned a.simhash) s)

abbrev nearer : ℕ × ℕ → ℕ × ℕ → Bool
nearer (d, id) (d', id') = leb d d'

abbrev second_of : ℕ × ℕ → ℕ
second_of (d, id) = id

abbrev pub scanned : Option (ℕ × ℕ) → List (ℕ × ℕ) → DedupResult
scanned none gray = no_duplicate (map second_of (take 10 (sort nearer gray)))
scanned (some (id, distance)) gray = duplicate id DedupStage.simhash distance

abbrev pub no_scan : Scan
no_scan = record { best = none; gray = [] }

abbrev first_id : List Article → Option ℕ
first_id [] = none
first_id (a ∷ rows) = some a.id

abbrev is_zero : ℤ → Bool
is_zero (pos n) = n == 0
is_zero (negsuc n) = false

-- `select` is the order in which the database gives the rows, of which the code asks nothing.
module _ (select : List Article → List Article) where
  unfoldable pub find_exact : String → Option ℕ → List Article → Option ℕ
  unfolding filter
  find_exact content_hash exclude articles =
      first_id (take 1 (select (filter (has_hash content_hash exclude) articles)))

  -- The candidates: at most 500 of the rows that share a band.
  unfoldable pub near_rows : ℕ → Option ℕ → List Article → List Article
  unfolding filter is_near
  near_rows unsigned exclude articles =
      take 500 (select (filter (is_near unsigned exclude) articles))

  unfoldable pub find_near : ℕ → ℤ → Option ℕ → List Article → DedupResult
  unfolding near_rows scan sort to_unsigned64
  find_near hamming_threshold hash exclude articles =
      let unsigned = to_unsigned64 hash in
      let found = scan hamming_threshold unsigned (near_rows unsigned exclude articles) no_scan in
      scanned found.best found.gray

  unfoldable pub find_duplicate : ℕ → String → ℤ → Option ℕ → List Article → DedupResult
  unfolding find_exact find_near
  find_duplicate hamming_threshold content_hash hash exclude articles =
      elim (find_exact content_hash exclude articles) [
        | some id ↦ duplicate id DedupStage.exact 0
        | none ↦
            let near = find_near hamming_threshold hash exclude articles in
            if is_zero hash then no_duplicate [] else near
      ]
