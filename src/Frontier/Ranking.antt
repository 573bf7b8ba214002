-- ===== src/Frontier/Ranking.antt =====
-- A claim takes the best candidates: none that it leaves behind goes before one that it takes.
use news_crawl_intelligence.Prelude.{
  ℕ, zero, suc, ◌+◌, ◌≡◌, refl, Bool, true, false, not, ◌&&◌, List, [], ◌∷◌, Option, filter, take,
  count_if, count_if_mono, count_if-filter, count_if-any, All, ◌==◌, ==_iff, Bool-cases, inl, inr,
  arith,
}
use news_crawl_intelligence.Prelude.Sorting.{IsSorted, All-weaken}
use news_crawl_intelligence.Frontier.Rows.{CrawlUrl}
use news_crawl_intelligence.Frontier.Claims.{claims_first, has_id, chosen}
use news_crawl_intelligence.Frontier.Picking.{IsOrderBy, is_open, at_own_id, All-any}

abbrev drop : ℕ → List CrawlUrl → List CrawlUrl
drop zero xs = xs
drop (suc n) [] = []
drop (suc n) (x ∷ xs) = drop n xs

All-drop : (P : CrawlUrl → Type 0) (n : ℕ) (xs : List CrawlUrl) → All P xs → All P (drop n xs)
All-drop P zero xs h = h
All-drop P (suc n) [] h = tt
All-drop P (suc n) (x ∷ xs) h = All-drop P n xs h.1

-- In a sorted list what is taken goes before what is dropped.
take-before-drop :
    (n : ℕ) (xs : List CrawlUrl)
    → IsSorted claims_first xs
    → All (λ p. All (λ q. claims_first p q ≡ true) (drop n xs)) (take n xs)
take-before-drop zero xs h = tt
take-before-drop (suc n) [] h = tt
take-before-drop (suc n) (x ∷ xs) h = (All-drop _ n xs h.0, take-before-drop n xs h.1)

count-take-add-drop :
    (p : CrawlUrl → Bool) (n : ℕ) (xs : List CrawlUrl)
    → count_if p xs ≡ count_if p (take n xs) + count_if p (drop n xs)
unfolding count_if
count-take-add-drop p zero xs = omega arith
count-take-add-drop p (suc n) [] = omega arith
count-take-add-drop p (suc n) (x ∷ xs) = omega (arith, count-take-add-drop p n xs)

count-All-false :
    (p : CrawlUrl → Bool) (xs : List CrawlUrl) → All (λ q. p q ≡ false) xs → count_if p xs ≡ 0
unfolding count_if
count-All-false p [] h = refl
count-All-false p (x ∷ xs) h = ground (arith, count-All-false p xs h.1)

count-zero-All :
    (p : CrawlUrl → Bool) (xs : List CrawlUrl) → count_if p xs ≡ 0 → All (λ q. p q ≡ false) xs
unfolding count_if
count-zero-All p [] h = tt
count-zero-All p (x ∷ xs) h = (ground arith, count-zero-All p xs (ground arith))

-- The rows with an identity that `p` does not go before.
abbrev beats : CrawlUrl → ℕ → CrawlUrl → Bool
beats p i q = q.id == i && not (claims_first p q)

module _ (order_by : List CrawlUrl → List CrawlUrl) (order : IsOrderBy order_by) (now : ℕ)
    (locked : ℕ → Bool) (limit : ℕ) (source_id job : Option ℕ) (rows : List CrawlUrl) where
  abbrev ordered : List CrawlUrl
  ordered = order_by (filter (is_open now locked source_id job) rows)

  abbrev picked : List CrawlUrl
  picked = chosen order_by now locked limit source_id job rows

  not_taken :
      (p : CrawlUrl) (i : ℕ)
      → has_id i picked ≡ false
      → count_if (beats p i) (take limit ordered) ≡ 0
  unfolding chosen has_id
  not_taken p i left = omega (
    arith,
    count_if-any (λ (r : CrawlUrl). r.id == i) (take limit ordered) left,
    count_if_mono (beats p i) (λ (r : CrawlUrl). r.id == i) (take limit ordered)
        (λ q e. ground arith),
  )

  none_beats :
      (p : CrawlUrl) (i : ℕ)
      → has_id i picked ≡ false
      → All (λ q. claims_first p q ≡ true) (drop limit ordered)
      → count_if (λ q. is_open now locked source_id job q && beats p i q) rows ≡ 0
  none_beats p i left before = omega (
    arith,
    count_if-filter (beats p i) (is_open now locked source_id job) rows,
    order.counts (beats p i) (filter (is_open now locked source_id job) rows),
    count-take-add-drop (beats p i) limit ordered,
    not_taken p i left,
    count-All-false (beats p i) (drop limit ordered)
        (All-weaken _ _ (drop limit ordered) (λ q e. ground arith) before),
  )

  -- With the id apart, so that it does not vary along the rows.
  left_behind :
      (p : CrawlUrl)
      → All (λ q. claims_first p q ≡ true) (drop limit ordered)
      → (i : ℕ)
      → All
          (λ r.
            r.id ≡ i
            → (is_open now locked source_id job r
                && not (has_id i picked)
                && not (claims_first p r))
              ≡ false)
          rows
  left_behind p before i = elim (Bool-cases (has_id i picked)) [
    | inl e ↦ All-any _ rows (λ r same. ground arith)
    | inr e ↦
        All-weaken _ _ rows (λ r miss same. ground (arith, ==_iff r.id i))
          (count-zero-All _ rows (none_beats p i e before))
  ]

  picked_sorted : All (λ p. All (λ q. claims_first p q ≡ true) (drop limit ordered)) picked
  unfolding chosen
  picked_sorted =
      take-before-drop limit ordered (order.sorted (filter (is_open now locked source_id job) rows))

  -- No candidate that a claim leaves behind goes before one that it takes: higher priorities
  -- first, and among equals those that have been due longer.
  pub chosen_first :
      All
        (λ p.
          All
            (λ r.
              (is_open now locked source_id job r
                && not (has_id r.id picked)
                && not (claims_first p r))
              ≡ false)
            rows)
        picked
  chosen_first =
      All-weaken _ _ picked (λ p before. at_own_id _ rows (left_behind p before)) picked_sorted
