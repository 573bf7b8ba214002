-- ===== src/Frontier/Picking.antt =====
-- The rows that `claim_batch` picks, by identity, are candidates that nobody else has locked.
use native.Mathlib.Decide.{ℕ_discrete}
use news_crawl_intelligence.Prelude.{
  ℕ, ◌≤◌, ◌≡◌, refl, Bool, true, not, ◌&&◌, List, [], ◌∷◌, Option, filter, any-count_if, take,
  count_if, count_if_mono, count_if-filter, count_if-take, All, ◌==◌, ==_iff, Bool-cases, inl, inr,
  arith,
}
use news_crawl_intelligence.Prelude.Sorting.{IsSorted, All-weaken}
use news_crawl_intelligence.Frontier.Rows.{CrawlUrl}
use news_crawl_intelligence.Frontier.Claims.{is_candidate, claims_first, has_id, chosen}

-- What the code relies on of ORDER BY: it neither loses nor adds a row, and a row never stands
-- behind one that it precedes.
pub record IsOrderBy (order_by : List CrawlUrl → List CrawlUrl) : Type 0 where
  pub counts :
      (p : CrawlUrl → Bool) (rows : List CrawlUrl) → count_if p (order_by rows) ≡ count_if p rows
  pub sorted : (rows : List CrawlUrl) → IsSorted claims_first (order_by rows)

module _ (c : CrawlUrl → Bool) where
  absent_passes :
      (i : ℕ) (rows : List CrawlUrl)
      → count_if (λ r. r.id == i) rows ≡ 0
      → All (λ r. r.id ≡ i → c r ≡ true) rows
  unfolding count_if
  absent_passes i [] h = tt
  absent_passes i (r ∷ rows) h =
      (λ e. absurd (ground (arith, ==_iff r.id i)), absent_passes i rows (ground arith))

  sharper :
      (i : ℕ) (rows : List CrawlUrl)
      → count_if (λ r. c r && r.id == i) rows ≤ count_if (λ r. r.id == i) rows
  sharper i rows = count_if_mono (λ r. c r && r.id == i) (λ r. r.id == i) rows (λ r h. ground arith)

  -- If one row has the identity, and a row that passes has it, then that row passes.
  unique_passes :
      (i : ℕ) (rows : List CrawlUrl)
      → count_if (λ r. r.id == i) rows ≤ 1
      → 1 ≤ count_if (λ r. c r && r.id == i) rows
      → All (λ r. r.id ≡ i → c r ≡ true) rows
  unfolding count_if
  unique_passes i [] h k = tt
  unique_passes i (r ∷ rows) h k = elim (ℕ_discrete r.id i) [
    | yes e ↦ (
      λ _. ground (arith, sharper i rows, ==_iff r.id i),
      absent_passes i rows (ground (arith, ==_iff r.id i)),
    )
    | no n ↦ (
      λ e. absurd (n e),
      unique_passes i rows (ground (arith, ==_iff r.id i)) (ground (arith, ==_iff r.id i)),
    )
  ]

pub All-any : (Q : CrawlUrl → Type 0) (rows : List CrawlUrl) → ((r : CrawlUrl) → Q r) → All Q rows
All-any Q [] h = tt
All-any Q (r ∷ rows) h = (h r, All-any Q rows h)

pub at_own_id :
    (Q : ℕ → CrawlUrl → Type 0) (rows : List CrawlUrl)
    → ((i : ℕ) → All (λ r. r.id ≡ i → Q i r) rows)
    → All (λ r. Q r.id r) rows
at_own_id Q [] h = tt
at_own_id Q (r ∷ rows) h = ((h r.id).0 refl, at_own_id Q rows (λ i. (h i).1))

-- What `claim_batch` may pick.
abbrev pub is_open : ℕ → (ℕ → Bool) → Option ℕ → Option ℕ → CrawlUrl → Bool
is_open now locked source_id job r = is_candidate now source_id job r && not (locked r.id)

module _ (order_by : List CrawlUrl → List CrawlUrl) (order : IsOrderBy order_by) where
  picked_count :
      (now : ℕ) (locked : ℕ → Bool) (limit : ℕ) (source_id job : Option ℕ) (rows : List CrawlUrl)
      (i : ℕ)
      → has_id i (chosen order_by now locked limit source_id job rows) ≡ true
      → 1 ≤ count_if (λ r. is_open now locked source_id job r && r.id == i) rows
  unfolding has_id chosen
  picked_count now locked limit source_id job rows i h =
      let c = is_open now locked source_id job in
      omega (
        arith,
        any-count_if (λ (r : CrawlUrl). r.id == i) (take limit (order_by (filter c rows))) h,
        count_if-take (λ (r : CrawlUrl). r.id == i) limit (order_by (filter c rows)),
        order.counts (λ r. r.id == i) (filter c rows),
        count_if-filter (λ (r : CrawlUrl). r.id == i) c rows,
      )

  at_id :
      (now : ℕ) (locked : ℕ → Bool) (limit : ℕ) (source_id job : Option ℕ) (rows : List CrawlUrl)
      (i : ℕ)
      → count_if (λ r. r.id == i) rows ≤ 1
      → All
          (λ r.
            r.id ≡ i
            → has_id i (chosen order_by now locked limit source_id job rows) ≡ true
            → is_open now locked source_id job r ≡ true)
          rows
  at_id now locked limit source_id job rows i one =
      elim (Bool-cases (has_id i (chosen order_by now locked limit source_id job rows))) [
        | inl e ↦
            All-weaken _ _ rows (λ r f same _. f same)
              (unique_passes (is_open now locked source_id job) i rows one
                (picked_count now locked limit source_id job rows i e))
        | inr e ↦ All-any _ rows (λ r same picked. cc)
      ]

  -- Every row that is picked is an unlocked candidate.
  pub picked_open :
      (now : ℕ) (locked : ℕ → Bool) (limit : ℕ) (source_id job : Option ℕ) (rows : List CrawlUrl)
      → ((i : ℕ) → count_if (λ r. r.id == i) rows ≤ 1)
      → All
          (λ r.
            has_id r.id (chosen order_by now locked limit source_id job rows) ≡ true
            → is_open now locked source_id job r ≡ true)
          rows
  picked_open now locked limit source_id job rows one =
      at_own_id
        (λ i r.
          has_id i (chosen order_by now locked limit source_id job rows) ≡ true
          → is_open now locked source_id job r ≡ true)
        rows (λ i. at_id now locked limit source_id job rows i (one i))
