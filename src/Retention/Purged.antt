-- ===== src/Retention/Purged.antt =====
-- A purge comes to its end: with enough batches no article is left that is older than the window.
use news_crawl_intelligence.Prelude.{
  ℕ, zero, suc, ◌+◌, ◌-◌, ◌*◌, ◌≤◌, ◌≡◌, refl, min, ◌==◌, ==_iff, not, Bool, true, String, List, [],
  ◌∷◌, map, any, filter, take, length, length-filter, count_if, count_if_mono, All, arith, if_cases,
}
use news_crawl_intelligence.Backoff.{hour}
use news_crawl_intelligence.Articles.Stored.{StoredArticle}
use news_crawl_intelligence.Retention.{
  Live, Tally, has, id_of, unlinked, delete_batch, is_expired, batch_of, tally_batch, purge,
  purge_expired_articles, nothing_deleted,
}

-- What the code relies on of ORDER BY: it neither loses nor adds a row.
abbrev pub IsPermuting : (List StoredArticle → List StoredArticle) → Type 0
IsPermuting order_by =
    (p : StoredArticle → Bool) (rows : List StoredArticle)
    → count_if p (order_by rows) ≡ count_if p rows

count_all : (xs : List StoredArticle) → count_if (λ a. true) xs ≡ length xs
unfolding count_if
count_all [] = refl
count_all (a ∷ xs) = omega (arith, count_all xs)

length-take : (n : ℕ) (xs : List StoredArticle) → length (take n xs) ≡ min n (length xs)
length-take zero xs = omega arith
length-take (suc n) [] = omega arith
length-take (suc n) (a ∷ xs) = omega (arith, length-take n xs)

-- The articles of a batch are not among those that it leaves.
left_behind :
    (ids : List ℕ) (n : ℕ) (xs : List StoredArticle)
    → All (λ a. has (id_of a) ids ≡ true) (take n xs)
    → count_if (λ a. not (has (id_of a) ids)) xs + length (take n xs) ≤ length xs
unfolding count_if
left_behind ids zero xs h =
    omega (
      arith,
      count_if_mono (λ a. not (has (id_of a) ids)) (λ a. true) xs (λ a _. refl),
      count_all xs,
    )
left_behind ids (suc n) [] h = omega arith
left_behind ids (suc n) (a ∷ xs) h = ground (arith, h.0, left_behind ids n xs h.1)

has_more :
    (i : ℕ) (ids : List ℕ) (rows : List StoredArticle)
    → All (λ a. has (id_of a) ids ≡ true) rows
    → All (λ a. has (id_of a) (i ∷ ids) ≡ true) rows
unfolding has any
has_more i ids [] h = tt
has_more i ids (a ∷ rows) h = (ground (arith, h.0), has_more i ids rows h.1)

own_ids : (rows : List StoredArticle) → All (λ a. has (id_of a) (map id_of rows) ≡ true) rows
unfolding has any
own_ids [] = tt
own_ids (a ∷ rows) = (
  ground (arith, ==_iff (id_of a) (id_of a)),
  has_more (id_of a) (map id_of rows) rows (own_ids rows),
)

-- What a batch leaves of the expired articles.
expired_left :
    (cutoff : ℕ) (ids : List ℕ) (articles : List StoredArticle)
    → count_if
        (is_expired cutoff)
        (filter (λ a. not (has (id_of a) ids)) (map (unlinked ids) articles))
      ≡ count_if (λ a. not (has (id_of a) ids)) (filter (is_expired cutoff) articles)
unfolding count_if filter unlinked is_expired
expired_left cutoff ids [] = refl
expired_left cutoff ids (a ∷ articles) = ground (arith, expired_left cutoff ids articles)

abbrev pub expired_of : ℕ → Live → ℕ
expired_of cutoff live = count_if (is_expired cutoff) live.articles

module _ (order_by : List StoredArticle → List StoredArticle) (permutes : IsPermuting order_by)
    (delete_raw_html : List String → ℕ) where
  abbrev batch : ℕ → ℕ → Live → List StoredArticle
  batch cutoff batch_size live = batch_of order_by delete_raw_html cutoff batch_size live.articles

  length-order_by : (rows : List StoredArticle) → length (order_by rows) ≡ length rows
  length-order_by rows =
      omega (arith, count_all (order_by rows), count_all rows, permutes (λ a. true) rows)

  length-batch :
      (cutoff batch_size : ℕ) (live : Live)
      → length (batch cutoff batch_size live) ≡ min batch_size (expired_of cutoff live)
  unfolding batch_of
  length-batch cutoff batch_size live =
      let old = filter (is_expired cutoff) live.articles in
      omega (
        arith,
        length-take batch_size (order_by old),
        length-order_by old,
        length-filter (is_expired cutoff) live.articles,
      )

  delete_batch-expired :
      (cutoff batch_size : ℕ) (live : Live)
      → expired_of cutoff (delete_batch (map id_of (batch cutoff batch_size live)) live)
          + length (batch cutoff batch_size live)
        ≤ expired_of cutoff live
  unfolding delete_batch batch_of
  delete_batch-expired cutoff batch_size live =
      let old = filter (is_expired cutoff) live.articles in
      let ids = map id_of (take batch_size (order_by old)) in
      omega (
        arith,
        expired_left cutoff ids live.articles,
        permutes (λ a. not (has (id_of a) ids)) old,
        left_behind ids batch_size (order_by old) (own_ids (take batch_size (order_by old))),
        length-order_by old,
        length-filter (is_expired cutoff) live.articles,
      )

  purge_all :
      (cutoff batch_size max_batches : ℕ) (live : Live) (t : Tally)
      → 1 ≤ batch_size
      → expired_of cutoff live ≤ batch_size * max_batches
      → expired_of cutoff (purge order_by delete_raw_html cutoff batch_size max_batches live t).0
        ≡ 0
  unfolding purge
  purge_all cutoff batch_size zero live t some_size few = omega arith
  purge_all cutoff batch_size (suc max_batches) live t some_size few =
      let size = length-batch cutoff batch_size live in
      let fewer = delete_batch-expired cutoff batch_size live in
      let rows = batch cutoff batch_size live in
      if_cases (λ (r : Live × Tally). expired_of cutoff r.0 ≡ 0) (length rows == 0)
        (λ empty. ground (arith, empty, size))
        (λ _.
          purge_all cutoff batch_size max_batches (delete_batch (map id_of rows) live)
            (tally_batch order_by delete_raw_html rows t) some_size (omega (arith, size, fewer)))

  -- If ORDER BY neither loses nor adds rows, and there are no more articles older than the window
  -- than the batches, which are not empty, have room for: none of them is left after a purge.
  pub purge_expired_articles_completes :
      (now retention_hours batch_size max_batches : ℕ) (live : Live)
      → 1 ≤ batch_size
      → expired_of (now - retention_hours * hour) live ≤ batch_size * max_batches
      → expired_of
          (now - retention_hours * hour)
          (purge_expired_articles order_by delete_raw_html now retention_hours batch_size
            max_batches live).0
        ≡ 0
  unfolding purge_expired_articles
  purge_expired_articles_completes now retention_hours batch_size max_batches live some_size few =
      purge_all _ batch_size max_batches live nothing_deleted some_size few
