-- ===== src/Frontier/Invariant.antt =====
-- What every row of the frontier satisfies: a lease exactly while a worker holds the URL, and a time
-- for the next crawl while the URL waits for one.
use news_crawl_intelligence.Prelude.{
  ℕ, ◌≡◌, ◌⊎◌, Bool, true, false, String, List, [], ◌∷◌, Option, none, some, All, arith,
  if◌then◌else◌, Bool-cases, inl, inr, ◌&&◌, not,
}
use news_crawl_intelligence.Contracts.{FailureCategory}
use news_crawl_intelligence.Backoff.{Uniform}
use news_crawl_intelligence.Frontier.Rows.{
  CrawlUrl, Table, FrontierConfig, is_claimable, is_held, is_at_most, update_where,
}
use news_crawl_intelligence.Frontier.Claims.{lease_to, requeued}
use news_crawl_intelligence.Frontier.Outcomes.{
  Fetched, succeeded, not_modified, failed_once, skipped, retried, failed_in,
}

abbrev pub is_some {ℓ} : {A : Type ℓ} → Option A → Bool
is_some none = false
is_some (some a) = true

-- `now` is the time of the last step on the table.
pub record IsConsistent (now : ℕ) (r : CrawlUrl) : Type 0 where
  pub owned : is_some r.lease_owner ≡ is_held r.status
  pub dated : is_some r.lease_expires_at ≡ is_held r.status
  pub waiting : (is_claimable r.status && not (is_some r.next_crawl_at)) ≡ false
  pub started : (is_held r.status && not (is_at_most r.next_crawl_at now)) ≡ false

abbrev pub TableIsConsistent : ℕ → Table → Type 0
TableIsConsistent now t = All (IsConsistent now) t.rows

module _ (P : CrawlUrl → Type 0) where
  -- An UPDATE keeps a property of each row, if it does so where the test passes and the row has a
  -- further property.
  pub All-update_where_with :
      (Q : CrawlUrl → Type 0) (test : CrawlUrl → Bool) (change : CrawlUrl → CrawlUrl)
      (rows : List CrawlUrl)
      → ((r : CrawlUrl) → test r ≡ true → Q r → P r → P (change r))
      → All Q rows
      → All P rows
      → All P (update_where test change rows)
  unfolding update_where
  All-update_where_with Q test change [] keep q h = tt
  All-update_where_with Q test change (r ∷ rows) keep q h =
      (row (Bool-cases (test r)), All-update_where_with Q test change rows keep q.1 h.1)
    where
      row : (test r ≡ true) ⊎ (test r ≡ false) → P (if test r then change r else r)
      row (inl e) = rw e (keep r e q.0 h.0)
      row (inr e) = rw e h.0

  pub All-update_where :
      (test : CrawlUrl → Bool) (change : CrawlUrl → CrawlUrl) (rows : List CrawlUrl)
      → ((r : CrawlUrl) → test r ≡ true → P r → P (change r))
      → All P rows
      → All P (update_where test change rows)
  All-update_where test change rows keep h =
      All-update_where_with P test change rows (λ r e _ p. keep r e p) h h

module _ (now : ℕ) where
  pub lease_to-IsConsistent :
      (cfg : FrontierConfig) (worker_id : String) (r : CrawlUrl)
      → is_at_most r.next_crawl_at now ≡ true
      → IsConsistent now (lease_to cfg now worker_id r)
  unfolding lease_to
  lease_to-IsConsistent cfg worker_id r h = ground arith

  pub requeued-IsConsistent :
      (r : CrawlUrl) → is_held r.status ≡ true → IsConsistent now r → IsConsistent now (requeued r)
  unfolding requeued
  requeued-IsConsistent r h c = ground arith

  pub succeeded-IsConsistent :
      (cfg : FrontierConfig) (page : Fetched) (r : CrawlUrl)
      → IsConsistent now (succeeded cfg now page r)
  unfolding succeeded
  succeeded-IsConsistent cfg page r = ground arith

  pub not_modified-IsConsistent :
      (cfg : FrontierConfig) (r : CrawlUrl) → IsConsistent now (not_modified cfg now r)
  unfolding not_modified
  not_modified-IsConsistent cfg r = ground arith

  pub failed_once-IsConsistent :
      (uniform : Uniform) (cfg : FrontierConfig) (category : FailureCategory) (error : String)
      (http_status : Option ℕ) (r : CrawlUrl)
      → IsConsistent now (failed_once uniform cfg now category error http_status r)
  unfolding failed_once
  failed_once-IsConsistent uniform cfg category error http_status r = ground arith

  pub skipped-IsConsistent : (reason : String) (r : CrawlUrl) → IsConsistent now (skipped reason r)
  unfolding skipped
  skipped-IsConsistent reason r = ground arith

  pub retried-IsConsistent :
      (source_id : ℕ) (job : Option ℕ) (r : CrawlUrl)
      → failed_in source_id r ≡ true
      → IsConsistent now r
      → IsConsistent now (retried now job r)
  unfolding retried
  retried-IsConsistent source_id job r h c = ground arith
