-- ===== src/Frontier/Retries.antt =====
-- The retry budget, the waits between retries and the recrawl intervals.
use news_crawl_intelligence.Prelude.{
  ℕ, ◌+◌, ◌*◌, ◌≤◌, ◌<◌, ◌≡◌, ◌∙◌, ap, refl, true, false, not, String, List, [], ◌∷◌, Option, none,
  some, length, All, ◌==◌, Bool-cases, leb, inl, inr, arith, if◌then◌else◌, ◌⊎◌, str_eq,
}
use mathlib.Core.Option.{some-injective}
use news_crawl_intelligence.Contracts.{UrlStatus, FailureCategory}
use news_crawl_intelligence.Backoff.{Uniform, IsUniform, second, compute_backoff_seconds}
use news_crawl_intelligence.Backoff.Doubling.{compute_backoff_seconds_bounds}
use news_crawl_intelligence.Frontier.Rows.{CrawlUrl, Table, FrontierConfig, update_where, find_row}
use news_crawl_intelligence.Frontier.Outcomes.{
  Fetched, is_permanent, is_blocking, is_hub, succeeded, not_modified, failed_once, mark_success,
}

-- One failure of a crawl.
pub record Failure : Type 0 where
  pub at : ℕ
  pub category : FailureCategory
  pub error : String
  pub http_status : Option ℕ

abbrev pub fail_with : Uniform → FrontierConfig → Failure → CrawlUrl → CrawlUrl
fail_with uniform cfg f r = failed_once uniform cfg f.at f.category f.error f.http_status r

-- The row after failures with no success between them.
unfoldable pub fail_all : Uniform → FrontierConfig → List Failure → CrawlUrl → CrawlUrl
unfolding failed_once
fail_all uniform cfg [] r = r
fail_all uniform cfg (f ∷ fs) r = fail_all uniform cfg fs (fail_with uniform cfg f r)

module _ (uniform : Uniform) (cfg : FrontierConfig) where
  fail_with_lem :
      (f : Failure) (r : CrawlUrl)
      → is_permanent f.category ≡ false
      → ((fail_with uniform cfg f r).retry_count ≡ r.retry_count + 1)
        × ((fail_with uniform cfg f r).status ≡ (
            if leb cfg.max_retries (r.retry_count + 1)
            then UrlStatus.failed
            else UrlStatus.retry_pending))
  unfolding failed_once
  fail_with_lem f r h = ground arith

  -- Consecutive failures that are not permanent are counted one by one, and the URL is given up
  -- exactly when their number reaches what is left of the retry budget; before that it waits for
  -- another try.
  pub fail_all_budget :
      (f : Failure) (fs : List Failure) (r : CrawlUrl)
      → All (λ e. is_permanent e.category ≡ false) (f ∷ fs)
      → ((fail_all uniform cfg (f ∷ fs) r).retry_count ≡ r.retry_count + length (f ∷ fs))
        × ((fail_all uniform cfg (f ∷ fs) r).status ≡ (
            if leb cfg.max_retries (r.retry_count + length (f ∷ fs))
            then UrlStatus.failed
            else UrlStatus.retry_pending))
  unfolding fail_all
  fail_all_budget f [] r h = fail_with_lem f r h.0
  fail_all_budget f (g ∷ fs) r h =
      ground (arith, fail_with_lem f r h.0, fail_all_budget g fs (fail_with uniform cfg f r) h.1)

  -- A permanent failure blocks the URL at once, and one that exhausts the budget gives it up: it
  -- has no lease and no next crawl.
  pub failed_once_ends :
      (f : Failure) (r : CrawlUrl)
      → (is_permanent f.category ≡ true) ⊎ (cfg.max_retries ≤ r.retry_count + 1)
      → ((fail_with uniform cfg f r).status
          ≡ (if is_permanent f.category then UrlStatus.blocked else UrlStatus.failed))
        × ((fail_with uniform cfg f r).next_crawl_at ≡ none)
        × ((fail_with uniform cfg f r).lease_owner ≡ none)
  unfolding failed_once
  failed_once_ends f r h = ground arith

  -- The wait before the retry, in microseconds.
  abbrev pub retry_wait : FailureCategory → ℕ → ℕ
  retry_wait category retry_count =
      let backoff = compute_backoff_seconds uniform retry_count in
      if is_blocking category then backoff * 4 else backoff

  -- A failure that is neither permanent nor exhausts the budget makes the URL wait at least 48
  -- seconds and at most 7 hours and 12 minutes, and four times as long if the site blocks, if the
  -- random draw lies in its interval.
  pub failed_once_waits :
      (f : Failure) (r : CrawlUrl)
      → IsUniform uniform
      → is_permanent f.category ≡ false
      → r.retry_count + 1 < cfg.max_retries
      → ((fail_with uniform cfg f r).status ≡ UrlStatus.retry_pending)
        × ((fail_with uniform cfg f r).next_crawl_at
            ≡ some (f.at + retry_wait f.category (r.retry_count + 1)))
        × ((if is_blocking f.category then 4 else 1) * (48 * second)
            ≤ retry_wait f.category (r.retry_count + 1))
        × (retry_wait f.category (r.retry_count + 1)
            ≤ (if is_blocking f.category then 4 else 1) * (25920 * second))
  failed_once_waits f r u p h = (
    unfold failed_once in ground arith,
    unfold failed_once in ground arith,
    ground (arith, compute_backoff_seconds_bounds uniform (r.retry_count + 1) u),
    ground (arith, compute_backoff_seconds_bounds uniform (r.retry_count + 1) u),
  )

-- A hub that answers 304 waits the article interval before its next crawl, though one that answers
-- with a page waits the hub interval.
pub hub_intervals :
    (cfg : FrontierConfig) (now : ℕ) (page : Fetched) (r : CrawlUrl)
    → is_hub r.url_type ≡ true
    → ((succeeded cfg now page r).next_crawl_at ≡ some (now + cfg.recrawl_hub))
      × ((not_modified cfg now r).next_crawl_at ≡ some (now + cfg.recrawl_article))
unfolding succeeded not_modified
hub_intervals cfg now page r h = ground arith

find_row-set_row :
    (id : ℕ) (change : CrawlUrl → CrawlUrl) (rows : List CrawlUrl) {r : CrawlUrl}
    → ((r : CrawlUrl) → (change r).id ≡ r.id)
    → find_row id rows ≡ some r
    → find_row id (update_where (λ r. r.id == id) change rows) ≡ some (change r)
unfolding find_row update_where
find_row-set_row id change [] same h = cc
find_row-set_row id change (x ∷ rows) same h = elim (Bool-cases (x.id == id)) [
  | inl e ↦
      let e' : ((change x).id == id) ≡ true = ap (λ k. k == id) (same x) ∙ e in
      rw (e, find_row, update_where)
        (rw e' (ap some (ap change (some-injective _ _ (rw (e, find_row) at h)))))
  | inr e ↦
      rw (e, find_row, update_where)
        (rw e (find_row-set_row id change rows same (rw (e, find_row) at h)))
]

-- Of two successful crawls of a known URL that both bring a content hash, the second is no change
-- if the hashes agree, and one if they differ.
pub mark_success_again :
    (cfg : FrontierConfig) (now later url_id : ℕ) (page page' : Fetched) (t : Table) (r : CrawlUrl)
    (h h' : String)
    → find_row url_id t.rows ≡ some r
    → page.content_hash ≡ some h
    → page'.content_hash ≡ some h'
    → (mark_success cfg later url_id page' (mark_success cfg now url_id page t).0).1
      ≡ not (str_eq h h')
unfolding mark_success
mark_success_again cfg now later url_id page page' t r h h' found e e' =
    rw (found, mark_success)
      (rw (find_row-set_row url_id (succeeded cfg now page) t.rows (λ r. refl) found, mark_success)
        (ground arith))
