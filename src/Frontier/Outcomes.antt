-- ===== src/Frontier/Outcomes.antt =====
-- What the crawl of a URL came to: `mark_success`, `mark_not_modified`, `mark_failed`, `skip`, and
-- the manual retry `requeue_failed`.
use news_crawl_intelligence.Prelude.{
  ℕ, ◌+◌, ◌*◌, ◌&&◌, not, Bool, true, false, String, Option, none, some, count_if, ◌==◌, leb,
  if◌then◌else◌,
}
use news_crawl_intelligence.Prelude.Text.{take_chars}
use news_crawl_intelligence.Contracts.{UrlStatus, UrlType, FailureCategory}
use news_crawl_intelligence.Backoff.{Uniform, compute_backoff_seconds}
use news_crawl_intelligence.Frontier.Rows.{
  CrawlUrl, Table, FrontierConfig, is_failed, text_is, update_table, find_row,
}

-- PERMANENT_FAILURES
abbrev pub is_permanent : FailureCategory → Bool
is_permanent FailureCategory.robots_restricted = true
is_permanent _ = false

-- BLOCKING_FAILURES
abbrev pub is_blocking : FailureCategory → Bool
is_blocking FailureCategory.http_403 = true
is_blocking FailureCategory.http_429 = true
is_blocking _ = false

-- Discovery hubs are recrawled sooner than articles.
abbrev pub is_hub : UrlType → Bool
is_hub UrlType.homepage = true
is_hub UrlType.section = true
is_hub UrlType.rss = true
is_hub UrlType.sitemap = true
is_hub _ = false

-- `if value is not None: column = value`
abbrev pub or_keep : Option String → Option String → Option String
or_keep none old = old
or_keep (some v) old = some v

-- The row with the key is changed in place, as the ORM writes it back.
unfoldable pub set_row : ℕ → (CrawlUrl → CrawlUrl) → Table → Table
unfolding update_table
set_row url_id change t = update_table (λ r. r.id == url_id) change t

-- What a successful fetch brings.
pub record Fetched : Type 0 where
  pub http_status : ℕ
  pub content_hash : Option String
  pub etag : Option String
  pub last_modified : Option String
  pub canonical_url : Option String

abbrev pub has_changed : Option String → CrawlUrl → Bool
has_changed none r = true
has_changed (some h) r = not (text_is r.content_hash h)

unfoldable pub succeeded : FrontierConfig → ℕ → Fetched → CrawlUrl → CrawlUrl
succeeded cfg now page r = record r {
  status = UrlStatus.success;
  lease_owner = none;
  lease_expires_at = none;
  last_crawled_at = some now;
  next_crawl_at = some (now + (if is_hub r.url_type then cfg.recrawl_hub else cfg.recrawl_article));
  retry_count = 0;
  last_http_status = some page.http_status;
  last_error = none;
  failure_category = none;
  content_hash = or_keep page.content_hash r.content_hash;
  etag = or_keep page.etag r.etag;
  last_modified = or_keep page.last_modified r.last_modified;
  canonical_url = or_keep page.canonical_url r.canonical_url;
}

unfoldable pub mark_success : FrontierConfig → ℕ → ℕ → Fetched → Table → Table × Bool
unfolding succeeded set_row find_row
mark_success cfg now url_id page t = elim (find_row url_id t.rows) [
  | none ↦ (t, false)
  | some r ↦ (set_row url_id (succeeded cfg now page) t, has_changed page.content_hash r)
]

unfoldable pub not_modified : FrontierConfig → ℕ → CrawlUrl → CrawlUrl
not_modified cfg now r = record r {
  status = UrlStatus.success;
  lease_owner = none;
  lease_expires_at = none;
  last_crawled_at = some now;
  next_crawl_at = some (now + cfg.recrawl_article);
  retry_count = 0;
  last_http_status = some 304;
}

-- No row with the key is no change.
unfoldable pub mark_not_modified : FrontierConfig → ℕ → ℕ → Table → Table
unfolding not_modified set_row
mark_not_modified cfg now url_id t = set_row url_id (not_modified cfg now) t

-- The status and the time of the next attempt after a failure, by the new count of retries.
unfoldable pub after_failure :
    Uniform → FrontierConfig → ℕ → FailureCategory → ℕ → UrlStatus × Option ℕ
unfolding compute_backoff_seconds
after_failure uniform cfg now category retry_count =
    if is_permanent category
    then (UrlStatus.blocked, none)
    else if leb cfg.max_retries retry_count
    then (UrlStatus.failed, none)
    else let backoff = compute_backoff_seconds uniform retry_count in
      (
        UrlStatus.retry_pending,
        some (now + (if is_blocking category then backoff * 4 else backoff)),
      )

unfoldable pub failed_once :
    Uniform → FrontierConfig → ℕ → FailureCategory → String → Option ℕ → CrawlUrl → CrawlUrl
unfolding after_failure
failed_once uniform cfg now category error http_status r =
    let (status, next) = after_failure uniform cfg now category (r.retry_count + 1) in
    record r {
      retry_count = r.retry_count + 1;
      lease_owner = none;
      lease_expires_at = none;
      last_http_status = http_status;
      last_error = some (take_chars 2000 error);
      failure_category = some category;
      last_crawled_at = some now;
      status = status;
      next_crawl_at = next;
    }

unfoldable pub mark_failed :
    Uniform
    → FrontierConfig
    → ℕ
    → ℕ
    → FailureCategory
    → String
    → Option ℕ
    → Table
    → Table × UrlStatus
unfolding failed_once set_row find_row
mark_failed uniform cfg now url_id category error http_status t = elim (find_row url_id t.rows) [
  | none ↦ (t, UrlStatus.failed)
  | some r ↦ (
    set_row url_id (failed_once uniform cfg now category error http_status) t,
    (failed_once uniform cfg now category error http_status r).status,
  )
]

unfoldable pub skipped : String → CrawlUrl → CrawlUrl
skipped reason r = record r {
  status = UrlStatus.skipped;
  lease_owner = none;
  lease_expires_at = none;
  last_error = some (take_chars 2000 reason);
}

unfoldable pub skip : ℕ → String → Table → Table
unfolding skipped set_row
skip url_id reason t = set_row url_id (skipped reason) t

abbrev pub failed_in : ℕ → CrawlUrl → Bool
failed_in source_id r = r.source_id == source_id && is_failed r.status

unfoldable pub retried : ℕ → Option ℕ → CrawlUrl → CrawlUrl
retried now crawl_job_id r = record r {
  status = UrlStatus.retry_pending;
  retry_count = 0;
  next_crawl_at = some now;
  crawl_job_id = crawl_job_id;
}

-- The new table and the number of rows that are retried.
unfoldable pub requeue_failed : ℕ → ℕ → Option ℕ → Table → Table × ℕ
unfolding retried update_table count_if
requeue_failed now source_id crawl_job_id t = (
  update_table (failed_in source_id) (retried now crawl_job_id) t,
  count_if (failed_in source_id) t.rows,
)
