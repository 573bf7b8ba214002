-- ===== src/Spider/Refused.antt =====
-- What a failed request does to its URL and its job.
use news_crawl_intelligence.Prelude.{
  ℕ, ◌+◌, ◌≡◌, refl, ap, ◌∙◌, leb, false, String, List, Option, none, some, arith, if◌then◌else◌,
}
use news_crawl_intelligence.Prelude.Text.{take_chars}
use news_crawl_intelligence.Contracts.{FailureCategory, UrlStatus}
use news_crawl_intelligence.Backoff.{Uniform}
use news_crawl_intelligence.Frontier.Rows.{CrawlUrl, Table, FrontierConfig, find_row}
use news_crawl_intelligence.Frontier.Outcomes.{
  is_permanent, after_failure, failed_once, mark_failed,
}
use news_crawl_intelligence.CrawlJobs.{CrawlJob}
use news_crawl_intelligence.Spider.Failures.{
  Failure, FailureType, is_ignore_request, classify_http, classify_type, classify_failure, on_error,
}

module _ (show : ℕ → String) where
  classify_http-is_permanent :
      (message : String) (status : ℕ) → is_permanent (classify_http show message status).0 ≡ false
  classify_http-is_permanent message status = ground arith

  classify_type-is_permanent :
      (message : String) (type : FailureType)
      → is_permanent (classify_type show message type).0 ≡ false
  classify_type-is_permanent message FailureType.ignore_request = refl
  classify_type-is_permanent message (FailureType.http_error status) =
      classify_http-is_permanent message status
  classify_type-is_permanent message FailureType.dns_lookup_error = refl
  classify_type-is_permanent message FailureType.timeout = refl
  classify_type-is_permanent message FailureType.connection_refused = refl
  classify_type-is_permanent message FailureType.other = refl

  -- What Scrapy counts as ignored is given up for good, and nothing else is.
  classify_failure-is_permanent :
      (f : Failure) → is_permanent (classify_failure show f).0 ≡ is_ignore_request f.failure_type
  unfolding classify_failure
  classify_failure-is_permanent f =
      ground (arith, classify_type-is_permanent (take_chars 500 f.message) f.failure_type)

  -- What `after_failure` makes of the status.
  after_failure-status :
      (uniform : Uniform) (cfg : FrontierConfig) (now : ℕ) (category : FailureCategory) (n : ℕ)
      → (after_failure uniform cfg now category n).0 ≡ (
          if is_permanent category
          then UrlStatus.blocked
          else if leb cfg.max_retries n
          then UrlStatus.failed
          else UrlStatus.retry_pending)
  unfolding after_failure
  after_failure-status uniform cfg now category n = ground arith

  mark_failed-known :
      (uniform : Uniform) (cfg : FrontierConfig) (now url_id : ℕ) (category : FailureCategory)
      (error : String) (t : Table) (r : CrawlUrl)
      → find_row url_id t.rows ≡ some r
      → (mark_failed uniform cfg now url_id category error none t).1
        ≡ (after_failure uniform cfg now category (r.retry_count + 1)).0
  unfolding mark_failed failed_once find_row
  mark_failed-known uniform cfg now url_id category error t r known = rw (known, mark_failed) refl

  -- What becomes of a URL with a number of failures, by the last of them.
  abbrev pub status_after : FrontierConfig → FailureType → ℕ → UrlStatus
  status_after cfg FailureType.ignore_request failures = UrlStatus.blocked
  status_after cfg (FailureType.http_error status) failures = UrlStatus.blocked
  status_after cfg _ failures =
      if leb cfg.max_retries failures then UrlStatus.failed else UrlStatus.retry_pending

  status_after-is_ignore_request :
      (cfg : FrontierConfig) (type : FailureType) (failures : ℕ)
      → (if is_ignore_request type
          then UrlStatus.blocked
          else if leb cfg.max_retries failures
          then UrlStatus.failed
          else UrlStatus.retry_pending)
        ≡ status_after cfg type failures
  status_after-is_ignore_request cfg FailureType.ignore_request failures = refl
  status_after-is_ignore_request cfg (FailureType.http_error status) failures = refl
  status_after-is_ignore_request cfg FailureType.dns_lookup_error failures = refl
  status_after-is_ignore_request cfg FailureType.timeout failures = refl
  status_after-is_ignore_request cfg FailureType.connection_refused failures = refl
  status_after-is_ignore_request cfg FailureType.other failures = refl

  -- A request of a URL in the table failed: if robots.txt disallows the URL, but also if the
  -- answer was an HTTP error, whatever its status, the URL is blocked at once, with retries left
  -- or not; any other is given up when its retries are used up, and waits for another try before
  -- that.
  pub on_error-status :
      (uniform : Uniform) (cfg : FrontierConfig) (now : ℕ) (job : Option ℕ) (url_id : ℕ)
      (url : String) (f : Failure) (t : Table) (jobs : List CrawlJob) (r : CrawlUrl)
      → find_row url_id t.rows ≡ some r
      → (on_error show uniform cfg now job (some url_id) url f t jobs).1
        ≡ some (status_after cfg f.failure_type (r.retry_count + 1))
  unfolding on_error
  on_error-status uniform cfg now job url_id url f t jobs r known =
      let category = (classify_failure show f).0 in
      ap some (
        mark_failed-known uniform cfg now url_id category (classify_failure show f).1 t r known
        ∙ after_failure-status uniform cfg now category (r.retry_count + 1)
        ∙ ap
            (λ b.
              if b
              then UrlStatus.blocked
              else if leb cfg.max_retries (r.retry_count + 1)
              then UrlStatus.failed
              else UrlStatus.retry_pending)
            (classify_failure-is_permanent f)
        ∙ status_after-is_ignore_request cfg f.failure_type (r.retry_count + 1))
