-- ===== src/Spider/Failures.antt =====
-- A request that failed: `_classify_failure` and `on_error`.
use Prim.Native.String.{◌++◌ as str_append}
use text.Mathlib.Text.{starts_with}
use news_crawl_intelligence.Prelude.{
  ℕ, ◌&&◌, ltb, leb, ◌==◌, Bool, true, false, String, List, [], ◌∷◌, Option, none, some,
  if◌then◌else◌,
}
use news_crawl_intelligence.Prelude.Text.{take_chars}
use news_crawl_intelligence.Contracts.{FailureCategory, UrlStatus}
use news_crawl_intelligence.Backoff.{Uniform}
use news_crawl_intelligence.Frontier.Rows.{Table, FrontierConfig}
use news_crawl_intelligence.Frontier.Outcomes.{mark_failed}
use news_crawl_intelligence.CrawlJobs.{CrawlJob}
use news_crawl_intelligence.CrawlJobs.Counters.{increment_counters, record_error}

-- The exceptions that `_classify_failure` asks about. An HttpError has a response with a status.
pub data FailureType : Type 0 where
  ignore_request : FailureType
  http_error : (status : ℕ) → FailureType
  dns_lookup_error timeout connection_refused other : FailureType

-- `failure.check(IgnoreRequest)`: Scrapy's HttpError is a subclass of IgnoreRequest.
abbrev pub is_ignore_request : FailureType → Bool
is_ignore_request ignore_request = true
is_ignore_request (http_error status) = true
is_ignore_request _ = false

-- What is read of a Twisted failure: its message, the module of its type, and the type.
pub record Failure : Type 0 where
  pub message : String
  pub module_name : String
  pub failure_type : FailureType

-- `show` prints a number.
module _ (show : ℕ → String) where
  abbrev pub classify_http : String → ℕ → FailureCategory × String
  classify_http message status =
      let text = str_append (str_append (str_append "HTTP " (show status)) " ") message in
      if status == 403
      then (FailureCategory.http_403, str_append "HTTP 403 " message)
      else if status == 429
      then (FailureCategory.http_429, str_append "HTTP 429 " message)
      else if leb 500 status && ltb status 600
      then (FailureCategory.http_5xx, text)
      else (FailureCategory.http_other, text)

  -- The checks behind those of IgnoreRequest and of the module.
  abbrev pub classify_type : String → FailureType → FailureCategory × String
  classify_type message dns_lookup_error = (FailureCategory.dns_failure, message)
  classify_type message timeout = (FailureCategory.connection_timeout, message)
  classify_type message connection_refused = (FailureCategory.connection_timeout, message)
  classify_type message (http_error status) = classify_http message status
  classify_type message _ = (FailureCategory.unknown, message)

  unfoldable pub classify_failure : Failure → FailureCategory × String
  unfolding take_chars
  classify_failure f =
      let message = take_chars 500 f.message in
      if is_ignore_request f.failure_type
      then (FailureCategory.robots_restricted, str_append "robots/ignored: " message)
      else if starts_with f.module_name "playwright"
      then (FailureCategory.browser_failure, str_append "playwright: " message)
      else classify_type message f.failure_type

  abbrev pub failed_counts : List (String × ℕ)
  failed_counts = ("pages_requested", 1) ∷ ("pages_failed", 1) ∷ []

  -- `none` is the error of an unknown counter.
  abbrev recorded : ℕ → String → Option (List CrawlJob) → Option (List CrawlJob)
  recorded job_id error none = none
  recorded job_id error (some jobs) = some (record_error job_id error jobs)

  unfoldable pub count_failure : Option ℕ → String → List CrawlJob → Option (List CrawlJob)
  unfolding increment_counters record_error
  count_failure none error jobs = some jobs
  count_failure (some job_id) error jobs =
      recorded job_id error (increment_counters job_id failed_counts jobs)

  -- The tables after the failure of a request, and the new status of its URL. A request without
  -- the identity of a URL changes nothing.
  unfoldable pub on_error :
      Uniform
      → FrontierConfig
      → ℕ
      → Option ℕ
      → Option ℕ
      → String
      → Failure
      → Table
      → List CrawlJob
      → Table × Option UrlStatus × Option (List CrawlJob)
  unfolding classify_failure mark_failed count_failure
  on_error uniform cfg now crawl_job_id none url failure t jobs = (t, none, some jobs)
  on_error uniform cfg now crawl_job_id (some url_id) url failure t jobs =
      let (category, message) = classify_failure failure in
      let (t', status) = mark_failed uniform cfg now url_id category message none t in
      (t', some status, count_failure crawl_job_id (str_append (str_append url ": ") message) jobs)
