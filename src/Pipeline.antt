-- ===== src/Pipeline.antt =====
-- The frontier pipeline of the crawl workers (apps/crawler/newscrawl_crawler/pipelines/frontier.py): a
-- fetched page goes to the frontier, to the attempts, to its job and to the queue of the processor.
pub mod Enqueued
use news_crawl_intelligence.Prelude.{
  ℕ, ◌&&◌, not, Bool, true, false, String, List, [], ◌∷◌, ◌++◌, Option, none, some, map, str_eq,
  if◌then◌else◌,
}
use news_crawl_intelligence.Contracts.{UrlType, FetchMethod, AttemptOutcome}
use news_crawl_intelligence.UrlNorm.{UrlLib}
use news_crawl_intelligence.Frontier.Rows.{Table, FrontierConfig}
use news_crawl_intelligence.Frontier.Discovery.{SourceLike, DiscoveredUrl, add_urls}
use news_crawl_intelligence.Frontier.Outcomes.{Fetched, mark_success, mark_not_modified}
use news_crawl_intelligence.CrawlJobs.{CrawlJob}
use news_crawl_intelligence.CrawlJobs.Counters.{increment_counters}

pub record DiscoveredLink : Type 0 where
  pub url : String
  pub url_type : UrlType
  pub published_at : Option ℕ

-- What the spider extracted; a missing text is `none`.
pub record Extracted : Type 0 where
  pub title : Option String
  pub author : Option String
  pub published_at : Option String
  pub body : Option String

pub record PageItem : Type 0 where
  pub url_id : ℕ
  pub url_type : UrlType
  pub normalized_url : String
  pub http_status : ℕ
  pub crawl_job_id : Option ℕ
  pub not_modified : Bool
  pub fetch_method : FetchMethod
  pub duration_ms : Option ℕ
  pub etag : Option String
  pub last_modified : Option String
  pub canonical_url : Option String
  -- The length of the page, if it is not empty.
  pub raw_html : Option ℕ
  pub raw_html_location : Option String
  pub extracted : Option Extracted
  pub discovered : List DiscoveredLink

pub record CrawlAttempt : Type 0 where
  pub url_id : ℕ
  pub crawl_job_id : Option ℕ
  pub worker_id : String
  pub fetch_method : FetchMethod
  pub outcome : AttemptOutcome
  pub http_status : ℕ
  pub duration_ms : Option ℕ
  pub bytes_downloaded : Option ℕ

-- The tables that a page changes.
pub record Tables : Type 0 where
  pub urls : Table
  pub jobs : List CrawlJob
  pub attempts : List CrawlAttempt

-- How the pipeline ends: the item is returned, and put on the queue or not, or it is dropped.
pub data Ending : Type 0 where
  enqueued returned dropped : Ending

unfoldable pub frontier_discoveries : List DiscoveredLink → String → List DiscoveredUrl
frontier_discoveries links from_url =
    map
      (λ link. record {
        url = link.url;
        url_type = link.url_type;
        discovered_from = some from_url;
        depth = 0;
        published_at = link.published_at;
      })
      links

unfoldable pub attempt_of : String → PageItem → CrawlAttempt
attempt_of worker_id item = record {
  url_id = item.url_id;
  crawl_job_id = item.crawl_job_id;
  worker_id = worker_id;
  fetch_method = item.fetch_method;
  outcome = if item.not_modified then AttemptOutcome.not_modified else AttemptOutcome.success;
  http_status = item.http_status;
  duration_ms = item.duration_ms;
  bytes_downloaded = item.raw_html;
}

abbrev pub is_article : UrlType → Bool
is_article UrlType.article = true
is_article _ = false

abbrev pub is_filled : Option String → Bool
is_filled none = false
is_filled (some text) = not (str_eq text "")

abbrev pub is_extracted : Option Extracted → Bool
is_extracted none = false
is_extracted (some e) = is_filled e.title && is_filled e.body

-- `content_hash` is the function of the crawler utilities.
abbrev digest_of : (Extracted → String) → Bool → Option Extracted → Option String
digest_of content_hash true (some e) = some (content_hash e)
digest_of content_hash _ _ = none

unfoldable pub fetched : (Extracted → String) → PageItem → Fetched
fetched content_hash item = record {
  http_status = item.http_status;
  content_hash = digest_of content_hash (is_article item.url_type) item.extracted;
  etag = item.etag;
  last_modified = item.last_modified;
  canonical_url = item.canonical_url;
}

abbrev count_for : Option ℕ → List (String × ℕ) → List CrawlJob → Option (List CrawlJob)
count_for none counters jobs = some jobs
count_for (some job_id) counters jobs = increment_counters job_id counters jobs

abbrev unchanged_counts : List (String × ℕ)
unchanged_counts = ("pages_requested", 1) ∷ ("pages_successful", 1) ∷ ("pages_unchanged", 1) ∷ []

abbrev success_counts : Bool → List (String × ℕ)
success_counts changed =
    ("pages_requested", 1)
    ∷ ("pages_successful", 1)
    ∷ ("pages_changed", if changed then 1 else 0)
    ∷ ("pages_unchanged", if changed then 0 else 1)
    ∷ []

-- After the commit: changed articles that can be extracted go to the queue.
unfoldable pub enqueue : PageItem → Bool → Ending
enqueue item changed =
    if not (is_article item.url_type)
    then Ending.returned
    else if not (is_extracted item.extracted)
    then Ending.dropped
    else if not changed
    then Ending.returned
    else if is_filled item.raw_html_location
    then Ending.enqueued
    else Ending.dropped

abbrev pub with_jobs : Tables → Ending → Option (List CrawlJob) → Option (Tables × Ending)
with_jobs t ending none = none
with_jobs t ending (some jobs) = some (record t { jobs = jobs }, ending)

unfoldable pub record_page :
    (Extracted → String)
    → FrontierConfig
    → ℕ
    → String
    → PageItem
    → Tables
    → Option (Tables × Ending)
unfolding attempt_of fetched enqueue mark_success mark_not_modified increment_counters
record_page content_hash cfg now worker_id item t =
    let attempts = t.attempts ++ attempt_of worker_id item ∷ [] in
    let page = mark_success cfg now item.url_id (fetched content_hash item) t.urls in
    if item.not_modified
    then with_jobs
        (record t { urls = mark_not_modified cfg now item.url_id t.urls; attempts = attempts })
        Ending.returned (count_for item.crawl_job_id unchanged_counts t.jobs)
    else with_jobs (record t { urls = page.0; attempts = attempts }) (enqueue item page.1)
        (count_for item.crawl_job_id (success_counts page.1) t.jobs)

abbrev then_record :
    (Extracted → String)
    → FrontierConfig
    → ℕ
    → String
    → PageItem
    → Tables
    → Option (Table × ℕ)
    → Option (Tables × Ending)
then_record content_hash cfg now worker_id item t none = none
then_record content_hash cfg now worker_id item t (some (urls, added)) =
    record_page content_hash cfg now worker_id item (record t { urls = urls })

abbrev discover :
    UrlLib
    → SourceLike
    → ℕ
    → ℕ
    → Option ℕ
    → String
    → List DiscoveredLink
    → Table
    → Option (Table × ℕ)
discover lib source now server_now job from_url [] t = some (t, 0)
discover lib source now server_now job from_url (link ∷ links) t =
    add_urls lib source (frontier_discoveries (link ∷ links) from_url) job false now server_now t

-- `none` is an exception inside the transaction, which leaves the tables as they were.
unfoldable pub process_item :
    UrlLib
    → (Extracted → String)
    → FrontierConfig
    → SourceLike
    → ℕ
    → ℕ
    → String
    → PageItem
    → Tables
    → Option (Tables × Ending)
unfolding add_urls frontier_discoveries record_page
process_item lib content_hash cfg source now server_now worker_id item t =
    then_record content_hash cfg now worker_id item t (
      discover lib source now server_now item.crawl_job_id item.normalized_url item.discovered
        t.urls)
