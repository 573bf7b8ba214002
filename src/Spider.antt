-- ===== src/Spider.antt =====
-- The spider that all sources share (apps/crawler/newscrawl_crawler/spiders/base.py): it claims leased
-- URLs within the budget of a pass. The children have what it does with a page and with a failure.
pub mod Budget
pub mod Discovered
pub mod Links
pub mod Pages
pub mod Once
pub mod Failures
pub mod Refused
use news_crawl_intelligence.Prelude.{
  ℕ, zero, ◌+◌, ◌-◌, ◌&&◌, not, ltb, leb, ◌==◌, min, Bool, true, false, String, List, [], ◌∷◌, ◌++◌,
  Option, none, some, map, length, str_eq, if◌then◌else◌,
}
use news_crawl_intelligence.Contracts.{UrlType}
use news_crawl_intelligence.UrlNorm.{NormalizationConfig}
use news_crawl_intelligence.Frontier.Rows.{CrawlUrl, Table, FrontierConfig}
use news_crawl_intelligence.Frontier.Claims.{claim_batch}

-- The arguments of the spider and what it reads of its source. A compiled pattern is the test
-- `pattern.match`.
pub record SpiderConfig : Type 0 where
  pub source_id : ℕ
  pub source_slug : String
  pub requires_browser : Bool
  pub article_patterns : List (String → Bool)
  pub norm_config : NormalizationConfig
  pub crawl_job_id : Option ℕ
  pub batch_size : ℕ
  -- Zero is no limit.
  pub max_pages : ℕ
  pub worker_id : String

pub record SpiderState : Type 0 where
  pub pages_claimed : ℕ
  pub exhausted : Bool

abbrev pub initial : SpiderState
initial = record { pages_claimed = 0; exhausted = false }

-- A request with its headers and `meta`. With a browser it names the browser's context.
pub record Request : Type 0 where
  pub url : String
  pub if_none_match : Option String
  pub if_modified_since : Option String
  pub url_id : ℕ
  pub url_type : UrlType
  pub fetch_started : ℕ
  pub playwright : Bool
  pub playwright_context : Option String
  pub browser_retry : Bool

abbrev pub is_xml : UrlType → Bool
is_xml UrlType.sitemap = true
is_xml UrlType.rss = true
is_xml _ = false

unfoldable pub needs_browser : SpiderConfig → UrlType → Bool
needs_browser cfg url_type = cfg.requires_browser && not (is_xml url_type)

-- A header that is missing, or empty, is not sent.
abbrev pub header_if : Bool → Option String → Option String
header_if use_browser none = none
header_if use_browser (some value) =
    if use_browser then none else if str_eq value "" then none else some value

unfoldable pub request_of : SpiderConfig → ℕ → CrawlUrl → Request
unfolding needs_browser
request_of cfg now row =
    let use_browser = needs_browser cfg row.url_type in
    record {
      url = row.normalized_url;
      if_none_match = header_if use_browser row.etag;
      if_modified_since = header_if use_browser row.last_modified;
      url_id = row.id;
      url_type = row.url_type;
      fetch_started = now;
      playwright = use_browser;
      playwright_context = if use_browser then some cfg.source_slug else none;
      browser_retry = false;
    }

-- What a claim finds: the time, the rows that others have locked, and the table.
pub record World : Type 0 where
  pub now : ℕ
  pub locked : ℕ → Bool
  pub table : Table

-- How many rows the claim asks for: no limit is left when the budget is spent.
unfoldable pub claim_limit : SpiderConfig → SpiderState → ℕ
claim_limit cfg s =
    if cfg.max_pages == 0
    then cfg.batch_size
    else min cfg.batch_size (cfg.max_pages - s.pages_claimed)

-- The state and the requests, once the rows are claimed.
unfoldable pub claimed_as :
    SpiderConfig → ℕ → SpiderState → List CrawlUrl → SpiderState × List Request
unfolding request_of
claimed_as cfg now s [] = (record s { exhausted = true }, [])
claimed_as cfg now s (row ∷ rows) = (
  record s { pages_claimed = s.pages_claimed + length (row ∷ rows) },
  map (request_of cfg now) (row ∷ rows),
)

module _ (order_by : List CrawlUrl → List CrawlUrl) (frontier : FrontierConfig)
    (cfg : SpiderConfig) where
  unfoldable pub claim_requests : World → SpiderState → SpiderState × Table × List Request
  unfolding claim_limit claim_batch claimed_as
  claim_requests w s =
      let limit = claim_limit cfg s in
      let (t, rows) =
        claim_batch order_by frontier w.now w.locked cfg.worker_id limit (some cfg.source_id)
          cfg.crawl_job_id w.table in
      let (s', requests) = claimed_as cfg w.now s rows in
      if not (cfg.max_pages == 0) && leb cfg.max_pages s.pages_claimed
      then (record s { exhausted = true }, w.table, [])
      else if not (cfg.max_pages == 0) && limit == 0
      then (record s { exhausted = true }, w.table, [])
      else (s', t, requests)

  -- A pass: a claim at the start, and one whenever the scheduler runs dry, until the spider is
  -- exhausted and may close. Other workers change the table in between.
  unfoldable pub crawl_pass : SpiderState → List World → SpiderState × List Request
  unfolding claim_requests
  crawl_pass s [] = (s, [])
  crawl_pass s (w ∷ worlds) =
      let (s', t, requests) = claim_requests w s in
      let (last, more) = crawl_pass s' worlds in
      if s.exhausted then (s, []) else (last, requests ++ more)
