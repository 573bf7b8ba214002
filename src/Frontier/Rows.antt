-- ===== src/Frontier/Rows.antt =====
-- The table `crawl_urls`: a row for each URL, and the statements UPDATE ... WHERE and INSERT.
-- Instants are microseconds; a UUID is a number, of which only equality is used; `none` is NULL.
use news_crawl_intelligence.Prelude.{
  ℕ, ◌*◌, Bool, true, false, String, List, [], ◌∷◌, Option, none, some, map, str_eq, ◌==◌, leb,
  if◌then◌else◌,
}
use news_crawl_intelligence.Prelude.Int.{ℤ}
use news_crawl_intelligence.Contracts.{UrlStatus, UrlType, FailureCategory}
use news_crawl_intelligence.Backoff.{hour, minute}

pub record CrawlUrl : Type 0 where
  pub id : ℕ
  pub url : String
  pub canonical_url : Option String
  pub normalized_url : String
  pub url_hash : String
  pub domain : String
  pub source_id : ℕ
  pub discovered_from : Option String
  pub depth : ℕ
  pub priority : ℤ
  pub url_type : UrlType
  pub status : UrlStatus
  pub first_seen_at : ℕ
  pub last_seen_at : ℕ
  pub last_crawled_at : Option ℕ
  pub next_crawl_at : Option ℕ
  pub retry_count : ℕ
  pub last_http_status : Option ℕ
  pub last_error : Option String
  pub failure_category : Option FailureCategory
  pub content_hash : Option String
  pub etag : Option String
  pub last_modified : Option String
  pub lease_owner : Option String
  pub lease_expires_at : Option ℕ
  pub crawl_job_id : Option ℕ

-- The rows, and the next value of the identity column.
pub record Table : Type 0 where
  pub rows : List CrawlUrl
  pub next_id : ℕ

-- The settings of a `Frontier`; the two recrawl intervals are durations.
pub record FrontierConfig : Type 0 where
  pub lease_seconds : ℕ
  pub max_retries : ℕ
  pub recrawl_article : ℕ
  pub recrawl_hub : ℕ

abbrev pub default_frontier : FrontierConfig
default_frontier = record {
  lease_seconds = 300;
  max_retries = 5;
  recrawl_article = 24 * hour;
  recrawl_hub = 30 * minute;
}

-- QUEUED or RETRY_PENDING
abbrev pub is_claimable : UrlStatus → Bool
is_claimable UrlStatus.queued = true
is_claimable UrlStatus.retry_pending = true
is_claimable _ = false

-- LEASED or CRAWLING
abbrev pub is_held : UrlStatus → Bool
is_held UrlStatus.leased = true
is_held UrlStatus.crawling = true
is_held _ = false

abbrev pub is_failed : UrlStatus → Bool
is_failed UrlStatus.failed = true
is_failed _ = false

-- `column == value` and `column <= value` of a nullable column: NULL passes neither.
abbrev pub text_is : Option String → String → Bool
text_is none s = false
text_is (some t) s = str_eq t s

abbrev pub number_is : Option ℕ → ℕ → Bool
number_is none n = false
number_is (some m) n = m == n

abbrev pub is_at_most : Option ℕ → ℕ → Bool
is_at_most none n = false
is_at_most (some m) n = leb m n

-- UPDATE crawl_urls SET `change` WHERE `test`
unfoldable pub update_where :
    (CrawlUrl → Bool) → (CrawlUrl → CrawlUrl) → List CrawlUrl → List CrawlUrl
update_where test change rows = map (λ r. if test r then change r else r) rows

unfoldable pub update_table : (CrawlUrl → Bool) → (CrawlUrl → CrawlUrl) → Table → Table
unfolding update_where
update_table test change t = record t { rows = update_where test change t.rows }

-- `db.get(CrawlUrl, url_id)`: the first row with the key, which is the only one.
unfoldable pub find_row : ℕ → List CrawlUrl → Option CrawlUrl
find_row id [] = none
find_row id (r ∷ rows) = if r.id == id then some r else find_row id rows
