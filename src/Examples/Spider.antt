-- ===== src/Examples/Spider.antt =====
-- A spider with a budget of one page, a section with three links, and failures.
use news_crawl_intelligence.Prelude.{
  ℕ, ◌≤◌, ◌≡◌, ◌&&◌, refl, arith, true, false, String, [], ◌∷◌, none, some, length, count_if,
  str_eq, if◌then◌else◌,
}
use news_crawl_intelligence.Prelude.Sorting.{sort}
use news_crawl_intelligence.Frontier.Claims.{claims_first}
use news_crawl_intelligence.Frontier.Discovery.{inserted}
use news_crawl_intelligence.Contracts.{UrlStatus}
use news_crawl_intelligence.UrlNorm.{default_normalization}
use news_crawl_intelligence.Frontier.Rows.{default_frontier, find_row}
use news_crawl_intelligence.Spider.{SpiderConfig, World, Request, initial, crawl_pass, request_of}
use news_crawl_intelligence.Spider.Budget.{crawl_pass_budget, crawl_pass_ends}
use news_crawl_intelligence.Spider.Discovered.{
  DateLib, Nodes, Moment, article_link, matches_article_pattern, parse_section,
}
use news_crawl_intelligence.Spider.Links.{is_match, is_url, leads, parse_section_once}
use news_crawl_intelligence.Spider.Pages.{Article, Response, Parsed, parse_page}
use news_crawl_intelligence.Spider.Failures.{Failure, FailureType, on_error}
use news_crawl_intelligence.Spider.Refused.{on_error-status}
use news_crawl_intelligence.Examples.Frontier.{
  by_claims_first, by_claims_first-IsOrderBy, middle, two_urls, two_urls-IsKeyed, article_row,
}
use news_crawl_intelligence.Examples.Urls.{sample_lib, second_spelling}

abbrev spider : SpiderConfig
spider = record {
  source_id = 1;
  source_slug = "example";
  requires_browser = false;
  article_patterns = (λ url. str_eq url second_spelling) ∷ [];
  norm_config = default_normalization;
  crawl_job_id = none;
  batch_size = 20;
  max_pages = 1;
  worker_id = "spider-1";
}

abbrev world : World
world = record { now = 20; locked = λ id. false; table = two_urls }

-- Of the two URLs that are due the spider claims one, and then none.
one_page :
    length (crawl_pass by_claims_first default_frontier spider initial (world ∷ world ∷ [])).1 ≡ 1
unfolding crawl_pass sort inserted claims_first
one_page = refl

crawl_pass_budget_example :
    (length (crawl_pass by_claims_first default_frontier spider initial (world ∷ world ∷ [])).1 ≤ 1)
    × ((crawl_pass by_claims_first default_frontier spider initial
          (world ∷ world ∷ [])).0.pages_claimed
        ≡ length
            (crawl_pass by_claims_first default_frontier spider initial (world ∷ world ∷ [])).1)
crawl_pass_budget_example =
    crawl_pass_budget by_claims_first by_claims_first-IsOrderBy default_frontier spider
      (world ∷ world ∷ []) (omega arith) (two_urls-IsKeyed, (two_urls-IsKeyed, tt))

crawl_pass_ends_example :
    (crawl_pass by_claims_first default_frontier spider initial (world ∷ world ∷ [])).0.exhausted
    ≡ true
crawl_pass_ends_example =
    crawl_pass_ends by_claims_first by_claims_first-IsOrderBy default_frontier spider
      (world ∷ world ∷ []) (omega arith) (omega arith) (two_urls-IsKeyed, (two_urls-IsKeyed, tt))

abbrev dates : DateLib
dates = record { replace_z = λ s. s; fromisoformat = λ s. some (Moment.aware 7) }

-- A page with two links to one article, and one to another page.
abbrev nodes : Nodes
nodes = record {
  is_text = true;
  sitemaps = [];
  urls = [];
  entries = [];
  hrefs = second_spelling ∷ "https://example.org/b" ∷ second_spelling ∷ [];
}

section_parsed :
    parse_section sample_lib dates spider "https://example.org/" nodes
    ≡ some (article_link second_spelling ∷ [])
unfolding parse_section
section_parsed = refl

parse_section_once_example :
    count_if (is_url second_spelling) (article_link second_spelling ∷ []) ≡ (
      if true
        && leads sample_lib "https://example.org/" nodes.hrefs second_spelling
        && is_match (matches_article_pattern sample_lib dates spider second_spelling)
      then 1
      else 0)
parse_section_once_example =
    parse_section_once sample_lib dates spider "https://example.org/" second_spelling nodes
      (article_link second_spelling ∷ []) section_parsed

abbrev request : Request
request = request_of spider 20 article_row

-- A page whose body needs a browser.
abbrev empty_article : Article
empty_article = record {
  extracted = record { title = none; author = none; published_at = none; body = none };
  is_usable = false;
  canonical_url = none;
}

abbrev response_to : Request → Response
response_to q = record {
  request = q;
  url = second_spelling;
  status = 200;
  etag = none;
  last_modified = none;
  body = 1000;
  nodes = nodes;
  article = empty_article;
}

abbrev second_request : Request
second_request = record request {
  browser_retry = true;
  fetch_started = 30;
  playwright = true;
  playwright_context = some "example";
}

asks_again :
    parse_page sample_lib dates spider 30 (response_to request) ≡ Parsed.retry second_request
unfolding parse_page request_of inserted
asks_again = refl

abbrev unavailable : Failure
unavailable = record {
  message = "Service Unavailable";
  module_name = "scrapy.spidermiddlewares.httperror";
  failure_type = FailureType.http_error 503;
}

abbrev show : ℕ → String
show n = "503"

first_row : find_row 0 two_urls.rows ≡ some article_row
unfolding find_row inserted
first_row = refl

on_error-status_example :
    (on_error show middle default_frontier 90 none
      (some 0)
      "https://example.org/news"
      unavailable
      two_urls
      []).1
    ≡ some UrlStatus.blocked
on_error-status_example =
    on_error-status show middle default_frontier 90 none 0 "https://example.org/news" unavailable
      two_urls [] article_row first_row
