-- ===== src/Spider/Pages.antt =====
-- A response: `parse_page` gives an item to the pipelines, or asks once more with a browser.
use news_crawl_intelligence.Prelude.{
  ℕ, ◌-◌, ◌/◌, ◌&&◌, not, ◌==◌, Bool, true, false, String, List, [], Option, none, some, str_eq,
  if◌then◌else◌,
}
use news_crawl_intelligence.Contracts.{UrlType, FetchMethod}
use news_crawl_intelligence.UrlNorm.{UrlLib}
use news_crawl_intelligence.Pipeline.{DiscoveredLink, Extracted, PageItem}
use news_crawl_intelligence.Spider.{SpiderConfig, Request}
use news_crawl_intelligence.Spider.Discovered.{
  DateLib, Nodes, parse_sitemap, parse_rss, parse_section,
}

-- What `extract_article` says of a page.
pub record Article : Type 0 where
  pub extracted : Extracted
  pub is_usable : Bool
  pub canonical_url : Option String

-- The response to a request; the length of an empty body is zero.
pub record Response : Type 0 where
  pub request : Request
  pub url : String
  pub status : ℕ
  pub etag : Option String
  pub last_modified : Option String
  pub body : ℕ
  pub nodes : Nodes
  pub article : Article

-- What `parse_page` yields; a ValueError yields nothing.
pub data Parsed : Type 0 where
  item : PageItem → Parsed
  retry : Request → Parsed
  raised : Parsed

abbrev filled : Option String → Option String
filled none = none
filled (some text) = if str_eq text "" then none else some text

-- The item of a page before it is parsed. An instant is in microseconds, the duration in
-- milliseconds.
unfoldable pub page_item : SpiderConfig → ℕ → Response → PageItem
page_item cfg now r = record {
  url_id = r.request.url_id;
  url_type = r.request.url_type;
  normalized_url = r.url;
  http_status = r.status;
  crawl_job_id = cfg.crawl_job_id;
  not_modified = false;
  fetch_method = if r.request.playwright then FetchMethod.browser else FetchMethod.http;
  duration_ms = some ((now - r.request.fetch_started) / 1000);
  etag = filled r.etag;
  last_modified = filled r.last_modified;
  canonical_url = none;
  raw_html = none;
  raw_html_location = none;
  extracted = none;
  discovered = [];
}

-- The request once more, with a browser, or none if it was one already.
unfoldable pub browser_retry_request : SpiderConfig → ℕ → Request → Option Request
browser_retry_request cfg now request =
    if request.browser_retry
    then none
    else some (record request {
      browser_retry = true;
      fetch_started = now;
      playwright = true;
      playwright_context = some cfg.source_slug;
    })

abbrev pub with_links : PageItem → Option (List DiscoveredLink) → Parsed
with_links page none = raised
with_links page (some links) = item (record page { discovered = links })

abbrev body_of : ℕ → Option ℕ
body_of n = if n == 0 then none else some n

abbrev pub article_item : PageItem → Response → PageItem
article_item page r = record page {
  raw_html = body_of r.body;
  extracted = some r.article.extracted;
  canonical_url = r.article.canonical_url;
}

-- The request that is tried instead, if there is one.
abbrev pub or_retry : Option Request → Parsed → Parsed
or_retry none otherwise = otherwise
or_retry (some request) otherwise = retry request

module _ (lib : UrlLib) (dates : DateLib) (cfg : SpiderConfig) where
  unfoldable pub parse_article : ℕ → PageItem → Response → Parsed
  unfolding parse_section browser_retry_request
  parse_article now page r =
      let done = with_links (article_item page r) (parse_section lib dates cfg r.url r.nodes) in
      if not r.article.is_usable && not r.request.playwright
      then or_retry (browser_retry_request cfg now r.request) done
      else done

  unfoldable pub parse_typed : ℕ → PageItem → Response → UrlType → Parsed
  unfolding parse_article parse_sitemap parse_rss parse_section
  parse_typed now page r UrlType.sitemap = with_links page (parse_sitemap lib dates cfg r.nodes)
  parse_typed now page r UrlType.rss = with_links page (parse_rss lib dates cfg r.nodes)
  parse_typed now page r UrlType.homepage =
      with_links page (parse_section lib dates cfg r.url r.nodes)
  parse_typed now page r UrlType.section =
      with_links page (parse_section lib dates cfg r.url r.nodes)
  parse_typed now page r UrlType.article = parse_article now page r
  parse_typed now page r UrlType.other = item page

  unfoldable pub parse_page : ℕ → Response → Parsed
  unfolding page_item parse_typed
  parse_page now r =
      let page = page_item cfg now r in
      if r.status == 304
      then item (record page { not_modified = true })
      else parse_typed now page r r.request.url_type
