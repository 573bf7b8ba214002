-- ===== src/Examples/Pipeline.antt =====
-- One article that goes through the pipeline.
use news_crawl_intelligence.Prelude.{◌≡◌, ◌&&◌, not, refl, false, String, [], ◌∷◌, ◌++◌, none, some}
use news_crawl_intelligence.Contracts.{UrlType, FetchMethod}
use news_crawl_intelligence.Frontier.Rows.{default_frontier}
use news_crawl_intelligence.Frontier.Discovery.{inserted}
use news_crawl_intelligence.Frontier.Outcomes.{mark_success}
use news_crawl_intelligence.Examples.Frontier.{two_urls}
use news_crawl_intelligence.Pipeline.{
  Extracted, PageItem, Tables, Ending, attempt_of, fetched, is_article, is_extracted, is_filled,
  record_page,
}
use news_crawl_intelligence.Pipeline.Enqueued.{is_enqueued, record_page-enqueued}

abbrev extracted : Extracted
extracted = record {
  title = some "A title";
  author = none;
  published_at = none;
  body = some "A body";
}

abbrev item : PageItem
item = record {
  url_id = 0;
  url_type = UrlType.article;
  normalized_url = "https://example.org/news";
  http_status = 200;
  crawl_job_id = none;
  not_modified = false;
  fetch_method = FetchMethod.http;
  duration_ms = some 120;
  etag = none;
  last_modified = none;
  canonical_url = none;
  raw_html = some 4000;
  raw_html_location = some "raw/1.html";
  extracted = some extracted;
  discovered = [];
}

abbrev tables : Tables
tables = record { urls = two_urls; jobs = []; attempts = [] }

abbrev hash_of : Extracted → String
hash_of e = "h1"

abbrev recorded_tables : Tables
recorded_tables = record {
  urls = (mark_success default_frontier 90 0 (fetched hash_of item) two_urls).0;
  jobs = [];
  attempts = attempt_of "w1" item ∷ [];
}

recording :
    record_page hash_of default_frontier 90 "w1" item tables
    ≡ some (recorded_tables, Ending.enqueued)
unfolding record_page inserted
recording = refl

record_page-enqueued_example :
    (recorded_tables.attempts ≡ tables.attempts ++ attempt_of "w1" item ∷ [])
    × (is_enqueued Ending.enqueued ≡ (
        not item.not_modified
        && (is_article item.url_type
            && (is_extracted item.extracted
                && ((mark_success default_frontier 90 item.url_id
                      (fetched hash_of item)
                      tables.urls).1
                    && is_filled item.raw_html_location)))))
record_page-enqueued_example =
    record_page-enqueued hash_of default_frontier 90 "w1" item tables recorded_tables
      Ending.enqueued recording
