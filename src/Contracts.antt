-- ===== src/Contracts.antt =====
-- The enums that the control, crawl and processing planes share
-- (packages/contracts/newscrawl_contracts/enums.py, streams.py).
use news_crawl_intelligence.Prelude.{String}

pub data CrawlJobStatus : Type 0 where
  created queued running paused completed failed cancelled : CrawlJobStatus

pub data CrawlJobType : Type 0 where
  full_crawl incremental_crawl section_crawl url_crawl retry_failed backfill : CrawlJobType

pub data UrlStatus : Type 0 where
  discovered queued leased crawling success failed retry_pending blocked skipped : UrlStatus

pub data UrlType : Type 0 where
  homepage section article sitemap rss other : UrlType

pub data FetchMethod : Type 0 where
  http browser : FetchMethod

pub data AttemptOutcome : Type 0 where
  success not_modified failed blocked skipped : AttemptOutcome

pub data FailureCategory : Type 0 where
  dns_failure connection_timeout http_403 http_429 http_5xx http_other robots_restricted :
      FailureCategory
  parser_failure browser_failure database_failure llm_failure embedding_failure unknown :
      FailureCategory

pub data ProcessingStage : Type 0 where
  cleaning llm_extraction embedding : ProcessingStage

pub data ProcessingStatus : Type 0 where
  pending running completed failed dead_letter : ProcessingStatus

pub data Language : Type 0 where
  bangla english unknown : Language

pub data WorkerStatus : Type 0 where
  starting running draining stopped : WorkerStatus

abbrev pub stream_cleaning : String
stream_cleaning = "processing:cleaning"

abbrev pub stream_llm : String
stream_llm = "processing:llm"

abbrev pub stream_embedding : String
stream_embedding = "processing:embedding"

abbrev pub stream_dead_letter : String
stream_dead_letter = "processing:dead-letter"

abbrev pub stream_delayed : String
stream_delayed = "processing:delayed"
