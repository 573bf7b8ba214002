-- ===== src/Lib.antt =====
-- The NewsCrawl Intelligence Platform: a distributed crawler of news sites and the pipeline that cleans
-- and stores what it brings. This library models the core of its Python services.
--
-- The parts. An API process keeps sources, crawl jobs and the URL frontier in Postgres. Crawl workers
-- claim URLs from the frontier under a lease, fetch them within the rate of each domain, report the outcome and
-- add the links that they find. Changed articles go through Redis streams to the processing workers, which
-- clean them, remove duplicates and keep versions; new content is analysed by language models and embedded,
-- and a retention worker deletes what is too old.
--
-- The files, with the code that each models:
--   Contracts   packages/contracts/newscrawl_contracts/enums.py, streams.py
--   Backoff     packages/crawler-utils/newscrawl_crawler_utils/backoff.py
--   Priority    apps/api/newscrawl_api/services/priority.py
--   Simhash     packages/crawler-utils/newscrawl_crawler_utils/simhash.py
--   UrlNorm     packages/crawler-utils/newscrawl_crawler_utils/urlnorm.py
--   Frontier    apps/api/newscrawl_api/services/frontier.py (class Frontier) and the table CrawlUrl of
--               apps/api/newscrawl_api/models/crawl.py: Rows holds the table, Discovery add_urls, Claims the
--               operations on leases, Outcomes the results of a crawl; Steps is the transition system of
--               all of them, and the other children hold proofs
--   CrawlJobs   apps/api/newscrawl_api/services/crawl_jobs.py, and _load_job and _finish_job of
--               apps/crawler/newscrawl_crawler/run_worker.py
--   Articles    apps/processor/newscrawl_processor/dedup.py (Dedup) and articles.py (Persist), with the
--               tables of apps/api/newscrawl_api/models/article.py (Rows)
--   Queues      apps/api/newscrawl_api/coordination/queues.py, and in Queues.Cleaning the worker of
--               apps/processor/newscrawl_processor/run_worker.py
--   Pipeline    apps/crawler/newscrawl_crawler/pipelines/frontier.py (process_item)
--   RateLimit   apps/api/newscrawl_api/coordination/ratelimit.py, with the Lua script, and in Politeness
--               apps/crawler/newscrawl_crawler/middlewares.py
--   Spider      apps/crawler/newscrawl_crawler/spiders/base.py: claims here, parsers in Discovered, responses in
--               Pages and failures in Failures
--   Retention   apps/processor/newscrawl_processor/retention.py and run_retention_worker.py (_interval_seconds)
--   Llm         apps/processor/newscrawl_processor/llm/extractor.py, and in its children heuristic.py, persist.py
--               and run_llm_worker.py (Worker), and the chain of providers.py (Chain)
--   CrawlWorker apps/crawler/newscrawl_crawler/run_worker.py, and apps/api/newscrawl_api/coordination/control.py
--               (Signals)
--   Embeddings  apps/processor/newscrawl_processor/embeddings.py and run_embedding_worker.py (Worker)
--   Auth        apps/api/newscrawl_api/services/auth.py, with the routes of api/v1/auth.py and api/deps.py
--   Cleaning    apps/processor/newscrawl_processor/cleaning.py and language.py
--   Heartbeat   apps/api/newscrawl_api/coordination/heartbeat.py
--   Prelude     lists, sorting, texts and integers; Examples: the theorems at concrete inputs
--
-- How the code is read. A table is a list of rows, and each SQL statement one function on it; a method
-- keeps its name and its order of arguments, with the time that the code reads from its clock as an
-- argument. Instants are microseconds, scores ten-thousandths. A UUID is a number of which only equality
-- is used; NULL and None are `none`. An exception is `none` or a constructor of a result type. What is not
-- in the repository is a parameter: urllib and w3lib (UrlNorm.UrlLib), the word splitter and the feature
-- hash, the random draw, JSON (Queues.Codec), the order in which the database answers (`order_by`,
-- `select`) and the rows that other transactions have locked (`locked`). Redis is seen through the commands
-- that an operation sends. Loops are structural, but for three on fuel: `deliveries` is given as many steps as
-- a message has attempts, `wait_turn` two where no other worker disturbs it (how often it is disturbed has no
-- bound), and `delete_chunks` as many as there are keys.
--
-- Not modelled: HTTP routing and the reports of the API, the HTML extraction, the calls of language models
-- and the validators of their schema, search, the loops of the workers around their messages,
-- settings, metrics and logging, and the web application. They are input and output, calls of services, or
-- build on the modelled services.
pub mod Prelude
pub mod Contracts
pub mod Backoff
pub mod Priority
pub mod Simhash
pub mod UrlNorm
pub mod Frontier
pub mod CrawlJobs
pub mod Articles
pub mod Queues
pub mod Pipeline
pub mod RateLimit
pub mod Spider
pub mod Retention
pub mod Llm
pub mod CrawlWorker
pub mod Embeddings
pub mod Auth
pub mod Cleaning
pub mod Heartbeat
pub mod Examples
