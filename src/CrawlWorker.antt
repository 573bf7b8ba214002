-- ===== src/CrawlWorker.antt =====
-- The crawl worker (apps/crawler/newscrawl_crawler/run_worker.py): the order of the sources, a pass over
-- them with the signals that pause and resume sources (apps/api/newscrawl_api/coordination/control.py),
-- and the run of one job.
pub mod Signals
pub mod Paused
use news_crawl_intelligence.Prelude.{
  ℕ, zero, suc, ◌+◌, ◌&&◌, ◌||◌, not, ltb, leb, ◌==◌, Bool, true, false, String, List, [], ◌∷◌,
  ◌++◌, Option, none, some, any, filter, length, count_if, str_eq, if◌then◌else◌,
}
use news_crawl_intelligence.Prelude.Sorting.{sort}
use news_crawl_intelligence.Prelude.Text.{str_leb}
use news_crawl_intelligence.Contracts.{UrlStatus, UrlType}
use news_crawl_intelligence.Frontier.Rows.{CrawlUrl, Table, FrontierConfig, is_claimable}
use news_crawl_intelligence.Frontier.Outcomes.{is_hub}
use news_crawl_intelligence.CrawlJobs.{CrawlJob, load_job, finish_job}
use news_crawl_intelligence.Spider.{SpiderConfig, World, Request, initial, crawl_pass}
use news_crawl_intelligence.CrawlWorker.Signals.{ControlSignal, WorkerState, on_controls}

-- What the worker reads of a source.
pub record Source : Type 0 where
  pub id : ℕ
  pub slug : String
  pub enabled : Bool
  pub crawl_enabled : Bool

-- `slug` is the one of the command line, empty if none was given.
unfoldable pub load_sources : Option String → List Source → List Source
unfolding filter
load_sources none sources = filter (λ s. s.enabled && s.crawl_enabled) sources
load_sources (some slug) sources =
    if str_eq slug ""
    then filter (λ s. s.enabled && s.crawl_enabled) sources
    else filter (λ s. str_eq s.slug slug) sources

-- What the queries count for a source: its articles, given by their sources, and its URLs that wait.
unfoldable pub art_count : List ℕ → ℕ → ℕ
unfolding count_if
art_count articles source_id = count_if (λ s. s == source_id) articles

unfoldable pub due_count : List CrawlUrl → ℕ → ℕ
unfolding count_if
due_count urls source_id = count_if (λ r. r.source_id == source_id && is_claimable r.status) urls

unfoldable pub hub_pending : List CrawlUrl → ℕ → ℕ
unfolding count_if
hub_pending urls source_id =
    count_if (λ r. r.source_id == source_id && (is_claimable r.status && is_hub r.url_type)) urls

-- The order of the tuples (articles, -hubs, -due, slug).
abbrev pub before_by : ℕ → ℕ → Bool → Bool
before_by a b equal = if ltb a b then true else if ltb b a then false else equal

module _ (articles : List ℕ) (urls : List CrawlUrl) where
  unfoldable pub sort_key_leb : Source → Source → Bool
  unfolding art_count hub_pending due_count
  sort_key_leb a b = before_by (art_count articles a.id) (art_count articles b.id) (
      before_by (hub_pending urls b.id) (hub_pending urls a.id)
        (before_by (due_count urls b.id) (due_count urls a.id) (str_leb a.slug b.slug)))

  unfoldable pub fair_source_order : List Source → List Source
  unfolding sort sort_key_leb
  fair_source_order sources = if leb (length sources) 1 then sources else sort sort_key_leb sources

unfoldable pub is_paused : WorkerState → ℕ → Bool
unfolding any
is_paused w source_id = any (λ s. s == source_id) w.paused_sources

-- The loop over the sources: which of them are crawled, and the state after it. `signals` are those
-- that come in before each source.
unfoldable pub crawl_sources :
    String → WorkerState → List (Source × List ControlSignal) → List Source × WorkerState
unfolding on_controls is_paused
crawl_sources worker_id w [] = ([], w)
crawl_sources worker_id w ((source, signals) ∷ sources) =
    let now = on_controls worker_id signals w in
    let (crawled, last) = crawl_sources worker_id now sources in
    if now.should_stop
    then ([], now)
    else if is_paused now source.id
    then (crawled, last)
    else (source ∷ crawled, last)

-- Job mode: the job is loaded, its spider makes one pass, and the job is finished, whatever the pass has
-- left. `none` is the exit for a job that cannot run.
module _ (order_by : List CrawlUrl → List CrawlUrl) (frontier : FrontierConfig) where
  abbrev run_loaded :
      ℕ → SpiderConfig → List World → Option CrawlJob → Option (CrawlJob × List Request)
  run_loaded later cfg worlds none = none
  run_loaded later cfg worlds (some job) =
      some (finish_job later job, (crawl_pass order_by frontier cfg initial worlds).1)

  unfoldable pub run_job :
      ℕ → ℕ → SpiderConfig → List World → CrawlJob → Option (CrawlJob × List Request)
  unfolding load_job finish_job crawl_pass
  run_job now later cfg worlds job = run_loaded later cfg worlds (load_job now job)
