-- ===== src/Frontier/Steps.antt =====
-- The frontier as a transition system: every worker, the API and the reaper take steps on one table,
-- in any order, and time passes between them.
use news_crawl_intelligence.Prelude.{ℕ, ◌+◌, ◌≡◌, Bool, String, List, [], Option, some, All}
use news_crawl_intelligence.Contracts.{FailureCategory}
use news_crawl_intelligence.Backoff.{Uniform}
use news_crawl_intelligence.UrlNorm.{UrlLib}
use news_crawl_intelligence.Frontier.Rows.{CrawlUrl, Table, FrontierConfig}
use news_crawl_intelligence.Frontier.Claims.{
  claim_batch, extend_lease, release, reap_expired_leases,
}
use news_crawl_intelligence.Frontier.Outcomes.{
  Fetched, mark_success, mark_not_modified, mark_failed, skip, requeue_failed,
}
use news_crawl_intelligence.Frontier.Discovery.{SourceLike, DiscoveredUrl, add_urls}
use news_crawl_intelligence.Frontier.Invariant.{IsConsistent}
use news_crawl_intelligence.Frontier.Keys.{IsKeyed}

pub record Shared : Type 0 where
  pub clock : ℕ
  pub table : Table

abbrev pub start : Shared
start = record { clock = 0; table = record { rows = []; next_id = 0 } }

abbrev pub put : Shared → Table → Shared
put s t = record s { table = t }

module _ (lib : UrlLib) (order_by : List CrawlUrl → List CrawlUrl) (uniform : Uniform)
    (cfg : FrontierConfig) where
  pub data Step : Shared → Shared → Type 0 where
    tick : (s : Shared) (n : ℕ) → Step s (record s { clock = s.clock + n })
    add :
        (s : Shared) (source : SourceLike) (discovered : List DiscoveredUrl) (job : Option ℕ)
        (requeue : Bool) (server_now : ℕ) (t : Table) (n : ℕ)
        → add_urls lib source discovered job requeue s.clock server_now s.table ≡ some (t, n)
        → Step s (put s t)
    claim :
        (s : Shared) (locked : ℕ → Bool) (worker_id : String) (limit : ℕ) (source_id job : Option ℕ)
        → Step s (
            put s (claim_batch order_by cfg s.clock locked worker_id limit source_id job s.table).0)
    extend :
        (s : Shared) (url_id : ℕ) (worker_id : String)
        → Step s (put s (extend_lease cfg s.clock url_id worker_id s.table).0)
    give_back :
        (s : Shared) (url_id : ℕ) (worker_id : String)
        → Step s (put s (release url_id worker_id s.table))
    succeed :
        (s : Shared) (url_id : ℕ) (page : Fetched)
        → Step s (put s (mark_success cfg s.clock url_id page s.table).0)
    unchanged :
        (s : Shared) (url_id : ℕ) → Step s (put s (mark_not_modified cfg s.clock url_id s.table))
    fail :
        (s : Shared) (url_id : ℕ) (category : FailureCategory) (error : String)
        (http_status : Option ℕ)
        → Step s
            (put s (mark_failed uniform cfg s.clock url_id category error http_status s.table).0)
    skip_url :
        (s : Shared) (url_id : ℕ) (reason : String) → Step s (put s (skip url_id reason s.table))
    reap : (s : Shared) → Step s (put s (reap_expired_leases s.clock s.table).0)
    requeue :
        (s : Shared) (source_id : ℕ) (job : Option ℕ)
        → Step s (put s (requeue_failed s.clock source_id job s.table).0)

  pub data Reach : Shared → Type 0 where
    begin : Reach start
    next : {s s' : Shared} → Reach s → Step s s' → Reach s'

pub record IsValid (s : Shared) : Type 0 where
  pub consistent : All (IsConsistent s.clock) s.table.rows
  pub keyed : IsKeyed s.table
