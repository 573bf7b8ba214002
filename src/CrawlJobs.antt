-- ===== src/CrawlJobs.antt =====
-- Crawl jobs (apps/api/newscrawl_api/services/crawl_jobs.py, models/crawl.py) and their start and
-- end in a crawl worker (apps/crawler/newscrawl_crawler/run_worker.py).
pub mod Counters
pub mod Lifecycle
pub mod Progress
use news_crawl_intelligence.Prelude.{
  ℕ, ◌+◌, ◌≡◌, ◌==◌, ◌&&◌, ◌||◌, not, Bool, true, false, String, List, [], ◌∷◌, ◌++◌, Option, none,
  some, map, filter, any, str_eq, if◌then◌else◌,
}
use news_crawl_intelligence.Prelude.Int.{ℤ}
use news_crawl_intelligence.Prelude.Text.{take_chars}
use news_crawl_intelligence.Contracts.{CrawlJobStatus, CrawlJobType, UrlType}
use news_crawl_intelligence.Contracts
use news_crawl_intelligence.UrlNorm.{UrlLib}
use news_crawl_intelligence.Frontier.Rows.{Table}
use news_crawl_intelligence.Frontier.Discovery.{SourceLike, DiscoveredUrl, add_urls}
use news_crawl_intelligence.Frontier.Outcomes.{requeue_failed}

-- `params`: a key that is missing reads as the empty list, since the code tests for both at once.
pub record JobParams : Type 0 where
  pub section_urls : List String
  pub urls : List String
  pub sitemap_urls : List String

-- The progress columns that workers add to.
pub data Counter : Type 0 where
  pages_discovered pages_requested pages_successful pages_failed : Counter
  pages_skipped pages_changed pages_unchanged error_count : Counter

pub record CrawlJob : Type 0 where
  pub id : ℕ
  pub source_id : ℕ
  pub job_type : CrawlJobType
  pub status : CrawlJobStatus
  pub params : JobParams
  pub priority : ℤ
  pub progress : Counter → ℕ
  pub last_error : Option String
  pub created_by : Option ℕ
  pub started_at : Option ℕ
  pub completed_at : Option ℕ

-- VALID_TRANSITIONS
unfoldable pub valid_transitions : CrawlJobStatus → List CrawlJobStatus
valid_transitions CrawlJobStatus.created = CrawlJobStatus.queued ∷ CrawlJobStatus.cancelled ∷ []
valid_transitions CrawlJobStatus.queued =
    CrawlJobStatus.running ∷ CrawlJobStatus.paused ∷ CrawlJobStatus.cancelled ∷ []
valid_transitions CrawlJobStatus.running =
    CrawlJobStatus.paused ∷ CrawlJobStatus.completed ∷ CrawlJobStatus.failed
    ∷ CrawlJobStatus.cancelled ∷ []
valid_transitions CrawlJobStatus.paused =
    CrawlJobStatus.queued ∷ CrawlJobStatus.running ∷ CrawlJobStatus.cancelled ∷ []
valid_transitions _ = []

-- TERMINAL_STATUSES
abbrev pub is_terminal : CrawlJobStatus → Bool
is_terminal CrawlJobStatus.completed = true
is_terminal CrawlJobStatus.failed = true
is_terminal CrawlJobStatus.cancelled = true
is_terminal _ = false

abbrev pub same_status : CrawlJobStatus → CrawlJobStatus → Bool
same_status CrawlJobStatus.created CrawlJobStatus.created = true
same_status CrawlJobStatus.queued CrawlJobStatus.queued = true
same_status CrawlJobStatus.running CrawlJobStatus.running = true
same_status CrawlJobStatus.paused CrawlJobStatus.paused = true
same_status CrawlJobStatus.completed CrawlJobStatus.completed = true
same_status CrawlJobStatus.failed CrawlJobStatus.failed = true
same_status CrawlJobStatus.cancelled CrawlJobStatus.cancelled = true
same_status _ _ = false

-- The source of a job: what the frontier reads of it, and its entry pages.
pub record JobSource : Type 0 where
  pub like : SourceLike
  pub sitemap_urls : List String
  pub rss_urls : List String
  pub section_urls : List String

abbrev entries : UrlType → List String → List DiscoveredUrl
entries kind urls =
    map
      (λ u. record {
        url = u;
        url_type = kind;
        discovered_from = none;
        depth = 0;
        published_at = none;
      })
      urls

-- `a or b` of two lists
abbrev or_list : List String → List String → List String
or_list [] b = b
or_list (x ∷ a) b = x ∷ a

-- `if not urls: raise JobParamsError`
abbrev required : UrlType → List String → Option (List DiscoveredUrl)
required kind [] = none
required kind (u ∷ us) = some (entries kind (u ∷ us))

-- `none` is JobParamsError.
unfoldable pub entry_urls_for_job :
    JobSource → CrawlJobType → JobParams → Option (List DiscoveredUrl)
entry_urls_for_job s CrawlJobType.full_crawl p = some (
    entries UrlType.homepage (s.like.base_url ∷ [])
    ++ entries UrlType.sitemap s.sitemap_urls
    ++ entries UrlType.rss s.rss_urls
    ++ entries UrlType.section s.section_urls)
entry_urls_for_job s CrawlJobType.incremental_crawl p = some (
    entries UrlType.homepage (s.like.base_url ∷ [])
    ++ entries UrlType.rss s.rss_urls
    ++ entries UrlType.section s.section_urls)
entry_urls_for_job s CrawlJobType.section_crawl p =
    required UrlType.section (or_list p.section_urls s.section_urls)
entry_urls_for_job s CrawlJobType.url_crawl p = required UrlType.article p.urls
entry_urls_for_job s CrawlJobType.backfill p =
    required UrlType.sitemap (or_list p.sitemap_urls s.sitemap_urls)
entry_urls_for_job s CrawlJobType.retry_failed p = some []

unfoldable pub seed :
    UrlLib → JobSource → CrawlJobType → List DiscoveredUrl → ℕ → ℕ → ℕ → Table → Option (Table × ℕ)
unfolding requeue_failed add_urls
seed lib s CrawlJobType.retry_failed entry job_id now server_now t =
    some (requeue_failed now s.like.id (some job_id) t)
seed lib s _ entry job_id now server_now t =
    add_urls lib s.like entry (some job_id) true now server_now t

abbrev pub seeded_progress : ℕ → Counter → ℕ
seeded_progress n Counter.pages_discovered = n
seeded_progress n _ = 0

pub data Created : Type 0 where
  created : Table → CrawlJob → Created
  job_params_error : Created
  -- An exception of `add_urls`.
  seeding_error : Created

unfoldable pub queued_job : JobSource → CrawlJobType → JobParams → ℤ → Option ℕ → ℕ → ℕ → CrawlJob
queued_job s job_type params priority created_by job_id seeded = record {
  id = job_id;
  source_id = s.like.id;
  job_type = job_type;
  status = CrawlJobStatus.queued;
  params = params;
  priority = priority;
  progress = seeded_progress seeded;
  last_error = none;
  created_by = created_by;
  started_at = none;
  completed_at = none;
}

-- `job_id` is the key that the flush assigns.
unfoldable pub create_job :
    UrlLib → JobSource → CrawlJobType → JobParams → ℤ → Option ℕ → ℕ → ℕ → ℕ → Table → Created
unfolding entry_urls_for_job seed queued_job
create_job lib s job_type params priority created_by job_id now server_now t =
    elim (entry_urls_for_job s job_type params) [
      | none ↦ Created.job_params_error
      | some entry ↦ elim (seed lib s job_type entry job_id now server_now t) [
        | none ↦ Created.seeding_error
        | some (t', seeded) ↦
            Created.created t' (queued_job s job_type params priority created_by job_id seeded)
      ]
    ]

abbrev pub is_running : CrawlJobStatus → Bool
is_running CrawlJobStatus.running = true
is_running _ = false

abbrev pub or_now : Option ℕ → ℕ → Option ℕ
or_now none now = some now
or_now (some t) now = some t

-- `target in VALID_TRANSITIONS[status]`
unfoldable pub is_valid_transition : CrawlJobStatus → CrawlJobStatus → Bool
unfolding any valid_transitions
is_valid_transition status target = any (same_status target) (valid_transitions status)

unfoldable pub moved : ℕ → CrawlJobStatus → CrawlJob → CrawlJob
moved now target j = record j {
  status = target;
  started_at = if is_running target then or_now j.started_at now else j.started_at;
  completed_at = if is_terminal target then some now else j.completed_at;
}

-- `none` is InvalidTransitionError.
unfoldable pub transition : ℕ → CrawlJobStatus → CrawlJob → Option CrawlJob
unfolding is_valid_transition moved
transition now target j =
    if is_valid_transition j.status target then some (moved now target j) else none

unfoldable pub pause : ℕ → CrawlJob → Option CrawlJob
unfolding transition
pause now j = transition now CrawlJobStatus.paused j

abbrev resume_target : Option ℕ → CrawlJobStatus
resume_target none = CrawlJobStatus.queued
resume_target (some t) = CrawlJobStatus.running

unfoldable pub resume : ℕ → CrawlJob → Option CrawlJob
unfolding transition
resume now j = transition now (resume_target j.started_at) j

unfoldable pub cancel : ℕ → CrawlJob → Option CrawlJob
unfolding transition
cancel now j = transition now CrawlJobStatus.cancelled j

-- A worker starts a job that it finds queued or running, and exits otherwise: `none`.
abbrev pub load_as : CrawlJobStatus → ℕ → CrawlJob → Option CrawlJob
load_as CrawlJobStatus.queued now j = transition now CrawlJobStatus.running j
load_as CrawlJobStatus.running now j = some j
load_as _ now j = none

unfoldable pub load_job : ℕ → CrawlJob → Option CrawlJob
load_job now j = load_as j.status now j

-- An invalid transition is passed over.
unfoldable pub finish_job : ℕ → CrawlJob → CrawlJob
unfolding transition
finish_job now j = elim (transition now CrawlJobStatus.completed j) [ none ↦ j | some j' ↦ j' ]
