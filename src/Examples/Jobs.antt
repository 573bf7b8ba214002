-- ===== src/Examples/Jobs.antt =====
-- The life of one crawl job, and two workers that count for it.
use news_crawl_intelligence.Prelude.{◌≡◌, refl, true, [], ◌∷◌, none, some}
use news_crawl_intelligence.Prelude.Int.{pos}
use news_crawl_intelligence.Contracts.{CrawlJobStatus, CrawlJobType}
use news_crawl_intelligence.UrlNorm.{default_normalization}
use news_crawl_intelligence.CrawlJobs.{
  JobSource, JobParams, CrawlJob, queued_job, transition, load_job, finish_job, moved, pause,
  resume,
}
use news_crawl_intelligence.CrawlJobs.Counters.{increment_counters}
use news_crawl_intelligence.CrawlJobs.Lifecycle.{
  Step, Reach, is_lawful, Reach-is_lawful, ending, Reach-ending, paused_job, resume-pause,
}
use news_crawl_intelligence.CrawlJobs.Progress.{then_increment, increment_counters_comm}

abbrev source : JobSource
source = record {
  like = record {
    id = 1;
    base_url = "https://example.org/";
    source_weight = 5;
    allowed_domains = [];
    url_normalization = default_normalization;
  };
  sitemap_urls = [];
  rss_urls = [];
  section_urls = [];
}

abbrev no_params : JobParams
no_params = record { section_urls = []; urls = []; sitemap_urls = [] }

abbrev fresh_job : CrawlJob
fresh_job = queued_job source CrawlJobType.full_crawl no_params (pos 0) none 7 3

abbrev running_job : CrawlJob
running_job = moved 10 CrawlJobStatus.running fresh_job

abbrev cancelled_job : CrawlJob
cancelled_job = moved 20 CrawlJobStatus.cancelled running_job

load_fresh : load_job 10 fresh_job ≡ some running_job
unfolding queued_job load_job transition
load_fresh = refl

cancel_running : transition 20 CrawlJobStatus.cancelled running_job ≡ some cancelled_job
unfolding queued_job transition moved
cancel_running = refl

Reach-is_lawful_example : is_lawful cancelled_job ≡ true
Reach-is_lawful_example =
    Reach-is_lawful source CrawlJobType.full_crawl no_params (pos 0) none 7 3 cancelled_job (
      Reach.more fresh_job running_job cancelled_job
        (Reach.more fresh_job fresh_job running_job (Reach.done fresh_job)
          (Step.load 10 fresh_job running_job load_fresh))
        (Step.move 20 CrawlJobStatus.cancelled running_job cancelled_job cancel_running))

-- The worker still finishes the job that was cancelled under it.
Reach-ending_example : ending (finish_job 30 cancelled_job) ≡ ending cancelled_job
unfolding moved
Reach-ending_example =
    Reach-ending cancelled_job (finish_job 30 cancelled_job)
      (Reach.more cancelled_job cancelled_job (finish_job 30 cancelled_job)
        (Reach.done cancelled_job) (Step.finish 30 cancelled_job))
      refl

resume-pause_example :
    (pause 15 running_job ≡ some (paused_job running_job))
    × (resume 16 (paused_job running_job) ≡ some running_job)
unfolding queued_job moved
resume-pause_example = resume-pause 15 16 running_job refl

increment_counters_comm_example :
    then_increment 7
      (("pages_requested", 1) ∷ [])
      (increment_counters 7 (("pages_failed", 1) ∷ ("pages_changed", 0) ∷ []) (fresh_job ∷ []))
    ≡ then_increment 7
        (("pages_failed", 1) ∷ ("pages_changed", 0) ∷ [])
        (increment_counters 7 (("pages_requested", 1) ∷ []) (fresh_job ∷ []))
increment_counters_comm_example =
    increment_counters_comm 7 7 (("pages_requested", 1) ∷ [])
      (("pages_failed", 1) ∷ ("pages_changed", 0) ∷ []) (fresh_job ∷ [])
