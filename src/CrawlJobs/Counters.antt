-- ===== src/CrawlJobs/Counters.antt =====
-- The progress counters of a job (increment_counters and record_error of
-- apps/api/newscrawl_api/services/crawl_jobs.py).
use news_crawl_intelligence.Prelude.{
  ℕ, ◌+◌, ◌==◌, not, Bool, true, false, String, List, [], ◌∷◌, Option, none, some, map, filter,
  str_eq, if◌then◌else◌,
}
use news_crawl_intelligence.Prelude.Text.{take_chars}
use news_crawl_intelligence.CrawlJobs.{CrawlJob, Counter}

unfoldable pub counter_of : String → Option Counter
counter_of name =
    if str_eq name "pages_discovered"
    then some Counter.pages_discovered
    else if str_eq name "pages_requested"
    then some Counter.pages_requested
    else if str_eq name "pages_successful"
    then some Counter.pages_successful
    else if str_eq name "pages_failed"
    then some Counter.pages_failed
    else if str_eq name "pages_skipped"
    then some Counter.pages_skipped
    else if str_eq name "pages_changed"
    then some Counter.pages_changed
    else if str_eq name "pages_unchanged"
    then some Counter.pages_unchanged
    else if str_eq name "error_count"
    then some Counter.error_count
    else none

abbrev pub same_counter : Counter → Counter → Bool
same_counter Counter.pages_discovered Counter.pages_discovered = true
same_counter Counter.pages_requested Counter.pages_requested = true
same_counter Counter.pages_successful Counter.pages_successful = true
same_counter Counter.pages_failed Counter.pages_failed = true
same_counter Counter.pages_skipped Counter.pages_skipped = true
same_counter Counter.pages_changed Counter.pages_changed = true
same_counter Counter.pages_unchanged Counter.pages_unchanged = true
same_counter Counter.error_count Counter.error_count = true
same_counter _ _ = false

-- The counters of a call by column; `none` is the ValueError of an unknown name. Callers pass counts
-- that are not negative.
unfoldable pub known_counters : List (String × ℕ) → Option (List (Counter × ℕ))
unfolding counter_of
known_counters [] = some []
known_counters ((name, delta) ∷ rest) =
    let known = known_counters rest in
    elim (counter_of name) [
      | none ↦ none
      | some c ↦ elim known [ none ↦ none | some cs ↦ some ((c, delta) ∷ cs) ]
    ]

-- What a column gets; a keyword is given once.
unfoldable pub delta_of : Counter → List (Counter × ℕ) → ℕ
delta_of c [] = 0
delta_of c ((d, delta) ∷ rest) = (if same_counter d c then delta else 0) + delta_of c rest

unfoldable pub add_to : List (Counter × ℕ) → CrawlJob → CrawlJob
unfolding delta_of
add_to values j = record j { progress = λ c. j.progress c + delta_of c values }

unfoldable pub update_job : ℕ → (CrawlJob → CrawlJob) → List CrawlJob → List CrawlJob
update_job job_id change jobs = map (λ j. if j.id == job_id then change j else j) jobs

abbrev pub is_given : Counter × ℕ → Bool
is_given (c, delta) = not (delta == 0)

-- `if not values: return`, and the UPDATE otherwise.
unfoldable pub add_values : ℕ → List (Counter × ℕ) → List CrawlJob → List CrawlJob
unfolding add_to update_job
add_values job_id [] jobs = jobs
add_values job_id (v ∷ values) jobs = update_job job_id (add_to (v ∷ values)) jobs

unfoldable pub add_known : ℕ → Option (List (Counter × ℕ)) → List CrawlJob → Option (List CrawlJob)
unfolding filter add_values
add_known job_id none jobs = none
add_known job_id (some known) jobs = some (add_values job_id (filter is_given known) jobs)

unfoldable pub increment_counters : ℕ → List (String × ℕ) → List CrawlJob → Option (List CrawlJob)
unfolding known_counters add_known
increment_counters job_id counters jobs = add_known job_id (known_counters counters) jobs

unfoldable pub with_error : String → CrawlJob → CrawlJob
unfolding add_to
with_error error j = record (add_to ((Counter.error_count, 1) ∷ []) j) {
  last_error = some (take_chars 2000 error);
}

unfoldable pub record_error : ℕ → String → List CrawlJob → List CrawlJob
unfolding with_error update_job
record_error job_id error jobs = update_job job_id (with_error error) jobs
