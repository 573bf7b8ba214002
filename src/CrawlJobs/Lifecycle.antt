-- ===== src/CrawlJobs/Lifecycle.antt =====
-- The life of a crawl job: what no sequence of transitions can break.
use news_crawl_intelligence.Prelude.{
  ℕ, ◌≡◌, ◌⊎◌, refl, sym, ◌∙◌, ap, ◌&&◌, ◌||◌, not, Bool, true, false, String, List, Option, none,
  some, Bool-cases, Option-cases, inl, inr, arith,
}
use news_crawl_intelligence.Contracts.{CrawlJobStatus, CrawlJobType}
use news_crawl_intelligence.Prelude.Int.{ℤ}
use news_crawl_intelligence.CrawlJobs.{
  CrawlJob, Counter, JobSource, JobParams, same_status, resume_target, is_terminal, is_running,
  is_valid_transition, load_as, moved, transition, pause, resume, load_job, finish_job, queued_job,
}
use news_crawl_intelligence.CrawlJobs.Counters.{add_to, with_error}

abbrev is_some : Option ℕ → Bool
is_some none = false
is_some (some n) = true

-- RUNNING, COMPLETED or FAILED: a worker took the job.
abbrev is_past_start : CrawlJobStatus → Bool
is_past_start CrawlJobStatus.running = true
is_past_start CrawlJobStatus.completed = true
is_past_start CrawlJobStatus.failed = true
is_past_start _ = false

-- A terminal status has no transition; only a running job completes or fails.
not_terminal : (s t : CrawlJobStatus) → is_valid_transition s t ≡ true → is_terminal s ≡ false
unfolding is_valid_transition
not_terminal s t h = ground arith

from_running :
    (s t : CrawlJobStatus)
    → is_valid_transition s t ≡ true
    → is_terminal t && is_past_start t ≡ true
    → is_running s ≡ true
unfolding is_valid_transition
from_running s t h e = ground arith

-- A job that was past its start has a start, and exactly the terminal jobs have an end.
unfoldable pub is_lawful : CrawlJob → Bool
is_lawful j =
    (not (is_past_start j.status) || is_some j.started_at)
    && (is_terminal j.status && is_some j.completed_at
        || not (is_terminal j.status) && not (is_some j.completed_at))

transition-eq :
    (now : ℕ) (t : CrawlJobStatus) (j j' : CrawlJob)
    → transition now t j ≡ some j'
    → (is_valid_transition j.status t ≡ true) × (moved now t j ≡ j')
unfolding transition
transition-eq now t j j' e = elim (Bool-cases (is_valid_transition j.status t)) [
  | inl v ↦ ground arith
  | inr v ↦ ground arith
]

moved-lawful :
    (now : ℕ) (t : CrawlJobStatus) (j : CrawlJob)
    → is_valid_transition j.status t ≡ true
    → is_lawful j ≡ true
    → is_lawful (moved now t j) ≡ true
unfolding is_lawful moved
moved-lawful now t j v l =
    let n : is_terminal j.status ≡ false = not_terminal j.status t v in
    let r : is_terminal t && is_past_start t ≡ true → is_running j.status ≡ true =
      from_running j.status t v in
    elim t [
      | CrawlJobStatus.created ↦ ground arith
      | CrawlJobStatus.queued ↦ ground arith
      | CrawlJobStatus.running ↦ ground arith
      | CrawlJobStatus.paused ↦ ground arith
      | CrawlJobStatus.completed ↦ ground arith
      | CrawlJobStatus.failed ↦ ground arith
      | CrawlJobStatus.cancelled ↦ ground arith
    ]

-- What the API and the workers do to the row of a job; time is given by each caller's clock.
pub data Step : CrawlJob → CrawlJob → Type 0 where
  move :
      (now : ℕ) (target : CrawlJobStatus) (j j' : CrawlJob)
      → transition now target j ≡ some j'
      → Step j j'
  pause_job : (now : ℕ) (j j' : CrawlJob) → pause now j ≡ some j' → Step j j'
  resume_job : (now : ℕ) (j j' : CrawlJob) → resume now j ≡ some j' → Step j j'
  load : (now : ℕ) (j j' : CrawlJob) → load_job now j ≡ some j' → Step j j'
  finish : (now : ℕ) (j : CrawlJob) → Step j (finish_job now j)
  count : (values : List (Counter × ℕ)) (j : CrawlJob) → Step j (add_to values j)
  error : (message : String) (j : CrawlJob) → Step j (with_error message j)

pub data Reach : CrawlJob → CrawlJob → Type 0 where
  done : (j : CrawlJob) → Reach j j
  more : (j k l : CrawlJob) → Reach j k → Step k l → Reach j l

transition-lawful :
    (now : ℕ) (t : CrawlJobStatus) (j j' : CrawlJob)
    → transition now t j ≡ some j'
    → is_lawful j ≡ true
    → is_lawful j' ≡ true
transition-lawful now t j j' e l =
    let (v, m) = transition-eq now t j j' e in
    let lawful : is_lawful (moved now t j) ≡ true = moved-lawful now t j v l in
    sym (ap is_lawful m) ∙ lawful

-- To load or to finish a job is a transition or nothing.
load_as-cases :
    (s : CrawlJobStatus) (now : ℕ) (j j' : CrawlJob)
    → load_as s now j ≡ some j'
    → (transition now CrawlJobStatus.running j ≡ some j')
      ⊎ ((s ≡ CrawlJobStatus.running) × (j ≡ j'))
load_as-cases CrawlJobStatus.queued now j j' e = inl e
load_as-cases CrawlJobStatus.running now j j' e = inr (refl, (cc))
load_as-cases CrawlJobStatus.created now j j' e = ground arith
load_as-cases CrawlJobStatus.paused now j j' e = ground arith
load_as-cases CrawlJobStatus.completed now j j' e = ground arith
load_as-cases CrawlJobStatus.failed now j j' e = ground arith
load_as-cases CrawlJobStatus.cancelled now j j' e = ground arith

load_job-cases :
    (now : ℕ) (j j' : CrawlJob)
    → load_job now j ≡ some j'
    → (transition now CrawlJobStatus.running j ≡ some j')
      ⊎ ((j.status ≡ CrawlJobStatus.running) × (j ≡ j'))
unfolding load_job
load_job-cases now j j' e = load_as-cases j.status now j j' e

finish_job-cases :
    (now : ℕ) (j : CrawlJob)
    → (transition now CrawlJobStatus.completed j ≡ some (finish_job now j)) ⊎ (j ≡ finish_job now j)
unfolding finish_job
finish_job-cases now j = elim (Option-cases (transition now CrawlJobStatus.completed j)) [
  | inl e ↦ inr (rw (e, finish_job))
  | inr (j', e) ↦ inl (rw (e, finish_job))
]

Step-lawful : (j j' : CrawlJob) → Step j j' → is_lawful j ≡ true → is_lawful j' ≡ true
unfolding pause resume is_lawful add_to with_error
Step-lawful _ _ (Step.move now t j j' e) l = transition-lawful now t j j' e l
Step-lawful _ _ (Step.pause_job now j j' e) l = transition-lawful now CrawlJobStatus.paused j j' e l
Step-lawful _ _ (Step.resume_job now j j' e) l =
    transition-lawful now (resume_target j.started_at) j j' e l
Step-lawful _ _ (Step.load now j j' e) l = elim (load_job-cases now j j' e) [
  | inl t ↦ transition-lawful now CrawlJobStatus.running j j' t l
  | inr (_, same) ↦ sym (ap is_lawful same) ∙ l
]
Step-lawful _ _ (Step.finish now j) l = elim (finish_job-cases now j) [
  | inl t ↦ transition-lawful now CrawlJobStatus.completed j (finish_job now j) t l
  | inr same ↦ sym (ap is_lawful same) ∙ l
]
Step-lawful _ _ (Step.count values j) l = l
Step-lawful _ _ (Step.error message j) l = l

Reach-lawful : (j j' : CrawlJob) → Reach j j' → is_lawful j ≡ true → is_lawful j' ≡ true
Reach-lawful _ _ (Reach.done j) l = l
Reach-lawful _ _ (Reach.more j k j' r s) l = Step-lawful k j' s (Reach-lawful j k r l)

-- A job that was created and then went through any transitions, pauses, restarts and progress:
-- once it is RUNNING, COMPLETED or FAILED it has a start time, and it has a completion time
-- exactly if its status is terminal.
pub Reach-is_lawful :
    (s : JobSource) (job_type : CrawlJobType) (params : JobParams) (priority : ℤ)
    (created_by : Option ℕ) (job_id seeded : ℕ) (j : CrawlJob)
    → Reach (queued_job s job_type params priority created_by job_id seeded) j
    → is_lawful j ≡ true
unfolding is_lawful queued_job
Reach-is_lawful s job_type params priority created_by job_id seeded j r = Reach-lawful _ j r refl

not_terminal-transition :
    (now : ℕ) (t : CrawlJobStatus) (j j' : CrawlJob)
    → transition now t j ≡ some j'
    → is_terminal j.status ≡ true
    → j ≡ j'
not_terminal-transition now t j j' e h =
    let (v, _) = transition-eq now t j j' e in
    let n : is_terminal j.status ≡ false = not_terminal j.status t v in ground arith

-- What a step may still change in a job that has ended: its counters and its last error.
unfoldable pub ending : CrawlJob → CrawlJobStatus × Option ℕ × Option ℕ
ending j = (j.status, j.started_at, j.completed_at)

Step-ending : (j j' : CrawlJob) → Step j j' → is_terminal j.status ≡ true → ending j' ≡ ending j
unfolding pause resume ending add_to with_error
Step-ending _ _ (Step.move now t j j' e) h =
    sym (ap ending (not_terminal-transition now t j j' e h))
Step-ending _ _ (Step.pause_job now j j' e) h =
    sym (ap ending (not_terminal-transition now CrawlJobStatus.paused j j' e h))
Step-ending _ _ (Step.resume_job now j j' e) h =
    sym (ap ending (not_terminal-transition now (resume_target j.started_at) j j' e h))
Step-ending _ _ (Step.load now j j' e) h = elim (load_job-cases now j j' e) [
  | inl t ↦ sym (ap ending (not_terminal-transition now CrawlJobStatus.running j j' t h))
  | inr (_, same) ↦ sym (ap ending same)
]
Step-ending _ _ (Step.finish now j) h = elim (finish_job-cases now j) [
  | inl t ↦
      sym
        (ap ending (not_terminal-transition now CrawlJobStatus.completed j (finish_job now j) t h))
  | inr same ↦ sym (ap ending same)
]
Step-ending _ _ (Step.count values j) h = refl
Step-ending _ _ (Step.error message j) h = refl

ending-terminal :
    (k j : CrawlJob)
    → ending k ≡ ending j
    → is_terminal j.status ≡ true
    → is_terminal k.status ≡ true
unfolding ending
ending-terminal k j e h = ap (λ (x : CrawlJobStatus × Option ℕ × Option ℕ). is_terminal (x.0)) e ∙ h

-- A job whose status is terminal keeps its status, its start and its completion time, whatever
-- the API and the workers do afterwards.
pub Reach-ending :
    (j j' : CrawlJob) → Reach j j' → is_terminal j.status ≡ true → ending j' ≡ ending j
Reach-ending _ _ (Reach.done j) h = refl
Reach-ending _ _ (Reach.more j k j' r s) h =
    let e : ending k ≡ ending j = Reach-ending j k r h in
    let h' : is_terminal k.status ≡ true = ending-terminal k j e h in Step-ending k j' s h' ∙ e

-- A job that runs, or that waits for its first start.
abbrev can_resume : CrawlJobStatus → Option ℕ → Bool
can_resume s started =
    is_running s && is_some started || same_status s CrawlJobStatus.queued && not (is_some started)

abbrev is_resumable : CrawlJob → Bool
is_resumable j = can_resume j.status j.started_at

unfoldable pub paused_job : CrawlJob → CrawlJob
paused_job j = record j { status = CrawlJobStatus.paused }

status_cases :
    (s : CrawlJobStatus) (started : Option ℕ)
    → can_resume s started ≡ true
    → ((s ≡ CrawlJobStatus.running) × ((t : ℕ) × (started ≡ some t)))
      ⊎ ((s ≡ CrawlJobStatus.queued) × (started ≡ none))
status_cases CrawlJobStatus.running (some t) h = inl (refl, (t, refl))
status_cases CrawlJobStatus.queued none h = inr (refl, refl)
status_cases CrawlJobStatus.running none h = ground arith
status_cases CrawlJobStatus.queued (some t) h = ground arith
status_cases CrawlJobStatus.created started h = ground arith
status_cases CrawlJobStatus.paused started h = ground arith
status_cases CrawlJobStatus.completed started h = ground arith
status_cases CrawlJobStatus.failed started h = ground arith
status_cases CrawlJobStatus.cancelled started h = ground arith

-- A job that runs since a start time, or that is queued and was never started, can be paused, and
-- to resume it then gives back the job as it was.
pub resume-pause :
    (now later : ℕ) (j : CrawlJob)
    → is_resumable j ≡ true
    → (pause now j ≡ some (paused_job j)) × (resume later (paused_job j) ≡ some j)
unfolding resume pause transition is_valid_transition moved paused_job
resume-pause now later j h = elim (status_cases j.status j.started_at h) [
  | inl (s, (t, e)) ↦ (rw (s), ground arith)
  | inr (s, e) ↦ (rw (s), ground arith)
]

load_job-running :
    (now : ℕ) (j k : CrawlJob) → load_job now j ≡ some k → k.status ≡ CrawlJobStatus.running
unfolding load_job transition
load_job-running now j k e = elim (load_job-cases now j k e) [
  | inl t ↦ sym (ap CrawlJob.status (transition-eq now CrawlJobStatus.running j k t).1)
  | inr (r, same) ↦ sym (ap CrawlJob.status same) ∙ r
]

-- A job that a worker could load is finished by it: it completes at the time of the finish, and
-- keeps its start time.
pub finish_job-load_job :
    (now later : ℕ) (j k : CrawlJob)
    → load_job now j ≡ some k
    → finish_job later k ≡ moved later CrawlJobStatus.completed k
unfolding finish_job transition is_valid_transition
finish_job-load_job now later j k e =
    let r : k.status ≡ CrawlJobStatus.running = load_job-running now j k e in rw (r)
