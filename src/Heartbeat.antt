-- ===== src/Heartbeat.antt =====
-- The registry of workers in Redis (apps/api/newscrawl_api/coordination/heartbeat.py). Instants are
-- microseconds; the text of a beat is its content, since only this module writes and reads it, and `meta` is
-- its JSON text.
pub mod Reaped
use news_crawl_intelligence.Prelude.{
  ℕ, ◌+◌, ◌-◌, ltb, not, Bool, String, List, [], ◌∷◌, filter, str_eq, if◌then◌else◌,
}
use news_crawl_intelligence.Prelude.Sorting.{sort}
use news_crawl_intelligence.Prelude.Text.{str_leb}
use news_crawl_intelligence.Contracts.{WorkerStatus}

pub data WorkerType : Type 0 where
  crawler processor : WorkerType

pub record WorkerInfo : Type 0 where
  pub worker_id : String
  pub worker_type : WorkerType
  pub status : WorkerStatus
  pub hostname : String
  pub pid : ℕ
  pub last_beat_at : ℕ
  pub meta : String

abbrev pub Registry : Type 0
Registry = List WorkerInfo

-- A worker, with the status that its beats tell.
pub record Heartbeat : Type 0 where
  pub worker_id : String
  pub worker_type : WorkerType
  pub status : WorkerStatus
  pub hostname : String
  pub pid : ℕ
  pub meta : String

-- HDEL
unfoldable pub deregister : String → Registry → Registry
unfolding filter
deregister worker_id workers = filter (λ w. not (str_eq w.worker_id worker_id)) workers

-- What a beat writes.
abbrev pub info_at : ℕ → Heartbeat → WorkerInfo
info_at now h = record {
  worker_id = h.worker_id;
  worker_type = h.worker_type;
  status = h.status;
  hostname = h.hostname;
  pid = h.pid;
  last_beat_at = now;
  meta = h.meta;
}

-- HSET
unfoldable pub beat : ℕ → Heartbeat → Registry → Registry
unfolding deregister
beat now h workers = info_at now h ∷ deregister h.worker_id workers

-- The first beat; the loop of the others repeats `beat`.
unfoldable pub start : ℕ → Heartbeat → Registry → Heartbeat × Registry
unfolding beat
start now h workers =
    let running : Heartbeat = record h { status = WorkerStatus.running } in
    (running, beat now running workers)

unfoldable pub stop : ℕ → Bool → Heartbeat → Registry → Heartbeat × Registry
unfolding beat deregister
stop now deregisters h workers =
    let stopped : Heartbeat = record h { status = WorkerStatus.stopped } in
    (stopped, if deregisters then deregister h.worker_id workers else beat now stopped workers)

unfoldable pub list_workers : Registry → List WorkerInfo
unfolding sort
list_workers workers = sort (λ v w. str_leb v.worker_id w.worker_id) workers

abbrev pub age : ℕ → WorkerInfo → ℕ
age now w = now - w.last_beat_at

-- The loop over the listed workers: those whose beats stopped are removed, and counted.
unfoldable pub reap_listed : ℕ → ℕ → List WorkerInfo → Registry → Registry × ℕ
unfolding deregister
reap_listed now stale_after [] workers = (workers, 0)
reap_listed now stale_after (w ∷ listed) workers =
    let (left, removed) = reap_listed now stale_after listed (deregister w.worker_id workers) in
    let others = reap_listed now stale_after listed workers in
    if ltb stale_after (age now w) then (left, removed + 1) else others

unfoldable pub reap_stale : ℕ → ℕ → Registry → Registry × ℕ
unfolding reap_listed list_workers
reap_stale now stale_after workers = reap_listed now stale_after (list_workers workers) workers
