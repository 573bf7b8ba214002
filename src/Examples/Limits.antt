-- ===== src/Examples/Limits.antt =====
-- The rate limiter for a domain with one request per second and a burst of two, and a worker that crashed.
use news_crawl_intelligence.Prelude.{
  ℕ, zero, suc, ◌+◌, ◌-◌, ◌*◌, ◌≤◌, ◌≡◌, refl, arith, true, false, String, not, ◌&&◌, any, filter,
  count_if, str_eq, List, [], ◌∷◌, none, some,
}
use news_crawl_intelligence.Backoff.{second}
use news_crawl_intelligence.Contracts.{WorkerStatus}
use news_crawl_intelligence.Heartbeat.{Heartbeat, WorkerType, Registry, beat, reap_stale}
use news_crawl_intelligence.Heartbeat.Reaped.{is_stale, reap_stale_lem}
use news_crawl_intelligence.RateLimit.{Bucket, token, acquire}
use news_crawl_intelligence.RateLimit.Bound.{passed, last_time, passed_bound, acquire_after_wait}
use news_crawl_intelligence.RateLimit.Politeness.{
  Seen, IsAlone, EndsAlone, process_request, process_request_ends,
}

-- One request per second.
abbrev rate : ℕ
rate = 1000

abbrev times : List ℕ
times = 0 ∷ 0 ∷ second ∷ 2 * second ∷ []

-- Four of the five requests pass: two at once, and one in each of the two seconds.
four_pass : passed rate 2 (0 ∷ times) none ≡ 4
unfolding passed
four_pass = refl

passed_bound_example :
    token * passed rate 2 (0 ∷ times) none ≤ 2 * token + (last_time 0 times - 0) * rate
passed_bound_example =
    passed_bound rate 2 0 times none (omega arith)
      (omega arith, (omega arith, (omega arith, (omega arith, tt))))

abbrev empty_bucket : Bucket
empty_bucket = record { tokens = 0; ts = 5; expires_at = 100 * second }

is_refused : (acquire rate 2 5 (some empty_bucket)).1 ≡ false
unfolding acquire
is_refused = refl

is_told_to_wait : (acquire rate 2 5 (some empty_bucket)).2 ≤ (5 + second - 5) * rate
unfolding acquire
is_told_to_wait = omega arith

acquire_after_wait_example :
    (acquire rate 2 (5 + second) (some (acquire rate 2 5 (some empty_bucket)).0)).1 ≡ true
acquire_after_wait_example =
    acquire_after_wait rate 2 5 (5 + second) (some empty_bucket) (omega arith) (omega arith)
      is_refused (omega arith) is_told_to_wait

-- The bucket is empty, and a second later it has one token.
abbrev alone : Seen
alone zero = (5, some empty_bucket)
alone (suc n) = (5 + second, some (acquire rate 2 5 (some empty_bucket)).0)

alone-IsAlone : IsAlone rate 2 alone
unfolding acquire
alone-IsAlone = record { undisturbed = refl; later = omega arith; slept = omega arith }

process_request_ends_example :
    EndsAlone rate 2 alone (process_request rate 2 alone 2 (some "example.org"))
process_request_ends_example =
    process_request_ends rate 2 alone "example.org" (omega arith) (omega arith) alone-IsAlone

abbrev worker : String → Heartbeat
worker name = record {
  worker_id = name;
  worker_type = WorkerType.crawler;
  status = WorkerStatus.running;
  hostname = "host";
  pid = 7;
  meta = "{}";
}

-- The first worker beats once, and the second one goes on.
abbrev registry : Registry
registry = beat (200 * second) (worker "b") (beat second (worker "b") (beat second (worker "a") []))

one_is_removed : (reap_stale (240 * second) (120 * second) registry).1 ≡ 1
unfolding reap_stale beat
one_is_removed = refl

reap_stale_lem_example :
    (reap_stale (240 * second) (120 * second) registry).0
      ≡ filter
          (λ w. not (
            any
              (λ v. is_stale (240 * second) (120 * second) v && str_eq w.worker_id v.worker_id)
              registry))
          registry
    × (reap_stale (240 * second) (120 * second) registry).1
      ≡ count_if (is_stale (240 * second) (120 * second)) registry
reap_stale_lem_example = reap_stale_lem (240 * second) (120 * second) registry
