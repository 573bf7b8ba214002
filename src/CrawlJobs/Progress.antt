-- ===== src/CrawlJobs/Progress.antt =====
-- The counters of a job under concurrent workers.
use news_crawl_intelligence.Prelude.{
  ℕ, ◌+◌, ◌≡◌, ◌==◌, refl, sym, ◌∙◌, ap, Bool, true, false, String, List, [], ◌∷◌, Option, none,
  some, filter, if◌then◌else◌, arith,
}
use news_crawl_intelligence.CrawlJobs.{CrawlJob, Counter}
use news_crawl_intelligence.CrawlJobs.Counters.{
  add_known, add_to, add_values, delta_of, is_given, known_counters, update_job, increment_counters,
}

-- Two calls one after the other; an error of either is the error of both.
abbrev pub then_increment : ℕ → List (String × ℕ) → Option (List CrawlJob) → Option (List CrawlJob)
then_increment job_id counters none = none
then_increment job_id counters (some jobs) = increment_counters job_id counters jobs

plus_swap : (a b c : ℕ) → (a + b) + c ≡ (a + c) + b
plus_swap a b c = omega arith

plus_zero : (a : ℕ) → a + 0 ≡ a
plus_zero a = omega arith

add_to_comm :
    (v w : List (Counter × ℕ)) (j : CrawlJob) → add_to v (add_to w j) ≡ add_to w (add_to v j)
unfolding add_to
add_to_comm v w j =
    ap (λ (p : Counter → ℕ). record j { progress = p })
      (λ i c. plus_swap (j.progress c) (delta_of c w) (delta_of c v) i)

-- What an update with a key does to a row.
abbrev add_at : ℕ → List (Counter × ℕ) → CrawlJob → CrawlJob
add_at i v j = if j.id == i then add_to v j else j

if_add : Bool → List (Counter × ℕ) → CrawlJob → CrawlJob
if_add b v j = if b then add_to v j else j

if_add_comm :
    (a b : Bool) (v w : List (Counter × ℕ)) (j : CrawlJob)
    → if_add a v (if_add b w j) ≡ if_add b w (if_add a v j)
unfolding if_add
if_add_comm true true v w j = add_to_comm v w j
if_add_comm true false v w j = refl
if_add_comm false true v w j = refl
if_add_comm false false v w j = refl

if_add-id : (b : Bool) (v : List (Counter × ℕ)) (j : CrawlJob) → (if_add b v j).id ≡ j.id
unfolding if_add add_to
if_add-id true v j = refl
if_add-id false v j = refl

if_add-nothing : (b : Bool) (j : CrawlJob) → if_add b [] j ≡ j
unfolding if_add add_to delta_of
if_add-nothing true j =
    ap (λ (p : Counter → ℕ). record j { progress = p }) (λ t c. plus_zero (j.progress c) t)
if_add-nothing false j = refl

add_at_comm :
    (i k : ℕ) (v w : List (Counter × ℕ)) (j : CrawlJob)
    → add_at i v (add_at k w j) ≡ add_at k w (add_at i v j)
unfolding if_add
add_at_comm i k v w j =
    ap (λ (n : ℕ). if_add (n == i) v (add_at k w j)) (if_add-id (j.id == k) w j)
    ∙ if_add_comm (j.id == i) (j.id == k) v w j
    ∙ sym (ap (λ (n : ℕ). if_add (n == k) w (add_at i v j)) (if_add-id (j.id == i) v j))

update_job_comm :
    (i k : ℕ) (v w : List (Counter × ℕ)) (jobs : List CrawlJob)
    → update_job i (add_to v) (update_job k (add_to w) jobs)
      ≡ update_job k (add_to w) (update_job i (add_to v) jobs)
unfolding update_job
update_job_comm i k v w [] = refl
update_job_comm i k v w (j ∷ jobs) = λ t. add_at_comm i k v w j t ∷ update_job_comm i k v w jobs t

update_job-nothing : (i : ℕ) (jobs : List CrawlJob) → update_job i (add_to []) jobs ≡ jobs
unfolding update_job if_add
update_job-nothing i [] = refl
update_job-nothing i (j ∷ jobs) = λ t. if_add-nothing (j.id == i) j t ∷ update_job-nothing i jobs t

add_values-update :
    (i : ℕ) (v : List (Counter × ℕ)) (jobs : List CrawlJob)
    → add_values i v jobs ≡ update_job i (add_to v) jobs
unfolding add_values
add_values-update i [] jobs = sym (update_job-nothing i jobs)
add_values-update i (x ∷ v) jobs = refl

values_updates :
    (i k : ℕ) (v w : List (Counter × ℕ)) (jobs : List CrawlJob)
    → add_values i v (add_values k w jobs) ≡ update_job i (add_to v) (update_job k (add_to w) jobs)
values_updates i k v w jobs =
    add_values-update i v (add_values k w jobs)
    ∙ ap (update_job i (add_to v)) (add_values-update k w jobs)

add_values_comm :
    (i k : ℕ) (v w : List (Counter × ℕ)) (jobs : List CrawlJob)
    → add_values i v (add_values k w jobs) ≡ add_values k w (add_values i v jobs)
add_values_comm i k v w jobs =
    values_updates i k v w jobs ∙ update_job_comm i k v w jobs ∙ sym (values_updates k i w v jobs)

abbrev then_known :
    ℕ → Option (List (Counter × ℕ)) → Option (List CrawlJob) → Option (List CrawlJob)
then_known i known none = none
then_known i known (some jobs) = add_known i known jobs

then_known-increment :
    (i : ℕ) (a : List (String × ℕ)) (jobs : Option (List CrawlJob))
    → then_increment i a jobs ≡ then_known i (known_counters a) jobs
unfolding increment_counters
then_known-increment i a none = refl
then_known-increment i a (some jobs) = refl

add_known_comm :
    (i k : ℕ) (a b : Option (List (Counter × ℕ))) (jobs : List CrawlJob)
    → then_known i a (add_known k b jobs) ≡ then_known k b (add_known i a jobs)
unfolding add_known
add_known_comm i k none none jobs = refl
add_known_comm i k none (some w) jobs = refl
add_known_comm i k (some v) none jobs = refl
add_known_comm i k (some v) (some w) jobs =
    ap some (add_values_comm i k (filter is_given v) (filter is_given w) jobs)

-- Two workers that add to the counters of jobs, the same one or two, come to the same rows or the
-- same error in either order.
pub increment_counters_comm :
    (i k : ℕ) (a b : List (String × ℕ)) (jobs : List CrawlJob)
    → then_increment i a (increment_counters k b jobs)
      ≡ then_increment k b (increment_counters i a jobs)
unfolding increment_counters
increment_counters_comm i k a b jobs =
    then_known-increment i a (increment_counters k b jobs)
    ∙ add_known_comm i k (known_counters a) (known_counters b) jobs
    ∙ sym (then_known-increment k b (increment_counters i a jobs))
