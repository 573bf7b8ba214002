-- ===== src/Frontier/Validity.antt =====
-- Every step of the frontier keeps its invariant.
use news_crawl_intelligence.Prelude.{
  ℕ, ◌+◌, ◌≡◌, refl, Bool, true, false, ◌==◌, String, List, [], ◌∷◌, Option, none, some, any,
  count_if, All-append, arith, Bool-cases, Option-cases, inl, inr,
}
use mathlib.Core.Path.{subst, ap}
use mathlib.Core.Option.{some-injective}
use news_crawl_intelligence.Prelude.Sorting.{All-weaken}
use news_crawl_intelligence.Contracts.{FailureCategory}
use news_crawl_intelligence.Backoff.{Uniform}
use news_crawl_intelligence.UrlNorm.{UrlLib}
use news_crawl_intelligence.Frontier.Rows.{
  CrawlUrl, Table, FrontierConfig, is_at_most, update_table, find_row,
}
use news_crawl_intelligence.Frontier.Claims.{
  lease_to, claim_batch, extend_lease, is_owned, release, requeued, reap_expired_leases,
  is_abandoned,
}
use news_crawl_intelligence.Frontier.Outcomes.{
  Fetched, set_row, mark_success, succeeded, mark_not_modified, not_modified, mark_failed,
  failed_once, skip, skipped, requeue_failed, retried, failed_in,
}
use news_crawl_intelligence.Frontier.Discovery.{
  SourceLike, DiscoveredUrl, Candidate, add_urls, candidates, insert_candidates, store, inserted,
  is_hit, same_hash, is_free, adopted, seen, upsert, upsert_all,
}
use news_crawl_intelligence.Frontier.Invariant.{
  IsConsistent, TableIsConsistent, All-update_where, All-update_where_with, lease_to-IsConsistent,
  requeued-IsConsistent, succeeded-IsConsistent, not_modified-IsConsistent,
  failed_once-IsConsistent, skipped-IsConsistent, retried-IsConsistent,
}
use news_crawl_intelligence.Frontier.Keys.{KeepsKeys, update_table-IsKeyed, upsert_all-IsKeyed}
use news_crawl_intelligence.Frontier.Picking.{IsOrderBy, is_open, picked_open}
use news_crawl_intelligence.Frontier.Steps.{
  Shared, Step, tick, add, claim, extend, give_back, succeed, unchanged, fail, skip_url, reap,
  requeue, Reach, begin, next, put, IsValid,
}

-- An UPDATE that keeps the keys, and the consistency of each row that it changes.
update-IsValid :
    (s : Shared) (test : CrawlUrl → Bool) (change : CrawlUrl → CrawlUrl)
    → KeepsKeys change
    → ((r : CrawlUrl) → test r ≡ true → IsConsistent s.clock r → IsConsistent s.clock (change r))
    → IsValid s
    → IsValid (put s (update_table test change s.table))
unfolding update_table
update-IsValid s test change keys row v = record {
  consistent = All-update_where (IsConsistent s.clock) test change s.table.rows row v.consistent;
  keyed = unfold update_table in update_table-IsKeyed test change s.table keys v.keyed;
}

module _ (now : ℕ) (change : Candidate → CrawlUrl → CrawlUrl) (test : CrawlUrl → Bool)
    (server_now : ℕ)
    (row : (c : Candidate) (r : CrawlUrl)
      → test r ≡ true
      → IsConsistent now r
      → IsConsistent now (change c r)) where
  inserted-IsConsistent : (id : ℕ) (c : Candidate) → IsConsistent now (inserted server_now id c)
  unfolding inserted
  inserted-IsConsistent id c = ground arith

  upsert-consistent :
      (c : Candidate) (t : Table)
      → TableIsConsistent now t
      → TableIsConsistent now (upsert change test server_now c t).0
  unfolding upsert update_table
  upsert-consistent c t h = elim (Bool-cases (any (same_hash c) t.rows)) [
    | inl old ↦ rw old (
        All-update_where (IsConsistent now) (is_hit test c) (change c) t.rows
          (λ r e. row c r (ground arith)) h)
    | inr new ↦
        rw new (All-append (IsConsistent now) t.rows _ h (inserted-IsConsistent t.next_id c, tt))
  ]

  upsert_all-consistent :
      (cs : List Candidate) (t : Table)
      → TableIsConsistent now t
      → TableIsConsistent now (upsert_all change test server_now cs t).0
  unfolding upsert_all
  upsert_all-consistent [] t h = h
  upsert_all-consistent (c ∷ cs) t h =
      upsert_all-consistent cs (upsert change test server_now c t).0 (upsert-consistent c t h)

keeps :
    (change : CrawlUrl → CrawlUrl)
    → ((r : CrawlUrl) → ((change r).id ≡ r.id) × ((change r).url_hash ≡ r.url_hash))
    → KeepsKeys change
keeps change same = record { same_id = λ r. (same r).0; same_url_hash = λ r. (same r).1 }

module _ (lib : UrlLib) (uniform : Uniform) (cfg : FrontierConfig) (s : Shared)
    (v : IsValid s) where
  tick-IsValid : (n : ℕ) → IsValid (record s { clock = s.clock + n })
  tick-IsValid n = record {
    consistent =
        All-weaken (IsConsistent s.clock) (IsConsistent (s.clock + n)) s.table.rows
          (λ r c. later r c) v.consistent;
    keyed = v.keyed;
  }
    where
      later : (r : CrawlUrl) → IsConsistent s.clock r → IsConsistent (s.clock + n) r
      later r c = ground arith

  extend-IsValid :
      (url_id : ℕ) (worker_id : String)
      → IsValid (put s (extend_lease cfg s.clock url_id worker_id s.table).0)
  unfolding extend_lease
  extend-IsValid url_id worker_id =
      update-IsValid s (is_owned url_id worker_id) _ (keeps _ (λ r. (refl, refl)))
        (λ r e c. ground arith) v

  release-IsValid :
      (url_id : ℕ) (worker_id : String) → IsValid (put s (release url_id worker_id s.table))
  unfolding release
  release-IsValid url_id worker_id =
      update-IsValid s (is_owned url_id worker_id) requeued (keeps requeued (λ r. (refl, refl)))
        (λ r e c. requeued-IsConsistent s.clock r (ground arith) c) v

  reap-IsValid : IsValid (put s (reap_expired_leases s.clock s.table).0)
  unfolding reap_expired_leases
  reap-IsValid =
      update-IsValid s (is_abandoned s.clock) requeued (keeps requeued (λ r. (refl, refl)))
        (λ r e c. requeued-IsConsistent s.clock r (ground arith) c) v

  set_row-IsValid :
      (url_id : ℕ) (change : CrawlUrl → CrawlUrl)
      → KeepsKeys change
      → ((r : CrawlUrl) → IsConsistent s.clock (change r))
      → IsValid (put s (set_row url_id change s.table))
  unfolding set_row
  set_row-IsValid url_id change keys row =
      update-IsValid s (λ r. r.id == url_id) change keys (λ r _ _. row r) v

  success-IsValid :
      (url_id : ℕ) (page : Fetched)
      → IsValid (put s (mark_success cfg s.clock url_id page s.table).0)
  unfolding mark_success
  success-IsValid url_id page = elim (Option-cases (find_row url_id s.table.rows)) [
    | inl e ↦ rw (e, mark_success) v
    | inr (r, e) ↦
        rw (e, mark_success)
          (set_row-IsValid url_id (succeeded cfg s.clock page) (keeps _ (λ r. (refl, refl)))
            (succeeded-IsConsistent s.clock cfg page))
  ]

  not_modified-IsValid :
      (url_id : ℕ) → IsValid (put s (mark_not_modified cfg s.clock url_id s.table))
  unfolding mark_not_modified
  not_modified-IsValid url_id =
      set_row-IsValid url_id (not_modified cfg s.clock) (keeps _ (λ r. (refl, refl)))
        (not_modified-IsConsistent s.clock cfg)

  failed-IsValid :
      (url_id : ℕ) (category : FailureCategory) (error : String) (http_status : Option ℕ)
      → IsValid
          (put s (mark_failed uniform cfg s.clock url_id category error http_status s.table).0)
  unfolding mark_failed
  failed-IsValid url_id category error http_status =
      elim (Option-cases (find_row url_id s.table.rows)) [
        | inl e ↦ rw (e, mark_failed) v
        | inr (r, e) ↦
            rw (e, mark_failed)
              (set_row-IsValid url_id (failed_once uniform cfg s.clock category error http_status)
                (keeps _ (λ r. (refl, refl)))
                (failed_once-IsConsistent s.clock uniform cfg category error http_status))
      ]

  skip-IsValid : (url_id : ℕ) (reason : String) → IsValid (put s (skip url_id reason s.table))
  unfolding skip
  skip-IsValid url_id reason =
      set_row-IsValid url_id (skipped reason) (keeps _ (λ r. (refl, refl)))
        (skipped-IsConsistent s.clock reason)

  requeue-IsValid :
      (source_id : ℕ) (job : Option ℕ)
      → IsValid (put s (requeue_failed s.clock source_id job s.table).0)
  unfolding requeue_failed
  requeue-IsValid source_id job =
      update-IsValid s (failed_in source_id) (retried s.clock job) (keeps _ (λ r. (refl, refl)))
        (retried-IsConsistent s.clock source_id job) v

  adopted-IsConsistent :
      (c : Candidate) (r : CrawlUrl)
      → is_free r ≡ true
      → IsConsistent s.clock r
      → IsConsistent s.clock (adopted s.clock c r)
  unfolding adopted
  adopted-IsConsistent c r e h = ground arith

  seen-IsConsistent :
      (c : Candidate) (r : CrawlUrl)
      → IsConsistent s.clock r
      → IsConsistent s.clock (seen s.clock c r)
  unfolding seen
  seen-IsConsistent c r h = ground arith

  insert_candidates-IsValid :
      (server_now : ℕ) (requeue_existing : Bool) (cs : List Candidate)
      → IsValid (put s (insert_candidates s.clock server_now requeue_existing cs s.table).0)
  unfolding insert_candidates
  insert_candidates-IsValid server_now true cs = record {
    consistent =
        upsert_all-consistent s.clock (adopted s.clock) is_free server_now adopted-IsConsistent cs
          s.table v.consistent;
    keyed =
        upsert_all-IsKeyed (adopted s.clock) (λ c. keeps _ (λ r. (refl, refl))) is_free server_now
          cs s.table v.keyed;
  }
  insert_candidates-IsValid server_now false cs = record {
    consistent =
        upsert_all-consistent s.clock (seen s.clock) (λ _. true) server_now
          (λ c r _. seen-IsConsistent c r) cs s.table v.consistent;
    keyed =
        upsert_all-IsKeyed (seen s.clock) (λ c. keeps _ (λ r. (refl, refl))) (λ _. true) server_now
          cs s.table v.keyed;
  }

  store-IsValid :
      (server_now : ℕ) (requeue_existing : Bool) (found : Option (List Candidate)) (t : Table)
      (n : ℕ)
      → store s.clock server_now requeue_existing found s.table ≡ some (t, n)
      → IsValid (put s t)
  unfolding store
  store-IsValid server_now requeue_existing none t n e = cc
  store-IsValid server_now requeue_existing (some []) t n e = subst (λ u. IsValid (put s u)) (cc) v
  store-IsValid server_now requeue_existing (some (c ∷ cs)) t n e =
      subst (λ u. IsValid (put s u)) (ap (λ (r : Table × ℕ). r.0) (some-injective _ _ e))
        (insert_candidates-IsValid server_now requeue_existing (c ∷ cs))

  add-IsValid :
      (source : SourceLike) (discovered : List DiscoveredUrl) (job : Option ℕ)
      (requeue_existing : Bool) (server_now : ℕ) (t : Table) (n : ℕ)
      → add_urls lib source discovered job requeue_existing s.clock server_now s.table ≡ some (t, n)
      → IsValid (put s t)
  unfolding add_urls
  add-IsValid source discovered job requeue_existing server_now t n e =
      store-IsValid server_now requeue_existing (candidates lib source job s.clock discovered []) t
        n e

  claim-IsValid :
      (order_by : List CrawlUrl → List CrawlUrl)
      → IsOrderBy order_by
      → (locked : ℕ → Bool) (worker_id : String) (limit : ℕ) (source_id job : Option ℕ)
      → IsValid
          (put s (claim_batch order_by cfg s.clock locked worker_id limit source_id job s.table).0)
  unfolding claim_batch
  claim-IsValid order_by order locked worker_id limit source_id job = record {
    consistent =
        All-update_where_with (IsConsistent s.clock) _ _ (lease_to cfg s.clock worker_id)
          s.table.rows
          (λ r e opens _. lease_to-IsConsistent s.clock cfg worker_id r (open_is_due r (opens e)))
          (picked_open order_by order s.clock locked limit source_id job s.table.rows
            v.keyed.one_id)
          v.consistent;
    keyed =
        update_table-IsKeyed _ (lease_to cfg s.clock worker_id) s.table
          (keeps _ (λ r. (refl, refl))) v.keyed;
  }
    where
      open_is_due :
          (r : CrawlUrl)
          → is_open s.clock locked source_id job r ≡ true
          → is_at_most r.next_crawl_at s.clock ≡ true
      open_is_due r e = ground arith

module _ (lib : UrlLib) (order_by : List CrawlUrl → List CrawlUrl) (order : IsOrderBy order_by)
    (uniform : Uniform) (cfg : FrontierConfig) where
  Step-IsValid : {s s' : Shared} → Step lib order_by uniform cfg s s' → IsValid s → IsValid s'
  Step-IsValid (tick s n) v = tick-IsValid lib uniform cfg s v n
  Step-IsValid (add s source discovered job requeue_existing server_now t n e) v =
      add-IsValid lib uniform cfg s v source discovered job requeue_existing server_now t n e
  Step-IsValid (claim s locked worker_id limit source_id job) v =
      claim-IsValid lib uniform cfg s v order_by order locked worker_id limit source_id job
  Step-IsValid (extend s url_id worker_id) v = extend-IsValid lib uniform cfg s v url_id worker_id
  Step-IsValid (give_back s url_id worker_id) v =
      release-IsValid lib uniform cfg s v url_id worker_id
  Step-IsValid (succeed s url_id page) v = success-IsValid lib uniform cfg s v url_id page
  Step-IsValid (unchanged s url_id) v = not_modified-IsValid lib uniform cfg s v url_id
  Step-IsValid (fail s url_id category error http_status) v =
      failed-IsValid lib uniform cfg s v url_id category error http_status
  Step-IsValid (skip_url s url_id reason) v = skip-IsValid lib uniform cfg s v url_id reason
  Step-IsValid (reap s) v = reap-IsValid lib uniform cfg s v
  Step-IsValid (requeue s source_id job) v = requeue-IsValid lib uniform cfg s v source_id job

  -- Whatever workers, jobs and the reaper do to an empty frontier, in any order: a URL has a
  -- lease, with an owner and an end, exactly while it is LEASED or CRAWLING, and was due when it
  -- was leased; a URL that waits has a time for its next crawl; and no two rows share an identity
  -- or a URL hash.
  pub Reach-IsValid : {s : Shared} → Reach lib order_by uniform cfg s → IsValid s
  Reach-IsValid begin = record {
    consistent = tt;
    keyed = record {
      fresh = tt;
      one_id = λ i. unfold count_if in omega arith;
      one_hash = λ h. unfold count_if in omega arith;
    };
  }
  Reach-IsValid (next r step) = Step-IsValid step (Reach-IsValid r)
