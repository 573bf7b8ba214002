-- ===== src/Heartbeat/Reaped.antt =====
-- The removal of the workers that stopped beating (apps/api/newscrawl_api/coordination/heartbeat.py,
-- reap_stale).
use mathlib.Core.Path.{sym, ap}
use news_crawl_intelligence.Prelude.{
  ℕ, ◌+◌, ◌≡◌, refl, ◌∙◌, ltb, not, ◌&&◌, ◌||◌, Bool, true, false, List, [], ◌∷◌, filter, any,
  count_if, str_eq, eq_iff, eq_refl, ◌≤◌, arith, if_cases,
}
use news_crawl_intelligence.Prelude.Sorting.{sort, insert, count_if-sort}
use news_crawl_intelligence.Prelude.Text.{str_leb}
use news_crawl_intelligence.Heartbeat.{
  Heartbeat, WorkerInfo, Registry, info_at, beat, deregister, list_workers, age, reap_listed,
  reap_stale,
}

abbrev pub is_stale : ℕ → ℕ → WorkerInfo → Bool
is_stale now stale_after w = ltb stale_after (age now w)

-- The list has a stale entry with the identity.
unfoldable is_lost : ℕ → ℕ → List WorkerInfo → WorkerInfo → Bool
unfolding any
is_lost now stale_after listed w =
    any (λ v. is_stale now stale_after v && str_eq w.worker_id v.worker_id) listed

module _ {A : Type 0} where
  filter-filter :
      (p q : A → Bool) (xs : List A) → filter p (filter q xs) ≡ filter (λ x. p x && q x) xs
  unfolding filter
  filter-filter p q [] = refl
  filter-filter p q (x ∷ xs) = ground (arith, filter-filter p q xs)

  filter_ext : (p q : A → Bool) → ((x : A) → p x ≡ q x) → (xs : List A) → filter p xs ≡ filter q xs
  unfolding filter
  filter_ext p q h [] = refl
  filter_ext p q h (x ∷ xs) = ground (arith, h x, filter_ext p q h xs)

  filter-true : (xs : List A) → filter (λ _. true) xs ≡ xs
  unfolding filter
  filter-true [] = refl
  filter-true (x ∷ xs) = ground (arith, filter-true xs)

  any-filter :
      (p q : A → Bool) (x : A) (xs : List A)
      → p x ≡ true
      → q x ≡ true
      → any q (filter p (x ∷ xs)) ≡ true
  unfolding any filter
  any-filter p q x xs kept passed = ground (arith, kept, passed)

  any-insert :
      (le : A → A → Bool) (p : A → Bool) (x : A) (xs : List A)
      → any p (insert le x xs) ≡ p x || any p xs
  unfolding insert any
  any-insert le p x [] = refl
  any-insert le p x (y ∷ ys) = ground (arith, any-insert le p x ys)

  any-sort : (le : A → A → Bool) (p : A → Bool) (xs : List A) → any p (sort le xs) ≡ any p xs
  unfolding sort any
  any-sort le p [] = refl
  any-sort le p (x ∷ xs) = ground (arith, any-insert le p x (sort le xs), any-sort le p xs)

module _ (now stale_after : ℕ) where
  reap_listed-left :
      (listed : List WorkerInfo) (workers : Registry)
      → (reap_listed now stale_after listed workers).0
        ≡ filter (λ w. not (is_lost now stale_after listed w)) workers
  unfolding reap_listed is_lost any deregister
  reap_listed-left [] workers = sym (filter-true workers)
  reap_listed-left (v ∷ listed) workers =
      if_cases
        (λ (r : Registry × ℕ).
          r.0 ≡ filter (λ w. not (is_lost now stale_after (v ∷ listed) w)) workers)
        (is_stale now stale_after v)
        (λ stale.
          reap_listed-left listed (deregister v.worker_id workers)
          ∙ filter-filter (λ w. not (is_lost now stale_after listed w))
              (λ w. not (str_eq w.worker_id v.worker_id)) workers
          ∙ filter_ext _ _ (λ w. ground (arith, stale)) workers)
        (λ fresh.
          reap_listed-left listed workers ∙ filter_ext _ _ (λ w. ground (arith, fresh)) workers)

  reap_listed-removed :
      (listed : List WorkerInfo) (workers : Registry)
      → (reap_listed now stale_after listed workers).1 ≡ count_if (is_stale now stale_after) listed
  unfolding reap_listed count_if
  reap_listed-removed [] workers = refl
  reap_listed-removed (v ∷ listed) workers =
      let h = reap_listed-removed listed (deregister v.worker_id workers) in
      let k = reap_listed-removed listed workers in ground (arith, h, k)

  -- The reaper removes all entries of the workers that have a beat older than the limit and no
  -- others, and answers how many such beats there are.
  pub reap_stale_lem :
      (workers : Registry)
      → (reap_stale now stale_after workers).0
          ≡ filter
              (λ w.
                not
                  (any (λ v. is_stale now stale_after v && str_eq w.worker_id v.worker_id) workers))
              workers
        × (reap_stale now stale_after workers).1 ≡ count_if (is_stale now stale_after) workers
  unfolding reap_stale list_workers is_lost
  reap_stale_lem workers =
      let le = (λ (v w : WorkerInfo). str_leb v.worker_id w.worker_id) in
      let listed = list_workers workers in
      (
        reap_listed-left listed workers
            ∙ filter_ext _ _
                (λ w. ap not (
                  any-sort le (λ v. is_stale now stale_after v && str_eq w.worker_id v.worker_id)
                    workers))
                workers,
        reap_listed-removed listed workers ∙ count_if-sort (is_stale now stale_after) le workers,
      )

  any-deregister :
      (h : Heartbeat) (workers : Registry) (w : WorkerInfo)
      → w.worker_id ≡ h.worker_id
      → any
          (λ v. is_stale now stale_after v && str_eq w.worker_id v.worker_id)
          (deregister h.worker_id workers)
        ≡ false
  unfolding any deregister filter
  any-deregister h [] w own = refl
  any-deregister h (v ∷ workers) w own = ground (
    arith,
    own,
    eq_iff w.worker_id v.worker_id,
    eq_iff v.worker_id h.worker_id,
    any-deregister h workers w own,
  )

  -- A worker is still listed if its last beat is not older than the limit.
  reap_stale-beat :
      (at : ℕ) (h : Heartbeat) (workers : Registry)
      → now ≤ at + stale_after
      → any (λ w. str_eq w.worker_id h.worker_id) (reap_stale now stale_after (beat at h workers)).0
        ≡ true
  unfolding beat any
  reap_stale-beat at h workers fresh =
      let is_kept = (λ (w : WorkerInfo). not (
        any (λ v. is_stale now stale_after v && str_eq w.worker_id v.worker_id)
          (beat at h workers))) in
      let same = any-deregister h workers (info_at at h) refl in
      rw ((reap_stale_lem (beat at h workers)).0) (
        any-filter is_kept _ (info_at at h) (deregister h.worker_id workers)
          (ground (arith, fresh, same)) (eq_refl h.worker_id))
