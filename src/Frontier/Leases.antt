-- ===== src/Frontier/Leases.antt =====
-- What `claim_batch` hands out.
use native.Mathlib.Decide.{ℕ_discrete}
use mathlib.Core.Path.{subst}
use news_crawl_intelligence.Prelude.{
  ℕ, ◌+◌, ◌*◌, ◌≤◌, ◌≡◌, refl, Bool, true, false, not, ◌&&◌, ◌||◌, String, List, [], ◌∷◌, map,
  Option, some, filter, length, length-take-le, length-filter, count_if, All, ◌==◌, ==_iff,
  Bool-cases, inl, inr, arith,
}
use news_crawl_intelligence.Prelude.Sorting.{All-weaken}
use news_crawl_intelligence.Contracts.{UrlStatus}
use news_crawl_intelligence.Backoff.{second}
use news_crawl_intelligence.Frontier.Rows.{
  CrawlUrl, Table, FrontierConfig, is_claimable, update_where,
}
use news_crawl_intelligence.Frontier.Claims.{is_candidate, has_id, chosen, lease_to, claim_batch}
use news_crawl_intelligence.Frontier.Keys.{IsKeyed, update_table-IsKeyed}
use news_crawl_intelligence.Frontier.Picking.{IsOrderBy, is_open, picked_open, All-any}

has_id-cons :
    (i : ℕ) (x : CrawlUrl) (xs : List CrawlUrl) → has_id i (x ∷ xs) ≡ (x.id == i || has_id i xs)
unfolding has_id
has_id-cons i x xs = refl

count_split :
    (x : CrawlUrl) (xs rows : List CrawlUrl)
    → count_if (λ r. has_id r.id (x ∷ xs)) rows
      ≤ count_if (λ r. r.id == x.id) rows + count_if (λ r. has_id r.id xs) rows
unfolding count_if
count_split x xs [] = omega arith
count_split x xs (r ∷ rows) = ground (arith, count_split x xs rows, has_id-cons r.id x xs)

no_ids : (rows : List CrawlUrl) → count_if (λ r. has_id r.id []) rows ≤ 0
unfolding count_if has_id
no_ids [] = omega arith
no_ids (r ∷ rows) = omega (arith, no_ids rows)

-- No more rows have an identity in a list than the list is long.
count-has_id-le :
    (rows : List CrawlUrl)
    → ((i : ℕ) → count_if (λ r. r.id == i) rows ≤ 1)
    → (xs : List CrawlUrl) → count_if (λ r. has_id r.id xs) rows ≤ length xs
count-has_id-le rows one [] = no_ids rows
count-has_id-le rows one (x ∷ xs) =
    omega (arith, count_split x xs rows, one x.id, count-has_id-le rows one xs)

All-map-filter :
    (P : CrawlUrl → Type 0) (test : CrawlUrl → Bool) (change : CrawlUrl → CrawlUrl)
    (rows : List CrawlUrl)
    → All (λ r. test r ≡ true → P (change r)) rows
    → All P (map change (filter test rows))
unfolding filter
All-map-filter P test change [] h = tt
All-map-filter P test change (r ∷ rows) h = elim (Bool-cases (test r)) [
  | inl e ↦ rw (e, filter) (h.0 e, All-map-filter P test change rows h.1)
  | inr e ↦ rw (e, filter) (All-map-filter P test change rows h.1)
]

All-updated :
    (P : CrawlUrl → Type 0) (test : CrawlUrl → Bool) (change : CrawlUrl → CrawlUrl)
    (rows : List CrawlUrl)
    → All P (update_where test change rows)
    → All P (map change (filter test rows))
unfolding update_where filter
All-updated P test change [] h = tt
All-updated P test change (r ∷ rows) h = elim (Bool-cases (test r)) [
  | inl e ↦ rw (e, filter) (rw e at h.0, All-updated P test change rows h.1)
  | inr e ↦ rw (e, filter) (All-updated P test change rows h.1)
]

All-both :
    (P Q R : CrawlUrl → Type 0) (rows : List CrawlUrl)
    → ((r : CrawlUrl) → P r → Q r → R r)
    → All P rows
    → All Q rows
    → All R rows
All-both P Q R [] f p q = tt
All-both P Q R (r ∷ rows) f p q = (f r p.0 q.0, All-both P Q R rows f p.1 q.1)

none_closed : (a b : Bool) → (a ≡ true → b ≡ true) → (a && not b) ≡ false
none_closed a b h = ground arith

length-map :
    (change : CrawlUrl → CrawlUrl) (rows : List CrawlUrl) → length (map change rows) ≡ length rows
length-map change [] = refl
length-map change (r ∷ rows) = omega (arith, length-map change rows)

lease_to-id :
    (cfg : FrontierConfig) (now : ℕ) (worker_id : String) (r : CrawlUrl)
    → (lease_to cfg now worker_id r).id ≡ r.id
unfolding lease_to
lease_to-id cfg now worker_id r = refl

-- The rows of a lease keep their identities.
has_id-leased :
    (cfg : FrontierConfig) (now : ℕ) (worker_id : String) (i : ℕ) (xs rows : List CrawlUrl)
    → has_id i (map (lease_to cfg now worker_id) (filter (λ r. has_id r.id xs) rows)) ≡ true
    → has_id i xs ≡ true
unfolding filter
has_id-leased cfg now worker_id i xs [] h = unfold has_id in cc
has_id-leased cfg now worker_id i xs (r ∷ rows) h = elim (Bool-cases (has_id r.id xs)) [
  | inl e ↦ elim (ℕ_discrete r.id i) [
    | yes same ↦ subst (λ k. has_id k xs ≡ true) same e
    | no other ↦
        let rest = map (lease_to cfg now worker_id) (filter (λ r. has_id r.id xs) rows) in
        has_id-leased cfg now worker_id i xs rows (
          ground (
            arith,
            ==_iff r.id i,
            has_id-cons i (lease_to cfg now worker_id r) rest,
            lease_to-id cfg now worker_id r,
            rw (e, filter) at h,
          ))
  ]
  | inr e ↦ has_id-leased cfg now worker_id i xs rows (rw (e, filter) at h)
]

module _ (order_by : List CrawlUrl → List CrawlUrl) (order : IsOrderBy order_by)
    (cfg : FrontierConfig) where
  picked_limit :
      (now : ℕ) (locked : ℕ → Bool) (limit : ℕ) (source_id job : Option ℕ) (rows : List CrawlUrl)
      → length (chosen order_by now locked limit source_id job rows) ≤ limit
  unfolding chosen
  picked_limit now locked limit source_id job rows = length-take-le limit _

  -- A claim on a table with unique keys hands out at most `limit` rows, and each is leased to the
  -- worker for the lease time; in the table it was a due candidate that nobody had locked.
  pub claim_batch_leases :
      (now : ℕ) (locked : ℕ → Bool) (worker_id : String) (limit : ℕ) (source_id job : Option ℕ)
      (t : Table)
      → IsKeyed t
      → (length (claim_batch order_by cfg now locked worker_id limit source_id job t).1 ≤ limit)
        × All
            (λ r.
              (r.status ≡ UrlStatus.leased)
              × (r.lease_owner ≡ some worker_id)
              × (r.lease_expires_at ≡ some (now + cfg.lease_seconds * second))
              × (is_claimable r.status ≡ false))
            (claim_batch order_by cfg now locked worker_id limit source_id job t).1
        × All
            (λ r.
              (has_id r.id (claim_batch order_by cfg now locked worker_id limit source_id job t).1
                && not (is_open now locked source_id job r))
              ≡ false)
            t.rows
  unfolding claim_batch
  claim_batch_leases now locked worker_id limit source_id job t keyed =
      let picked = chosen order_by now locked limit source_id job t.rows in
      (
        omega (
          arith,
          length-map (lease_to cfg now worker_id) (filter (λ r. has_id r.id picked) t.rows),
          length-filter (λ (r : CrawlUrl). has_id r.id picked) t.rows,
          count-has_id-le t.rows keyed.one_id picked,
          picked_limit now locked limit source_id job t.rows,
        ),
        All-map-filter _ (λ r. has_id r.id picked) (lease_to cfg now worker_id) t.rows
            (All-any _ t.rows (λ r e. unfold lease_to in (refl, refl, refl, refl))),
        All-weaken _ _ t.rows
            (λ r opens.
              none_closed _ _ (λ e. opens (has_id-leased cfg now worker_id r.id picked t.rows e)))
            (picked_open order_by order now locked limit source_id job t.rows keyed.one_id),
      )

  claim_batch-IsKeyed :
      (now : ℕ) (locked : ℕ → Bool) (w : String) (limit : ℕ) (source_id job : Option ℕ) (t : Table)
      → IsKeyed t
      → IsKeyed (claim_batch order_by cfg now locked w limit source_id job t).0
  unfolding claim_batch
  claim_batch-IsKeyed now locked w limit source_id job t keyed =
      update_table-IsKeyed _ (lease_to cfg now w) t
        (record { same_id = λ r. refl; same_url_hash = λ r. refl }) keyed

  -- What holds of every row of the new table holds of the rows that are returned.
  returned_rows :
      (now : ℕ) (locked : ℕ → Bool) (w : String) (limit : ℕ) (source_id job : Option ℕ) (t : Table)
      (P : CrawlUrl → Type 0)
      → All P (claim_batch order_by cfg now locked w limit source_id job t).0.rows
      → All P (claim_batch order_by cfg now locked w limit source_id job t).1
  unfolding claim_batch
  returned_rows now locked w limit source_id job t P h =
      All-updated P _ (lease_to cfg now w) t.rows h

  not_again :
      (now : ℕ) (locked : ℕ → Bool) (source_id job : Option ℕ) (r : CrawlUrl)
      (again : List CrawlUrl)
      → is_claimable r.status ≡ false
      → (has_id r.id again && not (is_open now locked source_id job r)) ≡ false
      → has_id r.id again ≡ false
  unfolding is_candidate
  not_again now locked source_id job r again leased opens = ground arith

  -- What one claim on a table with unique keys hands out no later claim hands out again, by
  -- whatever worker, at whatever time, as long as the rows stay as the first claim left them.
  pub claim_batch_disjoint :
      (now now' : ℕ) (locked locked' : ℕ → Bool) (w w' : String) (limit limit' : ℕ)
      (source_id source_id' job job' : Option ℕ) (t : Table)
      → IsKeyed t
      → All
          (λ r.
            has_id r.id
              (claim_batch order_by cfg now' locked' w' limit' source_id' job'
                (claim_batch order_by cfg now locked w limit source_id job t).0).1
            ≡ false)
          (claim_batch order_by cfg now locked w limit source_id job t).1
  claim_batch_disjoint now now' locked locked' w w' limit limit' source_id source_id' job job' t
        keyed =
      let first = claim_batch order_by cfg now locked w limit source_id job t in
      let again =
        claim_batch_leases now' locked' w' limit' source_id' job' first.0
          (claim_batch-IsKeyed now locked w limit source_id job t keyed) in
      All-both _ _ _ first.1
        (λ r leased opens. not_again now' locked' source_id' job' r _ leased.3 opens)
        (claim_batch_leases now locked w limit source_id job t keyed).1
        (returned_rows now locked w limit source_id job t _ again.2)
