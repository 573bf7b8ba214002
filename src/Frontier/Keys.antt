-- ===== src/Frontier/Keys.antt =====
-- The keys of the table: identities and URL hashes stand in one row each.
use news_crawl_intelligence.Prelude.{
  ℕ, ◌+◌, ◌≤◌, ◌<◌, ◌≡◌, refl, Bool, false, String, List, [], ◌∷◌, All, All-append, any, count_if,
  count_if-append, count_if-any, str_eq, eq_iff, ◌==◌, arith, Bool-cases, inl, inr,
}
use news_crawl_intelligence.Frontier.Rows.{CrawlUrl, Table, update_where, update_table}
use news_crawl_intelligence.Frontier.Discovery.{
  Candidate, same_hash, is_hit, insert_row, inserted, upsert, upsert_all,
}
use news_crawl_intelligence.Frontier.Invariant.{All-update_where}

pub record IsKeyed (t : Table) : Type 0 where
  pub fresh : All (λ r. r.id < t.next_id) t.rows
  pub one_id : (i : ℕ) → count_if (λ r. r.id == i) t.rows ≤ 1
  pub one_hash : (h : String) → count_if (λ r. str_eq r.url_hash h) t.rows ≤ 1

-- The change of a row keeps its keys.
pub record KeepsKeys (change : CrawlUrl → CrawlUrl) : Type 0 where
  pub same_id : (r : CrawlUrl) → (change r).id ≡ r.id
  pub same_url_hash : (r : CrawlUrl) → (change r).url_hash ≡ r.url_hash

count_if-update_where :
    (p test : CrawlUrl → Bool) (change : CrawlUrl → CrawlUrl) (rows : List CrawlUrl)
    → ((r : CrawlUrl) → p (change r) ≡ p r)
    → count_if p (update_where test change rows) ≡ count_if p rows
unfolding update_where count_if
count_if-update_where p test change [] same = refl
count_if-update_where p test change (r ∷ rows) same =
    ground (arith, same r, count_if-update_where p test change rows same)

pub update_table-IsKeyed :
    (test : CrawlUrl → Bool) (change : CrawlUrl → CrawlUrl) (t : Table)
    → KeepsKeys change
    → IsKeyed t
    → IsKeyed (update_table test change t)
unfolding update_table
update_table-IsKeyed test change t keeps k = record {
  fresh =
      All-update_where (λ r. r.id < t.next_id) test change t.rows (λ r _ h. rw keeps.same_id h)
        k.fresh;
  one_id = λ i.
      rw
        (count_if-update_where (λ r. r.id == i) test change t.rows (λ r. rw (keeps.same_id r) refl))
        (k.one_id i);
  one_hash = λ h.
      rw
        (count_if-update_where (λ r. str_eq r.url_hash h) test change t.rows
          (λ r. rw (keeps.same_url_hash r) refl))
        (k.one_hash h);
}

none_fresh :
    (n : ℕ) (rows : List CrawlUrl) → All (λ r. r.id < n) rows → count_if (λ r. r.id == n) rows ≡ 0
unfolding count_if
none_fresh n [] h = refl
none_fresh n (r ∷ rows) h = ground (arith, none_fresh n rows)

fresh_up : (n : ℕ) (rows : List CrawlUrl) → All (λ r. r.id < n) rows → All (λ r. r.id < n + 1) rows
fresh_up n [] h = tt
fresh_up n (r ∷ rows) h = (omega arith, fresh_up n rows h.1)

insert_row-IsKeyed :
    (now : ℕ) (c : Candidate) (t : Table)
    → any (same_hash c) t.rows ≡ false
    → IsKeyed t
    → IsKeyed (insert_row now c t).0
unfolding insert_row count_if
insert_row-IsKeyed now c t new k = record {
  fresh =
      All-append (λ r. r.id < t.next_id + 1) t.rows _ (fresh_up t.next_id t.rows k.fresh)
        (omega arith, tt);
  one_id = λ i. ground (
    arith,
    count_if-append (λ r. r.id == i) t.rows (inserted now t.next_id c ∷ []),
    k.one_id i,
    none_fresh t.next_id t.rows k.fresh,
  );
  one_hash = λ h. ground (
    arith,
    count_if-append (λ r. str_eq r.url_hash h) t.rows (inserted now t.next_id c ∷ []),
    k.one_hash h,
    count_if-any (same_hash c) t.rows new,
    eq_iff c.url_hash h,
  );
}

module _ (change : Candidate → CrawlUrl → CrawlUrl)
    (keeps : (c : Candidate) → KeepsKeys (change c)) where
  upsert-IsKeyed :
      (test : CrawlUrl → Bool) (now : ℕ) (c : Candidate) (t : Table)
      → IsKeyed t
      → IsKeyed (upsert change test now c t).0
  unfolding upsert
  upsert-IsKeyed test now c t k = elim (Bool-cases (any (same_hash c) t.rows)) [
    | inl old ↦ rw old (update_table-IsKeyed (is_hit test c) (change c) t (keeps c) k)
    | inr new ↦ rw new (insert_row-IsKeyed now c t new k)
  ]

  -- A batch of upserts keeps identities and hashes unique.
  pub upsert_all-IsKeyed :
      (test : CrawlUrl → Bool) (now : ℕ) (cs : List Candidate) (t : Table)
      → IsKeyed t
      → IsKeyed (upsert_all change test now cs t).0
  unfolding upsert_all
  upsert_all-IsKeyed test now [] t k = k
  upsert_all-IsKeyed test now (c ∷ cs) t k =
      upsert_all-IsKeyed test now cs (upsert change test now c t).0 (upsert-IsKeyed test now c t k)
