-- ===== src/Retention/Referred.antt =====
-- The references between the tables that a purge touches stay whole.
use news_crawl_intelligence.Prelude.{
  ℕ, ◌≡◌, refl, ◌==◌, ==_iff, not, Bool, true, false, List, [], ◌∷◌, Option, none, some, map, any,
  String, length, filter, All, All-filter, arith, if_cases, zero, suc, Bool-cases, inl, inr,
}
use mathlib.Core.Path.{subst, sym}
use news_crawl_intelligence.Articles.Stored.{StoredArticle}
use news_crawl_intelligence.Retention.{
  RefTable, Live, Tally, has, id_of, unlinked, kept_duplicate, dependents, delete_dependents,
  delete_batch, batch_of, tally_batch, purge, purge_expired_articles, nothing_deleted,
}

abbrev pub has_article : ℕ → List StoredArticle → Bool
has_article id articles = any (λ a. id_of a == id) articles

-- A reference to an article that is there.
abbrev pub IsLinked : List StoredArticle → Option ℕ → Type 0
IsLinked articles none = Unit
IsLinked articles (some id) = has_article id articles ≡ true

-- The foreign keys hold: the references of all tables, and those of an article to the one that it
-- duplicates.
pub record IsWhole (live : Live) : Type 0 where
  pub rows : (t : RefTable) → All (λ id. has_article id live.articles ≡ true) (live.references t)
  pub duplicates : All (λ a. IsLinked live.articles a.duplicate_of) live.articles

All-kept :
    {A : Type 0} (P Q : A → Type 0) (p : A → Bool) (xs : List A)
    → ((x : A) → p x ≡ true → P x → Q x)
    → All P xs
    → All Q (filter p xs)
unfolding filter
All-kept P Q p [] f h = tt
All-kept P Q p (x ∷ xs) f h =
    let rest = All-kept P Q p xs f h.1 in
    if_cases (All Q) (p x) (λ e. (f x e h.0, rest)) (λ e. rest)

All-mapped :
    {A : Type 0} (P Q : A → Type 0) (f : A → A) (xs : List A)
    → ((x : A) → P x → Q (f x))
    → All P xs
    → All Q (map f xs)
All-mapped P Q f [] g h = tt
All-mapped P Q f (x ∷ xs) g h = (g x h.0, All-mapped P Q f xs g h.1)

abbrev kept : List ℕ → List StoredArticle → List StoredArticle
kept ids articles = filter (λ a. not (has (id_of a) ids)) (map (unlinked ids) articles)

-- An article that is not deleted is still there.
has_article-kept :
    (ids : List ℕ) (id : ℕ) (articles : List StoredArticle)
    → has id ids ≡ false
    → has_article id articles ≡ true
    → has_article id (kept ids articles) ≡ true
unfolding filter unlinked any
has_article-kept ids id [] stays h = h
has_article-kept ids id (a ∷ articles) stays h =
    let rest = has_article-kept ids id articles stays in
    let there = λ (l : List StoredArticle). has_article id l ≡ true in
    elim (Bool-cases (id_of a == id)) [
      | inl same ↦
          let alive : has (id_of a) ids ≡ false =
            subst (λ i. has i ids ≡ false) (sym ((==_iff (id_of a) id).0 same)) stays in
          if_cases there (not (has (id_of a) ids)) (λ _. ground (arith, same))
            (λ gone. absurd (ground (arith, alive, gone)))
      | inr other ↦
          let below : has_article id articles ≡ true = ground (arith, h, other) in
          if_cases there (not (has (id_of a) ids)) (λ _. ground (arith, other, rest below))
            (λ _. rest below)
    ]

delete_dependents-filter :
    (ids : List ℕ) (references : RefTable → List ℕ) (t : RefTable)
    → delete_dependents ids dependents references t ≡ filter (λ id. not (has id ids)) (references t)
unfolding delete_dependents
delete_dependents-filter ids references RefTable.article_embedding = refl
delete_dependents-filter ids references RefTable.article_entity = refl
delete_dependents-filter ids references RefTable.article_topic = refl
delete_dependents-filter ids references RefTable.article_version = refl
delete_dependents-filter ids references RefTable.llm_extraction = refl
delete_dependents-filter ids references RefTable.processing_job = refl

kept_duplicate-IsLinked :
    (ids : List ℕ) (articles : List StoredArticle) (d : Option ℕ)
    → IsLinked articles d
    → IsLinked (kept ids articles) (kept_duplicate ids d)
kept_duplicate-IsLinked ids articles none h = tt
kept_duplicate-IsLinked ids articles (some id) h =
    if_cases (IsLinked (kept ids articles)) (has id ids) (λ gone. tt)
      (λ stays. has_article-kept ids id articles stays h)

delete_batch-IsWhole : (ids : List ℕ) (live : Live) → IsWhole live → IsWhole (delete_batch ids live)
unfolding delete_batch unlinked
delete_batch-IsWhole ids live whole = record {
  rows = λ t.
      subst (All (λ id. has_article id (kept ids live.articles) ≡ true))
        (sym (delete_dependents-filter ids live.references t))
        (All-kept (λ id. has_article id live.articles ≡ true) _ (λ id. not (has id ids))
          (live.references t)
          (λ id stays h. has_article-kept ids id live.articles (ground (arith, stays)) h)
          (whole.rows t));
  duplicates =
      All-filter (λ a. IsLinked (kept ids live.articles) a.duplicate_of) _ _
        (All-mapped _ (λ a. IsLinked (kept ids live.articles) a.duplicate_of) (unlinked ids)
          live.articles (λ a h. kept_duplicate-IsLinked ids live.articles a.duplicate_of h)
          whole.duplicates);
}

module _ (order_by : List StoredArticle → List StoredArticle)
    (delete_raw_html : List String → ℕ) where
  purge-IsWhole :
      (cutoff batch_size max_batches : ℕ) (live : Live) (t : Tally)
      → IsWhole live
      → IsWhole (purge order_by delete_raw_html cutoff batch_size max_batches live t).0
  unfolding purge
  purge-IsWhole cutoff batch_size zero live t whole = whole
  purge-IsWhole cutoff batch_size (suc max_batches) live t whole =
      let rows = batch_of order_by delete_raw_html cutoff batch_size live.articles in
      if_cases (λ (r : Live × Tally). IsWhole r.0) (length rows == 0) (λ none_left. whole)
        (λ _.
          purge-IsWhole cutoff batch_size max_batches (delete_batch (map id_of rows) live)
            (tally_batch order_by delete_raw_html rows t)
            (delete_batch-IsWhole (map id_of rows) live whole))

  -- A purge breaks no foreign key, in whatever batches it goes: if the references of the tables
  -- are whole before it, then after it no row refers to an article that is gone, and no article
  -- is the duplicate of one.
  pub purge_expired_articles-IsWhole :
      (now retention_hours batch_size max_batches : ℕ) (live : Live)
      → IsWhole live
      → IsWhole
          (purge_expired_articles order_by delete_raw_html now retention_hours batch_size
            max_batches live).0
  unfolding purge_expired_articles
  purge_expired_articles-IsWhole now retention_hours batch_size max_batches live whole =
      purge-IsWhole _ batch_size max_batches live nothing_deleted whole
