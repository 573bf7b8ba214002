-- ===== src/Articles/Again.antt =====
-- A queue may deliver a message twice: the second processing changes nothing.
use news_crawl_intelligence.Prelude.{
  ℕ, ◌+◌, ◌≡◌, refl, ◌==◌, Bool, true, false, String, List, [], ◌∷◌, ◌++◌, Option, none, some,
  Bool-cases, Option-cases, inl, inr, arith, str_eq, if◌then◌else◌, eq_refl,
}
use mathlib.Core.Path.{subst}
use news_crawl_intelligence.Prelude.Int.{ℤ}
use news_crawl_intelligence.Articles.Rows.{Article, CleanedArticle, ExtractionMethod}
use news_crawl_intelligence.Articles.Dedup.{DedupResult, find_duplicate}
use news_crawl_intelligence.Articles.Persist.{
  Action, Store, Origin, PersistResult, refreshed, set_article, update_existing, create,
  new_article, persist_new, persist_as, create_as, persist, find_canonical, article_simhash,
  extraction_method_of, duplicate_result,
}

abbrev pub again_action : Action → Action
again_action Action.duplicate = Action.duplicate
again_action _ = Action.unchanged

-- The result of the second processing.
unfoldable pub again : PersistResult → PersistResult
again r = record r { action = again_action r.action }

find_canonical-append :
    (url : String) (articles : List Article) (a : Article)
    → find_canonical url articles ≡ none
    → a.canonical_url ≡ url
    → find_canonical url (articles ++ a ∷ []) ≡ some a
unfolding find_canonical
find_canonical-append url [] a n e =
    let same : str_eq a.canonical_url url ≡ true =
      subst (λ u. str_eq a.canonical_url u ≡ true) e (eq_refl a.canonical_url) in
    rw (same) refl
find_canonical-append url (r ∷ articles) a n e = elim (Bool-cases (str_eq r.canonical_url url)) [
  | inl b ↦ ground arith
  | inr b ↦ rw (b) (find_canonical-append url articles a (ground arith) e)
]

kept_url :
    (b : Bool) (h : ℤ) (c : CleanedArticle) (r : Article)
    → (if b then refreshed h c r else r).canonical_url ≡ r.canonical_url
unfolding refreshed
kept_url true h c r = refl
kept_url false h c r = refl

same_key : (n : ℕ) → n == n ≡ true
same_key n = ground arith

head_set :
    (url : String) (h : ℤ) (c : CleanedArticle) (r : Article) (articles : List Article)
    → str_eq r.canonical_url url ≡ true
    → find_canonical url (set_article r.id (refreshed h c) (r ∷ articles)) ≡ some (refreshed h c r)
unfolding find_canonical set_article refreshed
head_set url h c r articles e = rw (same_key r.id, e) refl

find_canonical-set :
    (url : String) (h : ℤ) (c : CleanedArticle) (articles : List Article) (a : Article)
    → find_canonical url articles ≡ some a
    → find_canonical url (set_article a.id (refreshed h c) articles) ≡ some (refreshed h c a)
unfolding find_canonical set_article
find_canonical-set url h c [] a e = ground arith
find_canonical-set url h c (r ∷ articles) a e = elim (Bool-cases (str_eq r.canonical_url url)) [
  | inl b ↦
      let same : r ≡ a = ground arith in
      subst
        (λ x.
          find_canonical url (set_article x.id (refreshed h c) (r ∷ articles))
          ≡ some (refreshed h c x))
        same (head_set url h c r articles b)
  | inr b ↦
      rw (kept_url (r.id == a.id) h c r, b) (find_canonical-set url h c articles a (ground arith))
]

-- The second processing finds an article with this content.
found_again :
    (d : DedupResult) (today : ℕ) (h : ℤ) (c : CleanedArticle) (o : Origin) (s : Store)
    (b : Article) (r : PersistResult)
    → find_canonical o.canonical_url s.articles ≡ some b
    → b.content_hash ≡ c.content_hash
    → again r ≡ record {
      action = Action.unchanged;
      article_id = some b.id;
      duplicate_of = none;
      dedup_stage = none;
      version = some b.current_version;
    }
    → persist_as (find_canonical o.canonical_url s.articles) d today h c o s ≡ some (s, again r)
unfolding persist_as update_existing
found_again d today h c o s b r f e k =
    let same : str_eq b.content_hash c.content_hash ≡ true =
      subst (λ t. str_eq b.content_hash t ≡ true) e (eq_refl b.content_hash) in
    rw (f, same, k) refl

abbrev updated_result : Article → PersistResult
updated_result a = record {
  action = Action.updated;
  article_id = some a.id;
  duplicate_of = none;
  dedup_stage = none;
  version = some (a.current_version + 1);
}

updated_again :
    (a : Article) (d : DedupResult) (today : ℕ) (h : ℤ) (c : CleanedArticle) (o : Origin)
    (s : Store)
    → find_canonical o.canonical_url s.articles ≡ some a
    → persist_as
        (find_canonical o.canonical_url (update_existing h a c s).0.articles)
        d
        today
        h
        c
        o
        (update_existing h a c s).0
      ≡ some ((update_existing h a c s).0, again (update_existing h a c s).1)
unfolding update_existing again persist_as
updated_again a d today h c o s f = elim (Bool-cases (str_eq a.content_hash c.content_hash)) [
  | inl e ↦ rw (e) (rw (f, e) refl)
  | inr e ↦ rw (e) (
      found_again d today h c o _ (refreshed h c a) (updated_result a)
        (find_canonical-set o.canonical_url h c s.articles a f) refl refl)
]

-- What is to be shown of a first processing that came to `x`; `lookup` finds the duplicates.
abbrev IsRepeated :
    (Store → DedupResult) → ℕ → ℤ → CleanedArticle → Origin → Store × PersistResult → Type 0
IsRepeated lookup today h c o x =
    persist_as (find_canonical o.canonical_url x.0.articles) (lookup x.0) today h c o x.0
    ≡ some (x.0, again x.1)

module _ (lookup : Store → DedupResult) (today : ℕ) (h : ℤ) (c : CleanedArticle) (o : Origin) where
  created_again :
      (m : ExtractionMethod) (s : Store)
      → find_canonical o.canonical_url s.articles ≡ none
      → IsRepeated lookup today h c o (create today (new_article h c o m s.next_id) s)
  unfolding create new_article again
  created_again m s n =
      found_again (lookup (create today (new_article h c o m s.next_id) s).0) today h c o _
        (new_article h c o m s.next_id) (create today (new_article h c o m s.next_id) s).1
        (find_canonical-append o.canonical_url s.articles (new_article h c o m s.next_id) n refl)
        refl refl

  create_as_again :
      (m : Option ExtractionMethod) (s : Store) (x : Store × PersistResult)
      → find_canonical o.canonical_url s.articles ≡ none
      → create_as m today h c o s ≡ some x
      → IsRepeated lookup today h c o x
  unfolding create_as
  create_as_again none s x n e = ground arith
  create_as_again (some m) s x n e =
      let same : create today (new_article h c o m s.next_id) s ≡ x = ground arith in
      subst (IsRepeated lookup today h c o) same (created_again m s n)

  duplicate_again :
      (s : Store)
      → find_canonical o.canonical_url s.articles ≡ none
      → (lookup s).is_duplicate ≡ true
      → IsRepeated lookup today h c o (s, duplicate_result (lookup s))
  unfolding persist_as persist_new again
  duplicate_again s n b = rw (n, b) refl

  persist_as_twice :
      (s : Store) (x : Store × PersistResult)
      → persist_as (find_canonical o.canonical_url s.articles) (lookup s) today h c o s ≡ some x
      → IsRepeated lookup today h c o x
  unfolding persist_as persist_new
  persist_as_twice s x e = elim (Option-cases (find_canonical o.canonical_url s.articles)) [
    | inr (a, f) ↦
        let first : persist_as (some a) (lookup s) today h c o s ≡ some x =
          subst (λ g. persist_as g (lookup s) today h c o s ≡ some x) f e in
        let same : update_existing h a c s ≡ x = ground arith in
        subst (IsRepeated lookup today h c o) same
          (updated_again a (lookup (update_existing h a c s).0) today h c o s f)
    | inl n ↦
        let first : persist_new (lookup s) today h c o s ≡ some x =
          subst (λ g. persist_as g (lookup s) today h c o s ≡ some x) n e in
        elim (Bool-cases (lookup s).is_duplicate) [
          | inl b ↦
              let same : (s, duplicate_result (lookup s)) ≡ x = ground arith in
              subst (IsRepeated lookup today h c o) same (duplicate_again s n b)
          | inr b ↦ create_as_again (extraction_method_of c.extraction_method) s x n (ground arith)
        ]
  ]

-- A message that was processed, and is processed again, leaves all tables as they are: a
-- duplicate is one again, and any other article is reported unchanged, with its key and its
-- version.
pub persist_twice :
    (words : String → List String) (feature_hash : List String → ℕ)
    (select : List Article → List Article) (hamming_threshold today : ℕ) (c : CleanedArticle)
    (o : Origin) (s s' : Store) (r : PersistResult)
    → persist words feature_hash select hamming_threshold today c o s ≡ some (s', r)
    → persist words feature_hash select hamming_threshold today c o s' ≡ some (s', again r)
unfolding persist
persist_twice words feature_hash select hamming_threshold today c o s s' r e =
    persist_as_twice
      (λ t.
        find_duplicate select hamming_threshold c.content_hash
          (article_simhash words feature_hash c.title c.body) none t.articles)
      today (article_simhash words feature_hash c.title c.body) c o s (s', r) e
