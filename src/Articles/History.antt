-- ===== src/Articles/History.antt =====
-- The history through `persist`, and a message that is processed twice.
use news_crawl_intelligence.Prelude.{
  ℕ, ◌+◌, ◌<◌, ◌≡◌, refl, sym, ap, ◌∙◌, ◌==◌, String, List, [], ◌∷◌, ◌++◌, Option, none, some, All,
  All-append, Bool-cases, inl, inr, arith, str_eq, if◌then◌else◌,
}
use mathlib.Core.Path.{subst}
use news_crawl_intelligence.Prelude.Int.{ℤ}
use news_crawl_intelligence.Prelude.Sorting.{All-weaken}
use news_crawl_intelligence.Articles.Rows.{
  Article, ArticleVersion, CleanedArticle, ExtractionMethod,
}
use news_crawl_intelligence.Articles.Persist.{
  Store, Origin, PersistResult, version_snapshot, refreshed, set_article, update_existing, create,
  new_article, persist_new, persist_as, create_as, persist, extraction_method_of, find_canonical,
  no_changes,
}
use news_crawl_intelligence.Articles.Dedup.{DedupResult}
use news_crawl_intelligence.Articles.Versions.{
  IsVersioned, HasHistory, history, history-other, history-fresh, history-append,
  refreshed_histories, up_to,
}

find_canonical_All :
    (P : Article → Type 0) (url : String) (articles : List Article) (a : Article)
    → find_canonical url articles ≡ some a
    → All P articles
    → P a
unfolding find_canonical
find_canonical_All P url [] a e h = ground arith
find_canonical_All P url (r ∷ articles) a e (hr, h) =
    elim (Bool-cases (str_eq r.canonical_url url)) [
      | inl b ↦ let same : r ≡ a = ground arith in subst P same hr
      | inr b ↦ find_canonical_All P url articles a (ground arith) h
    ]

set_article-below :
    (n id : ℕ) (simhash : ℤ) (c : CleanedArticle) (articles : List Article)
    → All (λ (a : Article). a.id < n) articles
    → All (λ (a : Article). a.id < n) (set_article id (refreshed simhash c) articles)
unfolding set_article refreshed
set_article-below n id simhash c [] h = tt
set_article-below n id simhash c (a ∷ articles) (ha, h) = elim (Bool-cases (a.id == id)) [
  | inl e ↦ rw (e) (ha, set_article-below n id simhash c articles h)
  | inr e ↦ rw (e) (ha, set_article-below n id simhash c articles h)
]

update_existing-IsVersioned :
    (simhash : ℤ) (a : Article) (c : CleanedArticle) (s : Store)
    → a.id < s.next_id
    → HasHistory s.versions a
    → IsVersioned s
    → IsVersioned (update_existing simhash a c s).0
unfolding update_existing version_snapshot
update_existing-IsVersioned simhash a c s l h v =
    elim (Bool-cases (str_eq a.content_hash c.content_hash)) [
      | inl e ↦ rw (e) v
      | inr e ↦ rw (e) (record {
        articles_below = set_article-below s.next_id a.id simhash c s.articles v.articles_below;
        versions_below =
            All-append (λ (w : ArticleVersion). w.article_id < s.next_id) s.versions _
              v.versions_below (l, tt);
        histories = refreshed_histories simhash a c _ s.versions s.articles refl refl h v.histories;
      })
    ]

old_histories :
    (v : ArticleVersion) (versions : List ArticleVersion) (articles : List Article)
    → All (λ (a : Article). a.id < v.article_id) articles
    → All (HasHistory versions) articles
    → All (HasHistory (versions ++ v ∷ [])) articles
old_histories v versions [] b h = tt
old_histories v versions (a ∷ articles) (l, b) (k, h) = (
  history-other a.id a.current_version versions v (ground arith) k,
  old_histories v versions articles b h,
)

first_history :
    (id : ℕ) (v : ArticleVersion) (versions : List ArticleVersion)
    → v.article_id ≡ id
    → v.version ≡ 1
    → All (λ (w : ArticleVersion). w.article_id < id) versions
    → history id (versions ++ v ∷ []) ≡ up_to 1
unfolding up_to
first_history id v versions e one b =
    history-append id versions v
    ∙ ap (λ xs. xs ++ (if v.article_id == id then v.version ∷ [] else []))
        (history-fresh id versions b)
    ∙ ground arith

create-IsVersioned :
    (today : ℕ) (a : Article) (s : Store)
    → a.id ≡ s.next_id
    → a.current_version ≡ 1
    → IsVersioned s
    → IsVersioned (create today a s).0
unfolding create version_snapshot
create-IsVersioned today a s e one v = record {
  articles_below =
      All-append (λ (b : Article). b.id < s.next_id + 1) s.articles (a ∷ [])
        (All-weaken (λ (b : Article). b.id < s.next_id) (λ (b : Article). b.id < s.next_id + 1)
          s.articles (λ b l. omega arith) v.articles_below)
        (omega arith, tt);
  versions_below =
      All-append (λ (b : ArticleVersion). b.article_id < s.next_id + 1) s.versions _
        (All-weaken (λ (b : ArticleVersion). b.article_id < s.next_id)
          (λ (b : ArticleVersion). b.article_id < s.next_id + 1) s.versions (λ b l. omega arith)
          v.versions_below)
        (omega arith, tt);
  histories =
      All-append (HasHistory (s.versions ++ version_snapshot a 1 no_changes ∷ [])) s.articles
        (a ∷ [])
        (old_histories (version_snapshot a 1 no_changes) s.versions s.articles
          (subst (λ n. All (λ (b : Article). b.id < n) s.articles) (sym e) v.articles_below)
          v.histories)
        (
          first_history a.id (version_snapshot a 1 no_changes) s.versions refl refl (
                subst (λ n. All (λ (b : ArticleVersion). b.article_id < n) s.versions) (sym e)
                  v.versions_below)
              ∙ sym (ap up_to one),
          tt,
        );
}

-- Messages one after the other, each with the day of its processing; one whose method is unknown leaves
-- the tables as they were.
pub record Message : Type 0 where
  pub today : ℕ
  pub cleaned : CleanedArticle
  pub origin : Origin

abbrev pub no_articles : Store
no_articles = record { articles = []; versions = []; next_id = 0; articles_created = λ day. 0 }

abbrev after : Store → Option (Store × PersistResult) → Store
after s none = s
after s (some (s', result)) = s'

after-all :
    (s : Store) (o : Option (Store × PersistResult))
    → IsVersioned s
    → ((s' : Store) (r : PersistResult) → o ≡ some (s', r) → IsVersioned s')
    → IsVersioned (after s o)
after-all s none v f = v
after-all s (some (s', r)) v f = f s' r refl

create_as-IsVersioned :
    (m : Option ExtractionMethod) (today : ℕ) (h : ℤ) (c : CleanedArticle) (o : Origin)
    (s s' : Store) (r : PersistResult)
    → create_as m today h c o s ≡ some (s', r)
    → IsVersioned s
    → IsVersioned s'
unfolding create_as new_article
create_as-IsVersioned none today h c o s s' r e v = ground arith
create_as-IsVersioned (some m) today h c o s s' r e v =
    let same : create today (new_article h c o m s.next_id) s ≡ (s', r) = ground arith in
    subst (λ (x : Store × PersistResult). IsVersioned x.0) same
      (create-IsVersioned today (new_article h c o m s.next_id) s refl refl v)

persist_new-IsVersioned :
    (d : DedupResult) (today : ℕ) (h : ℤ) (c : CleanedArticle) (o : Origin) (s s' : Store)
    (r : PersistResult)
    → persist_new d today h c o s ≡ some (s', r)
    → IsVersioned s
    → IsVersioned s'
unfolding persist_new
persist_new-IsVersioned d today h c o s s' r e v = elim (Bool-cases d.is_duplicate) [
  | inl b ↦ let same : s ≡ s' = ground arith in subst IsVersioned same v
  | inr b ↦
      create_as-IsVersioned (extraction_method_of c.extraction_method) today h c o s s' r
        (ground arith) v
]

persist_as-IsVersioned :
    (found : Option Article) (d : DedupResult) (today : ℕ) (h : ℤ) (c : CleanedArticle) (o : Origin)
    (s s' : Store) (r : PersistResult)
    → find_canonical o.canonical_url s.articles ≡ found
    → persist_as found d today h c o s ≡ some (s', r)
    → IsVersioned s
    → IsVersioned s'
unfolding persist_as
persist_as-IsVersioned none d today h c o s s' r f e v =
    persist_new-IsVersioned d today h c o s s' r e v
persist_as-IsVersioned (some a) d today h c o s s' r f e v =
    let same : update_existing h a c s ≡ (s', r) = ground arith in
    subst (λ (x : Store × PersistResult). IsVersioned x.0) same
      (update_existing-IsVersioned h a c s
        (find_canonical_All (λ (b : Article). b.id < s.next_id) o.canonical_url s.articles a f
          v.articles_below)
        (find_canonical_All (HasHistory s.versions) o.canonical_url s.articles a f v.histories) v)

module _ (words : String → List String) (feature_hash : List String → ℕ)
    (select : List Article → List Article) (hamming_threshold : ℕ) where
  persist-IsVersioned :
      (today : ℕ) (c : CleanedArticle) (o : Origin) (s s' : Store) (r : PersistResult)
      → persist words feature_hash select hamming_threshold today c o s ≡ some (s', r)
      → IsVersioned s
      → IsVersioned s'
  unfolding persist
  persist-IsVersioned today c o s s' r e v =
      persist_as-IsVersioned (find_canonical o.canonical_url s.articles) _ today _ c o s s' r refl e
        v

  unfoldable pub persist_all : List Message → Store → Store
  unfolding persist
  persist_all [] s = s
  persist_all (m ∷ messages) s =
      persist_all messages
        (after s (persist words feature_hash select hamming_threshold m.today m.cleaned m.origin s))

  persist_all_kept :
      (messages : List Message) (s : Store) → IsVersioned s → IsVersioned (persist_all messages s)
  unfolding persist_all
  persist_all_kept [] s v = v
  persist_all_kept (m ∷ messages) s v = persist_all_kept messages _ (
      after-all s (persist words feature_hash select hamming_threshold m.today m.cleaned m.origin s)
        v (λ s' r e. persist-IsVersioned m.today m.cleaned m.origin s s' r e v))

  -- After any sequence of messages on empty tables, every article has one snapshot for each
  -- version from 1 to its current one, in this order, and no key is used before it is given out.
  pub persist_all-IsVersioned :
      (messages : List Message) → IsVersioned (persist_all messages no_articles)
  persist_all-IsVersioned messages =
      persist_all_kept messages no_articles
        (record { articles_below = tt; versions_below = tt; histories = tt })
