-- ===== src/Articles/Versions.antt =====
-- The version history: every article has one snapshot for each of its versions, in order.
use news_crawl_intelligence.Prelude.{
  ℕ, zero, suc, ◌+◌, ◌<◌, ◌≡◌, refl, sym, ap, ◌∙◌, ◌==◌, true, false, List, [], ◌∷◌, ◌++◌, All,
  Bool-cases, inl, inr, arith, if◌then◌else◌,
}
use news_crawl_intelligence.Prelude.Int.{ℤ}
use news_crawl_intelligence.Articles.Rows.{Article, ArticleVersion, CleanedArticle}
use news_crawl_intelligence.Articles.Persist.{Store, refreshed, set_article}

-- The version numbers of an article's snapshots.
unfoldable pub history : ℕ → List ArticleVersion → List ℕ
history id [] = []
history id (v ∷ versions) =
    let rest = history id versions in if v.article_id == id then v.version ∷ rest else rest

-- 1, 2, … n
unfoldable pub up_to : ℕ → List ℕ
up_to zero = []
up_to (suc n) = up_to n ++ suc n ∷ []

abbrev pub HasHistory : List ArticleVersion → Article → Type 0
HasHistory versions a = history a.id versions ≡ up_to a.current_version

-- Keys are below the next one, and each article has its history.
pub record IsVersioned (s : Store) : Type 0 where
  pub articles_below : All (λ (a : Article). a.id < s.next_id) s.articles
  pub versions_below : All (λ (v : ArticleVersion). v.article_id < s.next_id) s.versions
  pub histories : All (HasHistory s.versions) s.articles

pub history-append :
    (id : ℕ) (versions : List ArticleVersion) (v : ArticleVersion)
    → history id (versions ++ v ∷ [])
      ≡ history id versions ++ (if v.article_id == id then v.version ∷ [] else [])
unfolding history
history-append id [] v = refl
history-append id (w ∷ versions) v = elim (Bool-cases (w.article_id == id)) [
  | inl e ↦ rw (e, history-append id versions v) refl
  | inr e ↦ rw (e, history-append id versions v) refl
]

pub history-fresh :
    (id : ℕ) (versions : List ArticleVersion)
    → All (λ (v : ArticleVersion). v.article_id < id) versions
    → history id versions ≡ []
unfolding history
history-fresh id [] h = refl
history-fresh id (v ∷ versions) (l, h) = ground (arith, history-fresh id versions h)

append-nil : (xs : List ℕ) → xs ++ [] ≡ xs
append-nil [] = refl
append-nil (x ∷ xs) = ap (λ r. x ∷ r) (append-nil xs)

up_to-suc : (n : ℕ) → up_to (suc n) ≡ up_to n ++ suc n ∷ []
unfolding up_to
up_to-suc n = refl

up_to-next : (n : ℕ) → up_to (n + 1) ≡ up_to n ++ (n + 1) ∷ []
up_to-next n = let e : n + 1 ≡ suc n = omega arith in rw (e) (up_to-suc n)

-- A version of another article changes no history; the next version of this one extends it.
pub history-other :
    (id n : ℕ) (versions : List ArticleVersion) (v : ArticleVersion)
    → v.article_id == id ≡ false
    → history id versions ≡ up_to n
    → history id (versions ++ v ∷ []) ≡ up_to n
history-other id n versions v e h =
    history-append id versions v
    ∙ ap (λ b. history id versions ++ (if b then v.version ∷ [] else [])) e
    ∙ append-nil (history id versions)
    ∙ h

history-next :
    (id n : ℕ) (versions : List ArticleVersion) (v : ArticleVersion)
    → v.article_id == id ≡ true
    → v.version ≡ n + 1
    → history id versions ≡ up_to n
    → history id (versions ++ v ∷ []) ≡ up_to (n + 1)
history-next id n versions v e k h =
    history-append id versions v
    ∙ ap (λ b. history id versions ++ (if b then v.version ∷ [] else [])) e
    ∙ ap (λ m. history id versions ++ m ∷ []) k
    ∙ ap (λ xs. xs ++ (n + 1) ∷ []) h
    ∙ sym (up_to-next n)

count : List ℕ → ℕ
count [] = 0
count (x ∷ xs) = count xs + 1

count-append : (xs : List ℕ) (x : ℕ) → count (xs ++ x ∷ []) ≡ count xs + 1
unfolding count
count-append [] x = refl
count-append (y ∷ xs) x = omega (arith, count-append xs x)

count-up_to : (n : ℕ) → count (up_to n) ≡ n
unfolding up_to count
count-up_to zero = refl
count-up_to (suc n) = omega (arith, count-append (up_to n) (suc n), count-up_to n)

up_to_injective : (m n : ℕ) → up_to m ≡ up_to n → m ≡ n
up_to_injective m n e = sym (count-up_to m) ∙ ap count e ∙ count-up_to n

pub refreshed_histories :
    (simhash : ℤ) (a : Article) (c : CleanedArticle) (v : ArticleVersion)
    (versions : List ArticleVersion) (articles : List Article)
    → v.article_id ≡ a.id
    → v.version ≡ a.current_version + 1
    → HasHistory versions a
    → All (HasHistory versions) articles
    → All (HasHistory (versions ++ v ∷ [])) (set_article a.id (refreshed simhash c) articles)
unfolding set_article refreshed
refreshed_histories simhash a c v versions [] i k h hs = tt
refreshed_histories simhash a c v versions (r ∷ articles) i k h (hr, hs) =
    elim (Bool-cases (r.id == a.id)) [
      | inl e ↦
          let same : r.id ≡ a.id = ground arith in
          let version : r.current_version ≡ a.current_version =
            up_to_injective r.current_version a.current_version
              (sym hr ∙ ap (λ id. history id versions) same ∙ h) in
          rw (e) (
            history-next r.id r.current_version versions v (ground arith) (omega arith) hr,
            refreshed_histories simhash a c v versions articles i k h hs,
          )
      | inr e ↦ rw (e) (
        history-other r.id r.current_version versions v (ground arith) hr,
        refreshed_histories simhash a c v versions articles i k h hs,
      )
    ]
