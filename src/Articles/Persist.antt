-- ===== src/Articles/Persist.antt =====
-- `ArticleService` (apps/processor/newscrawl_processor/articles.py): an article that comes in is created,
-- updated with a new version, unchanged, or a duplicate. A commit that a unique constraint refuses
-- changes nothing, and is not a step of the model.
use Prim.Native.String.{◌++◌ as str_append}
use news_crawl_intelligence.Prelude.{
  ℕ, ◌+◌, ◌&&◌, ◌||◌, not, ◌==◌, Bool, true, false, String, List, [], ◌∷◌, ◌++◌, Option, none, some,
  map, str_eq, if◌then◌else◌,
}
use news_crawl_intelligence.Prelude.Int.{ℤ}
use news_crawl_intelligence.Simhash.{simhash64, to_signed64}
use news_crawl_intelligence.Articles.Rows.{
  Article, ArticleVersion, CleanedArticle, ExtractionMethod,
}
use news_crawl_intelligence.Articles.Dedup.{DedupStage, DedupResult, find_duplicate}

pub data Action : Type 0 where
  created updated unchanged duplicate : Action

pub record PersistResult : Type 0 where
  pub action : Action
  pub article_id : Option ℕ
  pub duplicate_of : Option ℕ
  pub dedup_stage : Option DedupStage
  pub version : Option ℕ

-- The tables, the next key, and the counter of each day's new articles.
pub record Store : Type 0 where
  pub articles : List Article
  pub versions : List ArticleVersion
  pub next_id : ℕ
  pub articles_created : ℕ → ℕ

-- What comes with an article.
pub record Origin : Type 0 where
  pub source_id : ℕ
  pub canonical_url : String
  pub url_id : Option ℕ
  pub raw_html_location : Option String
  pub country : Option String

-- The change flags of a version.
pub record Changes : Type 0 where
  pub title_changed : Bool
  pub body_changed : Bool
  pub author_changed : Bool
  pub published_at_changed : Bool
  pub category_changed : Bool
  pub metadata_changed : Bool

abbrev pub no_changes : Changes
no_changes = record {
  title_changed = false;
  body_changed = false;
  author_changed = false;
  published_at_changed = false;
  category_changed = false;
  metadata_changed = false;
}

abbrev same_text : Option String → Option String → Bool
same_text none none = true
same_text (some s) (some t) = str_eq s t
same_text _ _ = false

abbrev same_time : Option ℕ → Option ℕ → Bool
same_time none none = true
same_time (some s) (some t) = s == t
same_time _ _ = false

abbrev same_texts : List String → List String → Bool
same_texts [] [] = true
same_texts (s ∷ ss) (t ∷ ts) = str_eq s t && same_texts ss ts
same_texts _ _ = false

unfoldable pub changes_of : Article → CleanedArticle → Changes
changes_of a c = record {
  title_changed = not (str_eq a.title c.title);
  body_changed = not (str_eq a.body c.body);
  author_changed = not (same_text a.author c.author);
  published_at_changed = not (same_time a.published_at c.published_at);
  category_changed = not (same_text a.category c.category);
  metadata_changed =
      not (same_text a.subtitle c.subtitle)
      || not (same_text a.summary c.summary)
      || not (same_texts a.tags c.tags)
      || not (same_texts a.image_urls c.image_urls);
}

unfoldable pub version_snapshot : Article → ℕ → Changes → ArticleVersion
version_snapshot a version changes = record {
  article_id = a.id;
  version = version;
  content_hash = a.content_hash;
  title = a.title;
  subtitle = a.subtitle;
  author = a.author;
  category = a.category;
  published_at = a.published_at;
  body = a.body;
  title_changed = changes.title_changed;
  body_changed = changes.body_changed;
  author_changed = changes.author_changed;
  published_at_changed = changes.published_at_changed;
  category_changed = changes.category_changed;
  metadata_changed = changes.metadata_changed;
}

unfoldable pub refreshed : ℤ → CleanedArticle → Article → Article
refreshed simhash c a = record a {
  title = c.title;
  subtitle = c.subtitle;
  author = c.author;
  category = c.category;
  published_at = c.published_at;
  updated_at_source = c.updated_at;
  body = c.body;
  summary = c.summary;
  image_urls = c.image_urls;
  tags = c.tags;
  content_hash = c.content_hash;
  simhash = some simhash;
  word_count = c.word_count;
  current_version = a.current_version + 1;
}

-- The row with the key is changed in place.
unfoldable pub set_article : ℕ → (Article → Article) → List Article → List Article
set_article id change articles = map (λ a. if a.id == id then change a else a) articles

unfoldable pub update_existing : ℤ → Article → CleanedArticle → Store → Store × PersistResult
unfolding changes_of version_snapshot refreshed set_article
update_existing simhash a c s =
    if str_eq a.content_hash c.content_hash
    then (
      s,
      record {
        action = Action.unchanged;
        article_id = some a.id;
        duplicate_of = none;
        dedup_stage = none;
        version = some a.current_version;
      },
    )
    else (
      record s {
        articles = set_article a.id (refreshed simhash c) s.articles;
        versions =
            s.versions
            ++ version_snapshot (refreshed simhash c a) (a.current_version + 1) (changes_of a c)
              ∷ [];
      },
      record {
        action = Action.updated;
        article_id = some a.id;
        duplicate_of = none;
        dedup_stage = none;
        version = some (a.current_version + 1);
      },
    )

-- `ExtractionMethod(value)`; `none` is its ValueError.
unfoldable pub extraction_method_of : String → Option ExtractionMethod
extraction_method_of value =
    if str_eq value "selectors"
    then some ExtractionMethod.selectors
    else if str_eq value "json_ld"
    then some ExtractionMethod.json_ld
    else if str_eq value "opengraph"
    then some ExtractionMethod.opengraph
    else if str_eq value "readability"
    then some ExtractionMethod.readability
    else if str_eq value "llm"
    then some ExtractionMethod.llm
    else none

unfoldable pub new_article : ℤ → CleanedArticle → Origin → ExtractionMethod → ℕ → Article
new_article simhash c o method id = record {
  id = id;
  source_id = o.source_id;
  url_id = o.url_id;
  canonical_url = o.canonical_url;
  title = c.title;
  subtitle = c.subtitle;
  author = c.author;
  category = c.category;
  language = c.language;
  country = o.country;
  published_at = c.published_at;
  updated_at_source = c.updated_at;
  body = c.body;
  summary = c.summary;
  image_urls = c.image_urls;
  tags = c.tags;
  raw_html_location = o.raw_html_location;
  content_hash = c.content_hash;
  simhash = some simhash;
  word_count = c.word_count;
  extraction_method = method;
  extraction_confidence = c.extraction_confidence;
  current_version = 1;
}

abbrev count_day : ℕ → (ℕ → ℕ) → ℕ → ℕ
count_day today counts day = if day == today then counts day + 1 else counts day

unfoldable pub create : ℕ → Article → Store → Store × PersistResult
unfolding version_snapshot
create today a s = (
  record {
    articles = s.articles ++ a ∷ [];
    versions = s.versions ++ version_snapshot a 1 no_changes ∷ [];
    next_id = s.next_id + 1;
    articles_created = count_day today s.articles_created;
  },
  record {
    action = Action.created;
    article_id = some a.id;
    duplicate_of = none;
    dedup_stage = none;
    version = some 1;
  },
)

-- The article with the canonical URL, which is unique.
unfoldable pub find_canonical : String → List Article → Option Article
find_canonical url [] = none
find_canonical url (a ∷ articles) =
    let rest = find_canonical url articles in if str_eq a.canonical_url url then some a else rest

-- `words` splits a text (`normalize_text(text).lower().split()`), and `feature_hash` hashes a shingle.
module _ (words : String → List String) (feature_hash : List String → ℕ) where
  unfoldable pub article_simhash : String → String → ℤ
  unfolding simhash64 to_signed64
  article_simhash title body =
      to_signed64 (simhash64 feature_hash 2 (words (str_append title (str_append "\n" body))))

unfoldable pub create_as :
    Option ExtractionMethod
    → ℕ
    → ℤ
    → CleanedArticle
    → Origin
    → Store
    → Option (Store × PersistResult)
unfolding new_article create
create_as none today simhash c o s = none
create_as (some method) today simhash c o s =
    some (create today (new_article simhash c o method s.next_id) s)

abbrev pub duplicate_result : DedupResult → PersistResult
duplicate_result dedup = record {
  action = Action.duplicate;
  article_id = none;
  duplicate_of = dedup.duplicate_of;
  dedup_stage = dedup.stage;
  version = none;
}

unfoldable pub persist_new :
    DedupResult → ℕ → ℤ → CleanedArticle → Origin → Store → Option (Store × PersistResult)
unfolding extraction_method_of create_as
persist_new dedup today simhash c o s =
    if dedup.is_duplicate
    then some (s, duplicate_result dedup)
    else create_as (extraction_method_of c.extraction_method) today simhash c o s

unfoldable pub persist_as :
    Option Article
    → DedupResult
    → ℕ
    → ℤ
    → CleanedArticle
    → Origin
    → Store
    → Option (Store × PersistResult)
unfolding update_existing persist_new
persist_as none dedup today simhash c o s = persist_new dedup today simhash c o s
persist_as (some a) dedup today simhash c o s = some (update_existing simhash a c s)

-- `select` is the order of the database's answers. The lookup of duplicates is used only where the
-- canonical URL is new.
module _ (words : String → List String) (feature_hash : List String → ℕ)
    (select : List Article → List Article) where
  -- `none` is the ValueError of the extraction method, which leaves the tables as they were.
  unfoldable pub persist : ℕ → ℕ → CleanedArticle → Origin → Store → Option (Store × PersistResult)
  unfolding find_canonical article_simhash find_duplicate persist_as
  persist hamming_threshold today c o s =
      let simhash : ℤ = article_simhash words feature_hash c.title c.body in
      persist_as (find_canonical o.canonical_url s.articles)
        (find_duplicate select hamming_threshold c.content_hash simhash none s.articles) today
        simhash c o s
