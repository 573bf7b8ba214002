-- ===== src/Embeddings.antt =====
-- The embeddings of articles and the last stage of the deduplication
-- (apps/processor/newscrawl_processor/embeddings.py). A vector is a parameter, with its encoder, and the
-- cosine of two vectors, in ten-thousandths: the code computes it in floating point.
pub mod Worker
pub mod Nearest
use Prim.Native.String.{◌++◌ as str_append}
use news_crawl_intelligence.Prelude.{
  ℕ, ◌+◌, ◌&&◌, not, ltb, leb, ◌==◌, Bool, true, false, String, List, [], ◌∷◌, ◌++◌, Option, none,
  some, map, filter, str_eq, if◌then◌else◌,
}
use news_crawl_intelligence.Prelude.Int.{ℤ}
use news_crawl_intelligence.Prelude.Text.{take_chars}
use news_crawl_intelligence.Articles.Rows.{Article}
use news_crawl_intelligence.Articles.Stored.{StoredArticle}
use news_crawl_intelligence.Articles.Dedup.{DedupResult, find_duplicate}

pub data EmbeddingKind : Type 0 where
  title summary body entity : EmbeddingKind

abbrev pub same_kind : EmbeddingKind → EmbeddingKind → Bool
same_kind EmbeddingKind.title EmbeddingKind.title = true
same_kind EmbeddingKind.summary EmbeddingKind.summary = true
same_kind EmbeddingKind.body EmbeddingKind.body = true
same_kind EmbeddingKind.entity EmbeddingKind.entity = true
same_kind _ _ = false

pub record ArticleEmbedding (V : Type 0) : Type 0 where
  pub article_id : ℕ
  pub embedding_kind : EmbeddingKind
  pub embedding_model : String
  pub embedding_version : ℕ
  pub embedding : V

pub record EmbeddingTables (V : Type 0) : Type 0 where
  pub articles : List StoredArticle
  pub embeddings : List (ArticleEmbedding V)

-- The backend with the version of the service.
pub record Backend (V : Type 0) : Type 0 where
  pub model_name : String
  pub version : ℕ
  pub encode : String → V
  pub cosine : V → V → ℕ

abbrev pub semantic_duplicate_threshold : ℕ
semantic_duplicate_threshold = 9200

abbrev text_or_empty : Option String → String
text_or_empty none = ""
text_or_empty (some text) = text

-- The text that is embedded for a kind; an entity has none.
unfoldable pub text_for : Article → EmbeddingKind → String
unfolding take_chars
text_for a EmbeddingKind.title = a.title
text_for a EmbeddingKind.summary = text_or_empty a.summary
text_for a EmbeddingKind.body = str_append a.title (str_append "\n" (take_chars 6000 a.body))
text_for a EmbeddingKind.entity = ""

-- The kinds of the message, or the two that are embedded anyway, less those without a text.
abbrev kinds_or_default : List EmbeddingKind → List EmbeddingKind
kinds_or_default [] = EmbeddingKind.title ∷ EmbeddingKind.body ∷ []
kinds_or_default (kind ∷ kinds) = kind ∷ kinds

unfoldable pub wanted_kinds : Article → List EmbeddingKind → List EmbeddingKind
unfolding filter text_for
wanted_kinds a kinds = filter (λ k. not (str_eq (text_for a k) "")) (kinds_or_default kinds)

-- The most similar candidate so far, with its similarity.
pub record Best : Type 0 where
  pub id : Option ℕ
  pub similarity : ℕ

abbrev pub no_best : Best
no_best = record { id = none; similarity = 0 }

-- A duplicate that the lookup finds goes before the candidates of the gray zone.
abbrev add_duplicate : Bool → Option ℕ → List ℕ → List ℕ
add_duplicate true (some id) candidates = id ∷ candidates
add_duplicate _ _ candidates = candidates

abbrev pub candidates_in : DedupResult → List ℕ
candidates_in near = add_duplicate near.is_duplicate near.duplicate_of near.semantic_candidates

module _ {V : Type 0} (backend : Backend V) where
  open backend use {model_name, version, encode, cosine}

  -- The rows of a slot, which is an article with a kind, for this model and version.
  unfoldable pub is_slot : ℕ → EmbeddingKind → ArticleEmbedding V → Bool
  is_slot article_id kind e =
      e.article_id == article_id
      && same_kind e.embedding_kind kind
      && str_eq e.embedding_model model_name
      && e.embedding_version == version

  -- The slot is cleared and filled again.
  unfoldable pub store_vector :
      Article → EmbeddingKind → List (ArticleEmbedding V) → List (ArticleEmbedding V)
  unfolding filter is_slot text_for
  store_vector a kind rows =
      filter (λ e. not (is_slot a.id kind e)) rows
      ++ (record {
        article_id = a.id;
        embedding_kind = kind;
        embedding_model = model_name;
        embedding_version = version;
        embedding = encode (text_for a kind);
      })
        ∷ []

  unfoldable pub store_vectors :
      Article → List EmbeddingKind → List (ArticleEmbedding V) → List (ArticleEmbedding V)
  unfolding store_vector
  store_vectors a [] rows = rows
  store_vectors a (kind ∷ kinds) rows = store_vectors a kinds (store_vector a kind rows)

  unfoldable pub body_vector : ℕ → List (ArticleEmbedding V) → Option V
  unfolding is_slot
  body_vector article_id [] = none
  body_vector article_id (e ∷ rows) =
      let rest = body_vector article_id rows in
      if is_slot article_id EmbeddingKind.body e then some e.embedding else rest

  abbrev pub better : V → ℕ → Option V → Best → Best
  better own candidate none best = best
  better own candidate (some vector) best =
      if ltb best.similarity (cosine own vector)
      then record { id = some candidate; similarity = cosine own vector }
      else best

  unfoldable pub best_of : V → List (ArticleEmbedding V) → List ℕ → Best → Best
  unfolding body_vector
  best_of own rows [] best = best
  best_of own rows (candidate ∷ candidates) best =
      best_of own rows candidates (better own candidate (body_vector candidate rows) best)

  abbrev set_duplicate : ℕ → ℕ → List StoredArticle → List StoredArticle
  set_duplicate id duplicate articles =
      map (λ a. if a.article.id == id then record a { duplicate_of = some duplicate } else a)
        articles

  -- What the search among the candidates makes of the article.
  abbrev pub mark_as :
      ℕ → ℕ → Option ℕ → EmbeddingTables V → EmbeddingTables V × Option ℕ × Option ℕ
  mark_as id similarity none t = (t, none, none)
  mark_as id similarity (some best) t =
      if leb semantic_duplicate_threshold similarity
      then (record t { articles = set_duplicate id best t.articles }, some best, some similarity)
      else (t, none, some similarity)

  abbrev pub judge :
      ℕ → List ℕ → Option V → EmbeddingTables V → EmbeddingTables V × Option ℕ × Option ℕ
  judge id [] own t = (t, none, none)
  judge id (candidate ∷ candidates) none t = (t, none, none)
  judge id (candidate ∷ candidates) (some own) t =
      let best = best_of own t.embeddings (candidate ∷ candidates) no_best in
      mark_as id best.similarity best.id t

  -- `select` is the order of the database's answers.
  module _ (select : List Article → List Article) where
    -- The candidates of the staged lookup.
    unfoldable pub candidates_of : ℕ → StoredArticle → ℤ → List StoredArticle → List ℕ
    unfolding find_duplicate
    candidates_of hamming_threshold a simhash articles = candidates_in (
        find_duplicate select hamming_threshold a.article.content_hash simhash (some a.article.id)
          (map (λ b. b.article) articles))

    abbrev pub judge_as :
        ℕ
        → StoredArticle
        → Option ℤ
        → Option ℕ
        → EmbeddingTables V
        → EmbeddingTables V × Option ℕ × Option ℕ
    judge_as hamming_threshold a none duplicate t = (t, duplicate, none)
    judge_as hamming_threshold a (some simhash) (some id) t = (t, some id, none)
    judge_as hamming_threshold a (some simhash) none t =
        judge a.article.id (candidates_of hamming_threshold a simhash t.articles)
          (body_vector a.article.id t.embeddings) t

    -- The tables, the article that this one duplicates, and the similarity.
    unfoldable pub semantic_dedup :
        ℕ → StoredArticle → EmbeddingTables V → EmbeddingTables V × Option ℕ × Option ℕ
    unfolding best_of candidates_of
    semantic_dedup hamming_threshold a t =
        judge_as hamming_threshold a a.article.simhash a.duplicate_of t

    unfoldable pub embed_article :
        ℕ
        → StoredArticle
        → List EmbeddingKind
        → EmbeddingTables V
        → EmbeddingTables V × Option ℕ × Option ℕ
    unfolding semantic_dedup store_vectors wanted_kinds
    embed_article hamming_threshold a kinds t = semantic_dedup hamming_threshold a (record t {
      embeddings = store_vectors a.article (wanted_kinds a.article kinds) t.embeddings;
    })
