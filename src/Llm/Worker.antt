-- ===== src/Llm/Worker.antt =====
-- The worker of the queue `processing:llm` (apps/processor/newscrawl_processor/run_llm_worker.py).
use Prim.Native.String.{◌++◌ as str_append}
use news_crawl_intelligence.Prelude.{
  ℕ, ◌==◌, ◌&&◌, not, Bool, true, false, String, List, [], ◌∷◌, Option, none, some, str_eq,
  if◌then◌else◌,
}
use news_crawl_intelligence.Articles.Stored.{StoredArticle, Sentiment}
use news_crawl_intelligence.Queues.{Codec, Command, QueueMessage, StreamQueue, ack, retry}
use news_crawl_intelligence.Llm.{ArticleAnalysis, LlmUsage}
use news_crawl_intelligence.Llm.Heuristic.{WordLists, WordLib, heuristic_analysis}
use news_crawl_intelligence.Llm.Persist.{AnalysisTables, NameLib, apply_analysis, record_failure}

-- `db.get(Article, article_id)`
unfoldable pub find_article : ℕ → List StoredArticle → Option StoredArticle
find_article id [] = none
find_article id (a ∷ articles) =
    let rest = find_article id articles in if a.article.id == id then some a else rest

abbrev pub is_text : Option String → Bool
is_text none = false
is_text (some text) = not (str_eq text "")

abbrev pub is_set : Option Sentiment → Bool
is_set none = false
is_set (some sentiment) = true

-- Whether the article was analysed before.
abbrev pub is_analysed : StoredArticle → Bool
is_analysed a = is_set a.sentiment && is_text a.article.summary

-- The payload of a message: the article, or a text that says why it is malformed.
pub data LlmPayload : Type 0 where
  article_id : ℕ → LlmPayload
  malformed : String → LlmPayload

abbrev pub heuristic_usage : LlmUsage → LlmUsage
heuristic_usage usage = record {
  provider = "heuristic";
  model = "keyword-v1";
  prompt_tokens = 0;
  completion_tokens = 0;
  cost = 0;
  attempts = usage.attempts;
  errors = usage.errors;
}

-- How the extractor ends: with an analysis, with ExtractionFailedError, or with an exception that the
-- worker does not catch, such as a reply of a provider that is no JSON.
pub data Extraction : Type 0 where
  analysed : ArticleAnalysis → LlmUsage → Extraction
  exhausted : LlmUsage → Extraction
  raised : Extraction

-- What `Llm.analyze` answers, where all exceptions of its providers are LLMProviderErrors.
abbrev pub extraction_of : Option ArticleAnalysis × LlmUsage → Extraction
extraction_of (some analysis, usage) = analysed analysis usage
extraction_of (none, usage) = exhausted usage

-- Whether the statements of a session and its commit go through.
pub data Database : Type 0 where
  answers statement_fails commit_fails : Database

-- The commands that are sent, the tables, and whether an exception leaves `process_message`.
pub record Outcome : Type 0 where
  pub commands : List Command
  pub tables : AnalysisTables
  pub raises : Bool

abbrev pub outcome : List Command → AnalysisTables → Bool → Outcome
outcome commands tables raises = record { commands = commands; tables = tables; raises = raises }

-- The end of a session that changes `old` to `new`: an exception rolls it back. `acks_first` tells
-- whether the message is acknowledged before the commit, or after it.
abbrev pub end_session : Command → Bool → Database → AnalysisTables → AnalysisTables → Outcome
end_session own acks_first answers new old = outcome (own ∷ []) new false
end_session own acks_first statement_fails new old = outcome [] old true
end_session own true commit_fails new old = outcome (own ∷ []) old true
end_session own false commit_fails new old = outcome [] old true

-- `analyze` is the extractor on a title and a body; `latency_ms` the time that it took.
module _ {Payload : Type 0} (codec : Codec Payload) (q : StreamQueue) (words : WordLists)
    (word_lib : WordLib) (names : NameLib) (analyze : String → String → Extraction) (latency_ms : ℕ)
    (db : Database) where
  -- The tables after the analysis without a model.
  abbrev pub settled_without : StoredArticle → LlmUsage → AnalysisTables → AnalysisTables
  settled_without a usage t =
      apply_analysis names a.article.id
        (heuristic_analysis words word_lib a.article.title a.article.body) (heuristic_usage usage)
        latency_ms (record_failure a.article.id usage "All LLM providers failed" latency_ms t)

  -- What follows the extraction.
  unfoldable pub settle : Command → StoredArticle → Extraction → AnalysisTables → Outcome
  unfolding apply_analysis record_failure heuristic_analysis
  settle own a (analysed analysis usage) t =
      end_session own false db (apply_analysis names a.article.id analysis usage latency_ms t) t
  settle own a (exhausted usage) t = end_session own true db (settled_without a usage t) t
  settle own a raised t = outcome [] t true

  -- The article that is found, if it is.
  unfoldable pub process_article : Command → Option StoredArticle → AnalysisTables → Outcome
  unfolding settle
  process_article own none t = end_session own true db t t
  process_article own (some a) t =
      if is_analysed a
      then end_session own true db t t
      else settle own a (analyze a.article.title a.article.body) t

  unfoldable pub process_message :
      ℕ → String → String → QueueMessage Payload → LlmPayload → AnalysisTables → Outcome
  unfolding retry ack process_article find_article
  process_message now clock id m (malformed error) t =
      outcome
        (retry codec q now clock id (record m { attempt = q.max_attempts })
          (str_append "validation: " error)).0
        t false
  process_message now clock id m (article_id article) t =
      process_article (ack q m) (find_article article t.articles) t
