-- ===== src/Llm/Settled.antt =====
-- What becomes of a message of an article that is there.
use news_crawl_intelligence.Prelude.{
  ℕ, ◌≡◌, not, ◌&&◌, ◌||◌, Bool, if◌then◌else◌, true, false, String, List, [], ◌∷◌, Option, none,
  some,
}
use news_crawl_intelligence.Articles.Stored.{StoredArticle}
use news_crawl_intelligence.Queues.{Codec, QueueMessage, StreamQueue, ack}
use news_crawl_intelligence.Queues.Handled.{IsAcked}
use news_crawl_intelligence.Llm.Heuristic.{WordLists, WordLib}
use news_crawl_intelligence.Llm.Persist.{AnalysisTables, NameLib}
use news_crawl_intelligence.Llm.Worker.{
  find_article, is_set, is_analysed, Extraction, analysed, exhausted, raised, Database, answers,
  commit_fails, Outcome,
}

-- The article is in the table, with a sentiment.
pub record HasSentiment (id : ℕ) (articles : List StoredArticle) : Type 0 where
  pub stored : StoredArticle
  pub found : find_article id articles ≡ some stored
  pub analysed : is_set stored.sentiment ≡ true

abbrev IsOf : ℕ → Option StoredArticle → Type 0
IsOf id none = Unit
IsOf id (some a) = a.article.id ≡ id

abbrev pub is_raised : Extraction → Bool
is_raised raised = true
is_raised _ = false

abbrev pub is_exhausted : Extraction → Bool
is_exhausted (exhausted usage) = true
is_exhausted _ = false

abbrev pub goes_through : Database → Bool
goes_through answers = true
goes_through _ = false

abbrev pub is_lost_commit : Database → Bool
is_lost_commit commit_fails = true
is_lost_commit _ = false

-- What an outcome does for the message, by whether an exception leaves: if not, the message alone is
-- acknowledged, and the article has a sentiment; if so, the tables are as they were, and the message is
-- acknowledged only where the acknowledgement comes before the commit.
abbrev pub IsSettled :
    {Payload : Type 0}
    → StreamQueue
    → QueueMessage Payload
    → ℕ
    → AnalysisTables
    → Bool
    → Bool
    → Outcome
    → Type 0
IsSettled q m article t acked_early false o =
    IsAcked q m o.commands × HasSentiment article o.tables.articles
IsSettled q m article t acked_early true o =
    (o.tables ≡ t) × (o.commands ≡ (if acked_early then ack q m ∷ [] else []))

module _ {Payload : Type 0} (codec : Codec Payload) (q : StreamQueue) (words : WordLists)
    (word_lib : WordLib) (names : NameLib) (analyze : String → String → Extraction) (latency_ms : ℕ)
    (db : Database) where
  -- The flags of an outcome, and what it does.
  abbrev Settles : QueueMessage Payload → ℕ → AnalysisTables → Bool → Bool → Outcome → Type 0
  Settles m article t raises acked_early o =
      (o.raises ≡ raises) × IsSettled q m article t acked_early raises o

  -- Whether an exception leaves, for an article that is there.
  abbrev pub is_interrupted : StoredArticle → Bool
  is_interrupted a =
      (not (is_analysed a) && is_raised (analyze a.article.title a.article.body))
      || not (goes_through db)

  -- Whether the message is gone though its commit fails.
  abbrev pub is_acked_early : StoredArticle → Bool
  is_acked_early a =
      (is_analysed a || is_exhausted (analyze a.article.title a.article.body)) && is_lost_commit db
