-- ===== src/Embeddings/Worker.antt =====
-- The worker of the queue `processing:embedding` (apps/processor/newscrawl_processor/
-- run_embedding_worker.py). What `embed_article` does is given, with the exception that it raises.
use Prim.Native.String.{◌++◌ as str_append}
use news_crawl_intelligence.Prelude.{
  ℕ, ◌+◌, ◌≡◌, refl, ltb, ◌&&◌, Bool, true, false, String, List, [], ◌∷◌, Option, none, some,
  count_if, arith, if◌then◌else◌, if_cases,
}
use news_crawl_intelligence.Contracts.{Language, stream_embedding}
use news_crawl_intelligence.Queues.{Codec, Command, QueueMessage, StreamQueue, ack, publish, retry}
use news_crawl_intelligence.Queues.Delivery.{is_ack, retry_once}
use news_crawl_intelligence.Embeddings.{EmbeddingKind}

pub record EmbeddingMessage : Type 0 where
  pub article_id : ℕ
  pub kinds : List EmbeddingKind
  pub defer_count : ℕ

-- What a message comes to: it is malformed, or its article is missing, or is of the language, and then
-- the embedding returns or raises.
pub data Handling : Type 0 where
  malformed : String → Handling
  missing : Handling
  stored : Language → EmbeddingMessage → Option String → Handling

abbrev is_english : Language → Bool
is_english Language.english = true
is_english _ = false

-- English articles are put off once, so that other languages are not starved.
abbrev pub is_deferred : Language → EmbeddingMessage → Bool
is_deferred language payload = is_english language && ltb payload.defer_count 1

abbrev pub deferred : EmbeddingMessage → EmbeddingMessage
deferred payload = record payload { defer_count = payload.defer_count + 1 }

-- `dump` makes the payload of a message.
module _ {Payload : Type 0} (codec : Codec Payload) (q : StreamQueue)
    (dump : EmbeddingMessage → Payload) where
  abbrev pub embedded : ℕ → String → String → QueueMessage Payload → Option String → List Command
  embedded now clock id m none = ack q m ∷ []
  embedded now clock id m (some error) = (retry codec q now clock id m error).0

  -- The commands that are sent.
  unfoldable pub process_message :
      ℕ → String → String → QueueMessage Payload → Handling → List Command
  unfolding ack publish retry
  process_message now clock id m (malformed error) =
      (retry codec q now clock id (record m { attempt = q.max_attempts })
        (str_append "validation: " error)).0
  process_message now clock id m missing = ack q m ∷ []
  process_message now clock id m (stored language payload outcome) =
      if is_deferred language payload
      then publish codec stream_embedding (dump (deferred payload)) 1 ∷ ack q m ∷ []
      else embedded now clock id m outcome

  -- Every message is acknowledged once.
  pub process_message-once :
      (now : ℕ) (clock id : String) (m : QueueMessage Payload) (h : Handling)
      → count_if is_ack (process_message now clock id m h) ≡ 1
  unfolding process_message count_if ack publish
  process_message-once now clock id m (malformed error) =
      (retry_once codec q now clock id (record m { attempt = q.max_attempts })
        (str_append "validation: " error)).0
  process_message-once now clock id m missing = refl
  process_message-once now clock id m (stored language payload outcome) =
      if_cases (λ commands. count_if is_ack commands ≡ 1) (is_deferred language payload) (λ _. refl)
        (λ _. ends outcome)
    where
      ends : (o : Option String) → count_if is_ack (embedded now clock id m o) ≡ 1
      ends none = refl
      ends (some error) = (retry_once codec q now clock id m error).0

  is_deferred_once :
      (language : Language) (payload : EmbeddingMessage)
      → is_deferred language (deferred payload) ≡ false
  is_deferred_once language payload = ground arith
