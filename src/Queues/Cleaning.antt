-- ===== src/Queues/Cleaning.antt =====
-- The cleaning worker: what becomes of each message. Validation, cleaning and persistence are given by
-- their outcome, which `Articles.Persist` models.
use news_crawl_intelligence.Prelude.{
  ℕ, String, List, [], ◌∷◌, ◌++◌, Option, none, some, if◌then◌else◌,
}
use news_crawl_intelligence.Prelude.Text.{take_chars}
use Prim.Native.String.{◌++◌ as str_append}
use news_crawl_intelligence.Contracts.{Language, ProcessingStatus, stream_llm, stream_embedding}
use news_crawl_intelligence.Articles.Persist.{Action, PersistResult}
use news_crawl_intelligence.Queues.{Codec, Command, QueueMessage, StreamQueue, ack, publish, retry}

-- How the handling of a message ends; an exception comes with its type's name and its text.
pub data Handling : Type 0 where
  malformed : String → Handling
  unusable : String → Handling
  failed : (kind error : String) → Handling
  handled : Language → PersistResult → Handling

-- The row of `processing_jobs`.
pub record ProcessingJob : Type 0 where
  pub status : ProcessingStatus
  pub article_id : Option ℕ
  pub message_id : String
  pub attempts : ℕ
  pub last_error : Option String

abbrev failure : ProcessingStatus → String → String → ProcessingJob
failure status message_id error = record {
  status = status;
  article_id = none;
  message_id = message_id;
  attempts = 1;
  last_error = some (take_chars 2000 error);
}

module _ {ℓ} {Payload : Type ℓ} (codec : Codec Payload) (llm_payload : ℕ → Language → Payload)
    (embedding_payload : ℕ → Payload) where
  abbrev publish_both : Language → Option ℕ → List Command
  publish_both language none = []
  publish_both language (some id) =
      publish codec stream_llm (llm_payload id language) 1
      ∷ publish codec stream_embedding (embedding_payload id) 1
      ∷ []

  -- Only new content is analysed.
  abbrev pub fan_out_of : Action → Language → Option ℕ → List Command
  fan_out_of Action.created language id = publish_both language id
  fan_out_of Action.updated language id = publish_both language id
  fan_out_of Action.unchanged language id = []
  fan_out_of Action.duplicate language id = []

  unfoldable pub fan_out : Language → PersistResult → List Command
  unfolding publish
  fan_out language r = fan_out_of r.action language r.article_id

  -- The commands of a message, and the rows that it adds to `processing_jobs`.
  unfoldable pub process_message :
      StreamQueue
      → ℕ
      → String
      → String
      → QueueMessage Payload
      → Handling
      → List Command × List ProcessingJob
  unfolding fan_out retry ack
  process_message q now clock id m (Handling.malformed error) = (
    (retry codec q now clock id (record m { attempt = q.max_attempts })
        (str_append "validation: " error)).0,
    [],
  )
  process_message q now clock id m (Handling.unusable error) =
      (ack q m ∷ [], failure ProcessingStatus.failed m.message_id error ∷ [])
  process_message q now clock id m (Handling.failed kind error) =
      let (commands, retried) =
        retry codec q now clock id m (str_append kind (str_append ": " error)) in
      (
        commands,
        if retried then [] else failure ProcessingStatus.dead_letter m.message_id error ∷ [],
      )
  process_message q now clock id m (Handling.handled language r) = (
    fan_out language r ++ ack q m ∷ [],
    record {
      status = ProcessingStatus.completed;
      article_id = r.article_id;
      message_id = m.message_id;
      attempts = 1;
      last_error = none;
    }
        ∷ [],
  )
