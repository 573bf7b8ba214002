-- ===== src/Examples/Queues.antt =====
-- A codec that knows one payload and one envelope, and a message that fails.
use news_crawl_intelligence.Prelude.{ℕ, ◌+◌, ◌*◌, ◌≡◌, refl, true, String, [], ◌∷◌, some}
use news_crawl_intelligence.Contracts.{Language, stream_cleaning, stream_delayed}
use news_crawl_intelligence.Articles.Persist.{PersistResult, persist}
use news_crawl_intelligence.Queues.{
  Codec, Command, QueueMessage, StreamQueue, ack, envelope_of, publish, to_message, pump_delayed,
}
use news_crawl_intelligence.Queues.Cleaning.{Handling, process_message}
use news_crawl_intelligence.Queues.Delivery.{IsCodec, fields_of, next_delivery, retry-pump_delayed}
use news_crawl_intelligence.Queues.Handled.{IsAcked, process_message-ack, persist-process_message}
use news_crawl_intelligence.Articles.History.{no_articles}
use news_crawl_intelligence.Examples.Articles.{
  one_word, count_words, as_stored, first_text, origin, first_outcome, first_delivery,
}

abbrev pub message : QueueMessage ℕ
message = record { stream = stream_cleaning; message_id = "1-0"; payload = 42; attempt = 1 }

abbrev pub queue : StreamQueue
queue = record { group = "processors"; max_attempts = 3; retry_delay = 30000000 }

abbrev pub sample_codec : Codec ℕ
sample_codec = record {
  dumps = λ p. "42";
  loads = λ text. some 42;
  dump_envelope = λ e. "envelope";
  load_envelope =
      λ text. some (record { id = "e1"; stream = stream_cleaning; payload = 42; attempt = 2 });
  show = λ n. "2";
  read = λ text. some 2;
}

sample_codec-IsCodec : IsCodec sample_codec "e1" message
unfolding envelope_of
sample_codec-IsCodec = record { loads-dumps = refl; load-dump = refl; read-show = refl }

abbrev llm_payload : ℕ → Language → ℕ
llm_payload id language = id

abbrev embedding_payload : ℕ → ℕ
embedding_payload id = id

retry-pump_delayed_example :
    (pump_delayed sample_codec ((sample_codec.dump_envelope (envelope_of "e1" message), true) ∷ [])
      ≡ (
        Command.zrem stream_delayed (sample_codec.dump_envelope (envelope_of "e1" message))
            ∷ publish sample_codec message.stream message.payload (message.attempt + 1)
            ∷ [],
        some 1,
      ))
    × (to_message sample_codec message.stream "2-0"
          (fields_of (publish sample_codec message.stream message.payload (message.attempt + 1)))
        ≡ some (next_delivery sample_codec "2-0" message))
retry-pump_delayed_example = retry-pump_delayed sample_codec "e1" "2-0" message sample_codec-IsCodec

abbrev time : ℕ → ℕ
time n = n * 60000000

abbrev text : ℕ → String
text n = "text"

process_message-ack_example :
    IsAcked queue message
      (process_message sample_codec llm_payload embedding_payload queue 5 "5" "e1" message
        (Handling.failed "ValueError" "boom")).0
process_message-ack_example =
    process_message-ack sample_codec llm_payload embedding_payload queue 5 "5" "e1" message
      (Handling.failed "ValueError" "boom")

-- The article of the message was persisted, and the message comes once more.
persist-process_message_example :
    (r : PersistResult) × (persist one_word count_words as_stored 3 100 first_text origin
        first_outcome.0
      ≡ some (first_outcome.0, r))
    × ((process_message sample_codec llm_payload embedding_payload queue 5 "5" "e1" message
          (Handling.handled first_text.language r)).0
        ≡ ack queue message ∷ [])
persist-process_message_example =
    persist-process_message sample_codec llm_payload embedding_payload one_word count_words
      as_stored 3 100 first_text origin no_articles first_outcome.0 first_outcome.1 queue 5 "5" "e1"
      message first_delivery
