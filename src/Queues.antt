-- ===== src/Queues.antt =====
-- Redis streams (apps/api/newscrawl_api/coordination/queues.py) and the cleaning worker that reads them
-- (apps/processor/newscrawl_processor/run_worker.py). Redis is not modelled: an operation is the
-- sequence of the commands that it sends, for given answers. Times are microseconds.
pub mod Delivery
pub mod Handled
pub mod Cleaning
use news_crawl_intelligence.Prelude.{
  ℕ, ◌+◌, ◌*◌, ◌≡◌, leb, ◌==◌, Bool, true, false, not, ◌&&◌, String, List, [], ◌∷◌, ◌++◌, Option,
  none, some, str_eq, if◌then◌else◌,
}
use news_crawl_intelligence.Prelude.Text.{take_chars}
use news_crawl_intelligence.Contracts.{stream_dead_letter, stream_delayed}

abbrev pub payload_field : String
payload_field = "payload"

abbrev pub attempt_field : String
attempt_field = "attempt"

abbrev pub Fields : Type 0
Fields = List (String × String)

pub data Command : Type 0 where
  xadd : String → Fields → Command
  xack : (stream group message_id : String) → Command
  zadd : (key member : String) → ℕ → Command
  zrem : (key member : String) → Command
  xdel : (stream message_id : String) → Command

pub record QueueMessage {ℓ} (Payload : Type ℓ) : Type ℓ where
  pub stream : String
  pub message_id : String
  pub payload : Payload
  pub attempt : ℕ

pub record StreamQueue : Type 0 where
  pub group : String
  pub max_attempts : ℕ
  pub retry_delay : ℕ

pub record Envelope {ℓ} (Payload : Type ℓ) : Type ℓ where
  pub id : String
  pub stream : String
  pub payload : Payload
  pub attempt : ℕ

-- `json.dumps` and `json.loads` of payloads and envelopes, `str` and `int` of numbers.
pub record Codec {ℓ} (Payload : Type ℓ) : Type ℓ where
  pub dumps : Payload → String
  pub loads : String → Option Payload
  pub dump_envelope : Envelope Payload → String
  pub load_envelope : String → Option (Envelope Payload)
  pub show : ℕ → String
  pub read : String → Option ℕ

unfoldable pub get : String → Fields → Option String
get key [] = none
get key ((name, value) ∷ fields) =
    let rest = get key fields in if str_eq name key then some value else rest

abbrev or_one : Option String → String
or_one none = "1"
or_one (some attempt) = attempt

abbrev is_filled : String → Bool
is_filled text = not (str_eq text "")

abbrev raises : List Command → List Command × Option ℕ
raises commands = (commands, none)

abbrev count_move : Command → Command → List Command × Option ℕ → List Command × Option ℕ
count_move removal publication (commands, none) = (removal ∷ publication ∷ commands, none)
count_move removal publication (commands, some moved) =
    (removal ∷ publication ∷ commands, some (moved + 1))

abbrev no_move : Command → List Command × Option ℕ → List Command × Option ℕ
no_move removal (commands, moved) = (removal ∷ commands, moved)

module _ {ℓ} {Payload : Type ℓ} where
  abbrev message_of : String → String → Option Payload → Option ℕ → Option (QueueMessage Payload)
  message_of stream id (some payload) (some attempt) =
      some (record { stream = stream; message_id = id; payload = payload; attempt = attempt })
  message_of stream id _ _ = none

  abbrev cons_message :
      Option (QueueMessage Payload)
      → Option (List (QueueMessage Payload))
      → Option (List (QueueMessage Payload))
  cons_message (some m) (some ms) = some (m ∷ ms)
  cons_message _ _ = none

  abbrev load_payload : Codec Payload → Option String → Option Payload
  load_payload codec none = none
  load_payload codec (some text) = codec.loads text

  -- `none` is a KeyError or a ValueError.
  unfoldable pub to_message :
      Codec Payload → String → String → Fields → Option (QueueMessage Payload)
  unfolding get
  to_message codec stream id fields =
      message_of stream id (load_payload codec (get payload_field fields))
        (codec.read (or_one (get attempt_field fields)))

  -- The messages of a stream's entries, as `consume` reads them.
  unfoldable pub consume :
      Codec Payload → String → List (String × Fields) → Option (List (QueueMessage Payload))
  unfolding to_message
  consume codec stream [] = some []
  consume codec stream ((id, fields) ∷ entries) =
      cons_message (to_message codec stream id fields) (consume codec stream entries)

  -- Entries with no fields are tombstones.
  unfoldable pub claim_stale :
      Codec Payload → String → List (String × Fields) → Option (List (QueueMessage Payload))
  unfolding to_message
  claim_stale codec stream [] = some []
  claim_stale codec stream ((id, []) ∷ entries) = claim_stale codec stream entries
  claim_stale codec stream ((id, f ∷ fields) ∷ entries) =
      cons_message (to_message codec stream id (f ∷ fields)) (claim_stale codec stream entries)

  unfoldable pub publish : Codec Payload → String → Payload → ℕ → Command
  publish codec stream payload attempt =
      Command.xadd stream
        ((payload_field, codec.dumps payload) ∷ (attempt_field, codec.show attempt) ∷ [])

  unfoldable pub ack : StreamQueue → QueueMessage Payload → Command
  ack q m = Command.xack m.stream q.group m.message_id

  unfoldable pub dead_letter : Codec Payload → String → QueueMessage Payload → String → Command
  dead_letter codec failed_at m error = Command.xadd stream_dead_letter (
      (payload_field, codec.dumps m.payload)
      ∷ ("origin_stream", m.stream)
      ∷ ("attempts", codec.show m.attempt)
      ∷ ("error", take_chars 2000 error)
      ∷ ("failed_at", failed_at)
      ∷ [])

  -- The envelope of a retry; `id` is fresh.
  unfoldable pub envelope_of : String → QueueMessage Payload → Envelope Payload
  envelope_of id m = record {
    id = id;
    stream = m.stream;
    payload = m.payload;
    attempt = m.attempt + 1;
  }

  -- The commands, and whether a retry was scheduled. `clock` is the text of `now`.
  unfoldable pub retry :
      Codec Payload
      → StreamQueue
      → ℕ
      → String
      → String
      → QueueMessage Payload
      → String
      → List Command × Bool
  unfolding ack dead_letter envelope_of
  retry codec q now clock id m error =
      if leb q.max_attempts m.attempt
      then (ack q m ∷ dead_letter codec clock m error ∷ [], false)
      else (
        ack q m
            ∷ Command.zadd stream_delayed (codec.dump_envelope (envelope_of id m))
                (now + q.retry_delay * m.attempt)
            ∷ [],
        true,
      )

  abbrev pump_one :
      Codec Payload
      → Command
      → Bool
      → Option (Envelope Payload)
      → List Command × Option ℕ
      → List Command × Option ℕ
  pump_one codec removal false job rest = no_move removal rest
  pump_one codec removal true none rest = (removal ∷ [], none)
  pump_one codec removal true (some job) rest =
      count_move removal (publish codec job.stream job.payload job.attempt) rest

  -- The due envelopes, each with the answer to its removal. The count is `none` if an envelope does
  -- not parse, an error that ends the loop.
  unfoldable pub pump_delayed : Codec Payload → List (String × Bool) → List Command × Option ℕ
  unfolding publish
  pump_delayed codec [] = ([], some 0)
  pump_delayed codec ((envelope, removed) ∷ due) =
      pump_one codec (Command.zrem stream_delayed envelope) removed (codec.load_envelope envelope)
        (pump_delayed codec due)

  abbrev replay_payload :
      Codec Payload
      → String
      → Command
      → Option Payload
      → List Command × Option ℕ
      → List Command × Option ℕ
  replay_payload codec origin deletion none rest = raises []
  replay_payload codec origin deletion (some payload) rest =
      count_move (publish codec origin payload 1) deletion rest

  abbrev replay_one :
      Codec Payload
      → Command
      → Option String
      → Option String
      → List Command × Option ℕ
      → List Command × Option ℕ
  replay_one codec deletion (some origin) (some payload) rest =
      if is_filled origin && is_filled payload
      then replay_payload codec origin deletion (codec.loads payload) rest
      else no_move deletion rest
  replay_one codec deletion _ _ rest = no_move deletion rest

  -- The dead letters, oldest first, back to their streams.
  unfoldable pub replay_dead_letters :
      Codec Payload → List (String × Fields) → List Command × Option ℕ
  unfolding publish get
  replay_dead_letters codec [] = ([], some 0)
  replay_dead_letters codec ((id, fields) ∷ entries) =
      replay_one codec (Command.xdel stream_dead_letter id) (get "origin_stream" fields)
        (get payload_field fields) (replay_dead_letters codec entries)
