-- ===== src/Queues/Delivery.antt =====
-- A message leaves its stream once, comes back with its payload, and is dead after its last attempt.
use news_crawl_intelligence.Prelude.{
  ℕ, zero, suc, ◌+◌, ◌≡◌, refl, leb, Bool, true, false, ◌&&◌, String, [], ◌∷◌, ◌++◌, some, count_if,
  filter, length, List, Bool-cases, inl, inr, str_eq, if◌then◌else◌, eq_refl,
}
use news_crawl_intelligence.Contracts.{stream_dead_letter, stream_delayed}
use news_crawl_intelligence.Queues.{
  Codec, Command, QueueMessage, StreamQueue, Fields, retry, ack, dead_letter, envelope_of, publish,
  pump_delayed, to_message, get, replay_dead_letters,
}

-- What the code relies on of JSON, `str` and `int`, for one message and the envelope of its retry: they
-- decode what they encode.
pub record IsCodec {ℓ} {Payload : Type ℓ} (codec : Codec Payload) (id : String)
    (m : QueueMessage Payload) : Type ℓ where
  pub loads-dumps : codec.loads (codec.dumps m.payload) ≡ some m.payload
  pub load-dump :
      codec.load_envelope (codec.dump_envelope (envelope_of id m)) ≡ some (envelope_of id m)
  pub read-show : codec.read (codec.show (m.attempt + 1)) ≡ some (m.attempt + 1)

abbrev pub is_ack : Command → Bool
is_ack (Command.xack stream group id) = true
is_ack _ = false

abbrev pub is_dead : Command → Bool
is_dead (Command.xadd stream fields) = str_eq stream stream_dead_letter
is_dead _ = false

abbrev pub is_delayed : Command → Bool
is_delayed (Command.zadd key member score) = true
is_delayed _ = false

abbrev pub is_ack_of : String → String → String → Command → Bool
is_ack_of stream group id (Command.xack s g i) = str_eq s stream && str_eq g group && str_eq i id
is_ack_of stream group id _ = false

abbrev pub fields_of : Command → Fields
fields_of (Command.xadd stream fields) = fields
fields_of _ = []

pub own_ack :
    (stream group id : String) → is_ack_of stream group id (Command.xack stream group id) ≡ true
own_ack stream group id = rw (eq_refl stream, eq_refl group, eq_refl id) refl

module _ {ℓ} {Payload : Type ℓ} (codec : Codec Payload) where
  -- A retry acknowledges the message, and nothing else, once; it goes to the dead letters if its
  -- attempts are used up, and is scheduled again if not, never both.
  pub retry_once :
      (q : StreamQueue) (now : ℕ) (clock id : String) (m : QueueMessage Payload) (error : String)
      → (count_if is_ack (retry codec q now clock id m error).0 ≡ 1)
        × (count_if (is_ack_of m.stream q.group m.message_id) (retry codec q now clock id m error).0
            ≡ 1)
        × (count_if is_dead (retry codec q now clock id m error).0
            ≡ (if leb q.max_attempts m.attempt then 1 else 0))
        × (count_if is_delayed (retry codec q now clock id m error).0
            ≡ (if leb q.max_attempts m.attempt then 0 else 1))
  unfolding retry count_if ack dead_letter
  retry_once q now clock id m error = elim (Bool-cases (leb q.max_attempts m.attempt)) [
    | inl e ↦ rw (e, own_ack m.stream q.group m.message_id) (refl, refl, refl, refl)
    | inr e ↦ rw (e, own_ack m.stream q.group m.message_id) (refl, refl, refl, refl)
  ]

  -- The message as the pump gives it back.
  abbrev pub next_delivery : String → QueueMessage Payload → QueueMessage Payload
  next_delivery id m = record m { message_id = id; attempt = m.attempt + 1 }

  -- If the codec decodes what it encodes: the pump publishes the envelope of a retry on its
  -- stream, and the entry is read as the message with the same payload and one attempt more.
  pub retry-pump_delayed :
      (id new_id : String) (m : QueueMessage Payload)
      → IsCodec codec id m
      → (pump_delayed codec ((codec.dump_envelope (envelope_of id m), true) ∷ []) ≡ (
        Command.zrem stream_delayed (codec.dump_envelope (envelope_of id m))
            ∷ publish codec m.stream m.payload (m.attempt + 1)
            ∷ [],
        some 1,
      ))
        × (to_message codec m.stream new_id
              (fields_of (publish codec m.stream m.payload (m.attempt + 1)))
            ≡ some (next_delivery new_id m))
  unfolding pump_delayed publish to_message get envelope_of
  retry-pump_delayed id new_id m ok =
      (rw (ok.load-dump) refl, rw (ok.loads-dumps, ok.read-show) refl)

  -- If the codec decodes what it encodes: a dead letter whose stream and payload are not empty
  -- goes back to its stream with the same payload as a first attempt, and is deleted.
  pub replay-dead_letter :
      (id clock error : String) (m : QueueMessage Payload)
      → IsCodec codec id m
      → str_eq m.stream "" ≡ false
      → str_eq (codec.dumps m.payload) "" ≡ false
      → replay_dead_letters codec ((id, fields_of (dead_letter codec clock m error)) ∷ [])
        ≡ (publish codec m.stream m.payload 1 ∷ Command.xdel stream_dead_letter id ∷ [], some 1)
  unfolding replay_dead_letters dead_letter get publish
  replay-dead_letter id clock error m ok s p = rw (s, p, ok.loads-dumps) refl

  -- The dead letters among the commands of several deliveries, and how many messages they
  -- acknowledge.
  unfoldable pub dead_letters : List (List Command) → List Command
  unfolding filter
  dead_letters [] = []
  dead_letters (commands ∷ rest) = filter is_dead commands ++ dead_letters rest

  unfoldable pub acks : List (List Command) → ℕ
  unfolding count_if
  acks [] = 0
  acks (commands ∷ rest) = count_if is_ack commands + acks rest

  -- What differs from attempt to attempt: the time and its text, the identities of the envelope and of
  -- the next entry, and the error.
  module _ (now : ℕ → ℕ) (clock envelope_id entry_id error : ℕ → String) where
    abbrev retried : StreamQueue → QueueMessage Payload → List Command × Bool
    retried q m =
        retry codec q (now m.attempt) (clock m.attempt) (envelope_id m.attempt) m (error m.attempt)

    -- The deliveries of a message that fails each time, this one first, each with its commands.
    unfoldable pub deliveries : ℕ → StreamQueue → QueueMessage Payload → List (List Command)
    unfolding retry
    deliveries zero q m = (retried q m).0 ∷ []
    deliveries (suc fuel) q m =
        let rest = deliveries fuel q (next_delivery (entry_id m.attempt) m) in
        (retried q m).0 ∷ (if (retried q m).1 then rest else [])

    -- The dead letter of the last attempt.
    abbrev pub last_letter : StreamQueue → QueueMessage Payload → Command
    last_letter q m =
        dead_letter codec (clock q.max_attempts) (record m { attempt = q.max_attempts })
          (error q.max_attempts)

    -- What becomes of the deliveries from one attempt on.
    abbrev pub IsGivenUp : StreamQueue → QueueMessage Payload → ℕ → List (List Command) → Type 0
    IsGivenUp q m n ds = (length ds ≡ n) × (acks ds ≡ n) × (dead_letters ds ≡ last_letter q m ∷ [])
