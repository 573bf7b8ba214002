-- ===== src/Queues/Handled.antt =====
-- What the cleaning worker does with a message that it has handled, also if it comes again.
use news_crawl_intelligence.Prelude.{
  ℕ, ◌≡◌, ◌⊎◌, refl, String, List, [], ◌∷◌, ◌++◌, Option, none, some, count_if, inl, inr,
}
use news_crawl_intelligence.Contracts.{Language}
use news_crawl_intelligence.Articles.Rows.{Article, CleanedArticle}
use news_crawl_intelligence.Articles.Persist.{Store, Origin, PersistResult, Action, persist}
use news_crawl_intelligence.Articles.Again.{again, again_action, persist_twice}
use news_crawl_intelligence.Queues.{Codec, Command, QueueMessage, StreamQueue, ack, publish}
use news_crawl_intelligence.Queues.Cleaning.{Handling, fan_out, fan_out_of, process_message}
use news_crawl_intelligence.Queues.Delivery.{is_ack, is_ack_of, own_ack, retry_once}

action_cases :
    (a : Action) → (again_action a ≡ Action.unchanged) ⊎ (again_action a ≡ Action.duplicate)
action_cases Action.created = inl refl
action_cases Action.updated = inl refl
action_cases Action.unchanged = inl refl
action_cases Action.duplicate = inr refl

-- The commands acknowledge one message, and it is this one.
abbrev pub IsAcked {ℓ} :
    {Payload : Type ℓ} → StreamQueue → QueueMessage Payload → List Command → Type 0
IsAcked q m commands =
    (count_if is_ack commands ≡ 1)
    × (count_if (is_ack_of m.stream q.group m.message_id) commands ≡ 1)

module _ {ℓ} {Payload : Type ℓ} (codec : Codec Payload) (llm_payload : ℕ → Language → Payload)
    (embedding_payload : ℕ → Payload) where
  fan_out_of-IsAcked :
      (q : StreamQueue) (m : QueueMessage Payload) (a : Action) (language : Language)
      (id : Option ℕ)
      → IsAcked q m (fan_out_of codec llm_payload embedding_payload a language id ++ ack q m ∷ [])
  unfolding publish count_if ack
  fan_out_of-IsAcked q m Action.created language none =
      rw (own_ack m.stream q.group m.message_id) (refl, refl)
  fan_out_of-IsAcked q m Action.created language (some id) =
      rw (own_ack m.stream q.group m.message_id) (refl, refl)
  fan_out_of-IsAcked q m Action.updated language none =
      rw (own_ack m.stream q.group m.message_id) (refl, refl)
  fan_out_of-IsAcked q m Action.updated language (some id) =
      rw (own_ack m.stream q.group m.message_id) (refl, refl)
  fan_out_of-IsAcked q m Action.unchanged language id =
      rw (own_ack m.stream q.group m.message_id) (refl, refl)
  fan_out_of-IsAcked q m Action.duplicate language id =
      rw (own_ack m.stream q.group m.message_id) (refl, refl)

  -- The worker acknowledges one message, and it is the one that it was given, whether this is
  -- malformed, unusable, failed or handled.
  pub process_message-ack :
      (q : StreamQueue) (now : ℕ) (clock id : String) (m : QueueMessage Payload) (h : Handling)
      → IsAcked q m (process_message codec llm_payload embedding_payload q now clock id m h).0
  unfolding process_message count_if ack fan_out
  process_message-ack q now clock id m (Handling.malformed error) =
      let (one, own, _, _) =
        retry_once codec q now clock id (record m { attempt = q.max_attempts }) _ in
      (one, own)
  process_message-ack q now clock id m (Handling.unusable error) =
      rw (own_ack m.stream q.group m.message_id) (refl, refl)
  process_message-ack q now clock id m (Handling.failed kind error) =
      let (one, own, _, _) = retry_once codec q now clock id m _ in (one, own)
  process_message-ack q now clock id m (Handling.handled language r) =
      fan_out_of-IsAcked q m r.action language r.article_id

  again_acks :
      (q : StreamQueue) (now : ℕ) (clock id : String) (m : QueueMessage Payload)
      (language : Language) (r : PersistResult)
      → (process_message codec llm_payload embedding_payload q now clock id m
          (Handling.handled language (again r))).0
        ≡ ack q m ∷ []
  unfolding process_message fan_out again
  again_acks q now clock id m language r = elim (action_cases r.action) [
    | inl e ↦ rw (e) refl
    | inr e ↦ rw (e) refl
  ]

  -- An article that was persisted, and comes in a second message: it can be persisted again, the
  -- tables stay as they are, and the only command that the worker sends is the acknowledgement of
  -- the second message, so that nothing is analysed or embedded again.
  pub persist-process_message :
      (words : String → List String) (feature_hash : List String → ℕ)
      (select : List Article → List Article) (hamming_threshold today : ℕ) (c : CleanedArticle)
      (o : Origin) (s s' : Store) (r : PersistResult) (q : StreamQueue) (now : ℕ)
      (clock id : String) (m : QueueMessage Payload)
      → persist words feature_hash select hamming_threshold today c o s ≡ some (s', r)
      → (r' : PersistResult) × (persist words feature_hash select hamming_threshold today c o s'
          ≡ some (s', r'))
        × ((process_message codec llm_payload embedding_payload q now clock id m
              (Handling.handled c.language r')).0
            ≡ ack q m ∷ [])
  persist-process_message words feature_hash select threshold today c o s s' r q now clock id m e =
      (
        again r,
        persist_twice words feature_hash select threshold today c o s s' r e,
        again_acks q now clock id m c.language r,
      )
