-- ===== src/Llm.antt =====
-- The analysis of articles by language models (apps/processor/newscrawl_processor/llm/extractor.py): a
-- chain of providers, each with its retries. The pauses between attempts only take time, and are left
-- out, and the texts of errors are short. A cost is in millionths of a dollar.
pub mod Attempts
pub mod Chain
pub mod Heuristic
pub mod Persist
pub mod Relinked
pub mod Worker
pub mod Settled
use Prim.Native.String.{◌++◌ as str_append}
use text.Mathlib.Text.{starts_with}
use news_crawl_intelligence.Prelude.{
  ℕ, zero, suc, ◌+◌, ltb, ◌&&◌, ◌||◌, Bool, true, false, String, List, [], ◌∷◌, ◌++◌, Option, none,
  some, any, filter, length, str_eq, if◌then◌else◌,
}
use news_crawl_intelligence.Prelude.Text.{take_chars}
use news_crawl_intelligence.Articles.Stored.{Sentiment}

pub data EntityType : Type 0 where
  person organization location event other : EntityType

pub record ExtractedEntity : Type 0 where
  pub name : String
  pub type : EntityType

-- A reply that passed validation.
pub record ArticleAnalysis : Type 0 where
  pub summary : String
  pub topics : List String
  pub entities : List ExtractedEntity
  pub sentiment : Sentiment
  pub event_type : Option String
  pub political_category : Option String
  pub keywords : List String

pub record LlmCompletion : Type 0 where
  pub provider : String
  pub model : String
  pub text : Option String
  pub prompt_tokens : ℕ
  pub completion_tokens : ℕ
  pub cost : ℕ

-- What `complete` does: it returns, or raises LLMProviderError, which may be worth a retry. Another
-- exception ends the analysis, and is the case `raised` of Llm.Worker.Extraction.
pub data Reply : Type 0 where
  completion : LlmCompletion → Reply
  provider_error : (retryable : Bool) → String → Reply

-- The reply may differ from call to call, of which the number is given, with the system prompt and
-- the prompt.
pub record LlmProvider : Type 0 where
  pub name : String
  pub complete : ℕ → String → String → Reply

pub record LlmUsage : Type 0 where
  pub provider : String
  pub model : String
  pub prompt_tokens : ℕ
  pub completion_tokens : ℕ
  pub cost : ℕ
  pub attempts : ℕ
  pub errors : List String

abbrev pub no_usage : LlmUsage
no_usage = record {
  provider = "";
  model = "";
  prompt_tokens = 0;
  completion_tokens = 0;
  cost = 0;
  attempts = 0;
  errors = [];
}

abbrev pub total_tokens : LlmUsage → ℕ
total_tokens usage = usage.prompt_tokens + usage.completion_tokens

unfoldable pub add : LlmCompletion → LlmUsage → LlmUsage
add c usage = record usage {
  provider = c.provider;
  model = c.model;
  prompt_tokens = usage.prompt_tokens + c.prompt_tokens;
  completion_tokens = usage.completion_tokens + c.completion_tokens;
  cost = usage.cost + c.cost;
}

abbrev pub failed_with : String → LlmUsage → LlmUsage
failed_with error usage = record usage { errors = usage.errors ++ error ∷ [] }

-- A parsed JSON text: an object with its members, or something else.
pub data Json (V : Type 0) : Type 0 where
  object : List (String × V) → Json V
  no_object : Json V

-- The library functions that read a reply: `strip`, the removal of code fences, JSON (`none` is a
-- JSONDecodeError), the search for a block in braces, and the validation against the schema.
pub record ReplyLib (V : Type 0) : Type 0 where
  pub strip : String → String
  pub strip_fences : String → String
  pub loads : String → Option (Json V)
  pub json_block : String → Option String
  pub validate : List (String × V) → Option ArticleAnalysis

abbrev pub model_fields : List String
model_fields =
    "summary" ∷ "topics" ∷ "entities" ∷ "sentiment" ∷ "event_type" ∷ "political_category"
    ∷ "keywords" ∷ []

abbrev pub corrective_note : String
corrective_note =
    str_append
      "\n\nIMPORTANT: your previous reply was not valid JSON for the schema. Reply with ONLY one JSON "
      (str_append
        "object using exactly these keys: summary, topics, entities, sentiment, event_type, "
        "political_category, keywords. No other keys. No code fences. No explanations.")

abbrev is_blank : String → Bool
is_blank text = str_eq text "" || (str_eq text "{}" || (str_eq text "null" || str_eq text "[]"))

-- What follows the reply of one attempt: the end of this provider's attempts, or the next one, with
-- its prompt.
abbrev pub after_reply :
    String
    → String
    → (String → LlmUsage → Option ArticleAnalysis × LlmUsage)
    → LlmUsage
    → Option ArticleAnalysis
    → Option ArticleAnalysis × LlmUsage
after_reply user_prompt prompt again usage none =
    again (str_append user_prompt corrective_note) (failed_with "malformed" usage)
after_reply user_prompt prompt again usage (some analysis) = (some analysis, usage)

abbrev pub is_local : LlmProvider → Bool
is_local provider = str_eq provider.name "ollama"

abbrev pub user_prompt_of : String → String → String → Bool → String
user_prompt_of title body language local =
    str_append (str_append (str_append "Language: " language) (str_append "\nTitle: " title))
      (str_append "\n\nArticle:\n" (take_chars (if local then 600 else 1200) body))

-- When Ollama is only a fallback it has one attempt.
unfoldable pub provider_retries : ℕ → Bool → LlmProvider → ℕ
provider_retries max_retries in_chain provider =
    if is_local provider && in_chain then 1 else max_retries

abbrev pub or_next :
    Option ArticleAnalysis × LlmUsage
    → (LlmUsage → Option ArticleAnalysis × LlmUsage)
    → Option ArticleAnalysis × LlmUsage
or_next (some analysis, usage) next = (some analysis, usage)
or_next (none, usage) next = next usage

module _ {V : Type 0} (lib : ReplyLib V) where
  open lib use {strip, strip_fences, loads, json_block, validate}

  abbrev known_members : Option (Json V) → Option (List (String × V))
  known_members none = none
  known_members (some no_object) = none
  known_members (some (object members)) =
      some (filter (λ m. any (λ field. str_eq m.0 field) model_fields) members)

  abbrev loads_block : Option String → Option (Json V)
  loads_block none = none
  loads_block (some block) = loads block

  abbrev or_block : Option (Json V) → String → Option (Json V)
  or_block none candidate = loads_block (json_block candidate)
  or_block (some parsed) candidate = some parsed

  -- `none` is a MalformedResponseError.
  unfoldable pub recover_json : String → Option (List (String × V))
  unfolding filter any
  recover_json text =
      let stripped = strip text in
      let candidate =
        if starts_with stripped "```" then strip (strip_fences stripped) else stripped in
      known_members (or_block (loads candidate) candidate)

  abbrev validated : Option (List (String × V)) → Option ArticleAnalysis
  validated none = none
  validated (some members) = validate members

  abbrev text_of : Option String → String
  text_of none = ""
  text_of (some text) = text

  -- The analysis that a reply holds, if it is one.
  unfoldable pub read_reply : LlmCompletion → Option ArticleAnalysis
  unfolding recover_json
  read_reply c =
      let raw_text = strip (text_of c.text) in
      if is_blank raw_text then none else validated (recover_json raw_text)

  unfoldable pub on_reply :
      String
      → String
      → (String → LlmUsage → Option ArticleAnalysis × LlmUsage)
      → LlmUsage
      → Reply
      → Option ArticleAnalysis × LlmUsage
  unfolding read_reply add
  on_reply user_prompt prompt again usage (completion c) =
      after_reply user_prompt prompt again (add c usage) (read_reply c)
  on_reply user_prompt prompt again usage (provider_error retryable error) =
      if retryable then again prompt (failed_with error usage) else (none, failed_with error usage)

  -- The attempts with one provider.
  unfoldable pub attempt :
      ℕ → LlmProvider → String → String → String → LlmUsage → Option ArticleAnalysis × LlmUsage
  unfolding on_reply
  attempt zero provider system user_prompt prompt usage = (none, usage)
  attempt (suc retries) provider system user_prompt prompt usage =
      let counted = record usage { attempts = usage.attempts + 1 } in
      on_reply user_prompt prompt (attempt retries provider system user_prompt) counted
        (provider.complete counted.attempts system prompt)

  -- The chain of providers. `system_prompt` and its short form for local models are texts.
  module _ (system_prompt local_system_prompt title body language : String) (max_retries : ℕ)
      (in_chain : Bool) where
    unfoldable pub try_providers : List LlmProvider → LlmUsage → Option ArticleAnalysis × LlmUsage
    unfolding attempt provider_retries take_chars
    try_providers [] usage = (none, usage)
    try_providers (provider ∷ providers) usage =
        let local = is_local provider in
        let prompt = user_prompt_of title body language local in
        or_next
          (attempt (provider_retries max_retries in_chain provider) provider
            (if local then local_system_prompt else system_prompt) prompt prompt usage)
          (try_providers providers)

  -- The analysis, or `none` for ExtractionFailedError, with the usage in both cases.
  unfoldable pub analyze :
      String
      → String
      → List LlmProvider
      → ℕ
      → String
      → String
      → String
      → Option ArticleAnalysis × LlmUsage
  unfolding try_providers
  analyze system_prompt local_system_prompt providers max_retries title body language =
      try_providers system_prompt local_system_prompt title body language max_retries
        (ltb 1 (length providers)) providers no_usage
