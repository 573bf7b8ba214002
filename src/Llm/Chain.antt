-- ===== src/Llm/Chain.antt =====
-- The chain of providers that the settings name (apps/processor/newscrawl_processor/llm/providers.py).
-- A provider is its constructor with the arguments; their clients are packages. Timeouts are milliseconds.
use mathlib.Core.Path.{sym, ap, subst}
use news_crawl_intelligence.Prelude.{
  ℕ, ◌+◌, ltb, not, ◌&&◌, ◌||◌, ◌≡◌, refl, Bool, true, false, String, List, [], ◌∷◌, Option, none,
  some, map, filter, any, count_if, str_eq, eq_iff, arith, if_cases, if◌then◌else◌,
}

pub record LlmSettings : Type 0 where
  pub llm_provider : String
  pub llm_fallback_providers : String
  pub llm_timeout : ℕ
  pub gemini_api_key : String
  pub gemini_model : String
  pub openai_api_key : String
  pub openai_model : String
  pub anthropic_api_key : String
  pub anthropic_model : String
  pub deepseek_api_key : String
  pub deepseek_model : String
  pub deepseek_base_url : String
  pub ollama_base_url : String
  pub ollama_model : String

pub data Provider : Type 0 where
  gemini openai anthropic : (api_key model : String) (timeout : ℕ) → Provider
  deepseek : (api_key model : String) (timeout : ℕ) (base_url : String) → Provider
  ollama : (base_url model : String) (timeout : ℕ) → Provider

abbrev pub name_of : Provider → String
name_of (Provider.gemini _ _ _) = "gemini"
name_of (Provider.openai _ _ _) = "openai"
name_of (Provider.anthropic _ _ _) = "anthropic"
name_of (Provider.deepseek _ _ _ _) = "deepseek"
name_of (Provider.ollama _ _ _) = "ollama"

-- _OLLAMA_MIN_TIMEOUT_SECONDS
abbrev ollama_min_timeout : ℕ
ollama_min_timeout = 120000

abbrev is_text : String → Bool
is_text s = not (str_eq s "")

-- `none` is a ValueError.
unfoldable pub build_provider : LlmSettings → String → Option Provider
build_provider s name =
    if str_eq name "gemini"
    then some (Provider.gemini s.gemini_api_key s.gemini_model s.llm_timeout)
    else if str_eq name "openai"
    then some (Provider.openai s.openai_api_key s.openai_model s.llm_timeout)
    else if str_eq name "anthropic"
    then some (Provider.anthropic s.anthropic_api_key s.anthropic_model s.llm_timeout)
    else if str_eq name "deepseek"
    then some (
        Provider.deepseek s.deepseek_api_key s.deepseek_model s.llm_timeout
          (if is_text s.deepseek_base_url then s.deepseek_base_url else "https://api.deepseek.com"))
    else if str_eq name "ollama"
    then some (
        Provider.ollama s.ollama_base_url s.ollama_model
          (if ltb s.llm_timeout ollama_min_timeout then ollama_min_timeout else s.llm_timeout))
    else none

abbrev add_built : Option Provider → Option (List Provider) → Option (List Provider)
add_built none chain = none
add_built (some p) none = none
add_built (some p) (some chain) = some (p ∷ chain)

-- The provider was built, under the name.
abbrev IsBuilt : String → Option Provider → Type 0
IsBuilt name none = true ≡ false
IsBuilt name (some p) = name_of p ≡ name

-- An empty chain is a ValueError.
abbrev not_empty : Option (List Provider) → Option (List Provider)
not_empty none = none
not_empty (some []) = none
not_empty (some (p ∷ chain)) = some (p ∷ chain)

abbrev or_empty : Option (List Provider) → List Provider
or_empty none = []
or_empty (some chain) = chain

-- The chain was made, and the name is in it that often.
abbrev IsCounted : String → ℕ → Option (List Provider) → Type 0
IsCounted n k none = true ≡ false
IsCounted n k (some chain) = count_if (λ p. str_eq (name_of p) n) chain ≡ k

add_built-IsCounted :
    (n name : String) (k : ℕ) (p : Option Provider) (chain : Option (List Provider))
    → IsBuilt name p
    → IsCounted n k chain
    → IsCounted n ((if str_eq name n then 1 else 0) + k) (add_built p chain)
unfolding count_if
add_built-IsCounted n name k none chain built h = absurd (ground (arith, built))
add_built-IsCounted n name k (some p) none built h = absurd (ground (arith, h))
add_built-IsCounted n name k (some p) (some chain) built h = rw (built, h) refl

not_empty-IsCounted :
    (n : String) (k : ℕ) (chain : Option (List Provider))
    → IsCounted n k chain
    → count_if (λ p. str_eq (name_of p) n) (or_empty (not_empty chain)) ≡ k
unfolding count_if
not_empty-IsCounted n k none h = absurd (ground (arith, h))
not_empty-IsCounted n k (some []) h = h
not_empty-IsCounted n k (some (p ∷ chain)) h = h

-- `strip`, and `split` at the commas.
module _ (strip : String → String) (split : String → List String) (s : LlmSettings) where
  unfoldable pub provider_is_configured : String → Bool
  provider_is_configured name =
      if str_eq name "gemini"
      then is_text (strip s.gemini_api_key)
      else if str_eq name "openai"
      then is_text (strip s.openai_api_key)
      else if str_eq name "anthropic"
      then is_text (strip s.anthropic_api_key)
      else if str_eq name "deepseek"
      then is_text (strip s.deepseek_api_key)
      else if str_eq name "ollama"
      then is_text (strip s.ollama_base_url)
      else false

  unfoldable pub provider_names : List String
  unfolding filter
  provider_names =
      strip s.llm_provider
      ∷ map strip (filter (λ n. is_text (strip n)) (split s.llm_fallback_providers))

  -- The loop over the names, with those that it has seen.
  unfoldable pub chain_of : List String → List String → Option (List Provider)
  unfolding build_provider provider_is_configured any
  chain_of seen [] = some []
  chain_of seen (name ∷ names) =
      let rest = chain_of seen names in
      let next = chain_of (name ∷ seen) names in
      if str_eq name "" || any (λ n. str_eq n name) seen
      then rest
      else if not (provider_is_configured name)
      then next
      else add_built (build_provider s name) next

  unfoldable pub build_provider_chain : Option (List Provider)
  unfolding chain_of provider_names
  build_provider_chain = not_empty (chain_of [] provider_names)

  -- A provider that is configured can be built.
  build_provider-IsBuilt :
      (name : String) → provider_is_configured name ≡ true → IsBuilt name (build_provider s name)
  unfolding build_provider provider_is_configured
  build_provider-IsBuilt name h =
      if_cases (IsBuilt name) (str_eq name "gemini") (λ e. sym ((eq_iff name "gemini").0 e))
        (λ d0.
          if_cases (IsBuilt name) (str_eq name "openai") (λ e. sym ((eq_iff name "openai").0 e))
            (λ d1.
              if_cases (IsBuilt name) (str_eq name "anthropic")
                (λ e. sym ((eq_iff name "anthropic").0 e))
                (λ d2.
                  if_cases (IsBuilt name) (str_eq name "deepseek")
                    (λ e. sym ((eq_iff name "deepseek").0 e))
                    (λ d3.
                      if_cases (IsBuilt name) (str_eq name "ollama")
                        (λ e. sym ((eq_iff name "ollama").0 e))
                        (λ d4. ground (arith, h, d0, d1, d2, d3, d4))))))

  configured-same :
      (name n : String)
      → str_eq name n ≡ true
      → provider_is_configured name ≡ provider_is_configured n
  configured-same name n e = ap provider_is_configured ((eq_iff name n).0 e)

  any-same :
      (name n : String) (seen : List String)
      → str_eq name n ≡ true
      → any (λ m. str_eq m name) seen ≡ any (λ m. str_eq m n) seen
  any-same name n seen e = ap (λ o. any (λ m. str_eq m o) seen) ((eq_iff name n).0 e)

  empty_unconfigured : (name : String) → str_eq name "" ≡ true → provider_is_configured name ≡ false
  unfolding provider_is_configured
  empty_unconfigured name e = rw ((eq_iff name "").0 e) refl

  -- How often a name is in the chain: once, if it is new and is configured.
  abbrev occurrences : String → List String → List String → ℕ
  occurrences n seen names =
      if any (λ m. str_eq m n) names && provider_is_configured n && not (any (λ m. str_eq m n) seen)
      then 1
      else 0

  chain_of-IsCounted :
      (n : String) (seen names : List String)
      → IsCounted n (occurrences n seen names) (chain_of seen names)
  unfolding chain_of any count_if
  chain_of-IsCounted n seen [] = refl
  chain_of-IsCounted n seen (name ∷ names) =
      let conf = configured-same name n in
      let same = any-same name n seen in
      let empty = empty_unconfigured name in
      let k = occurrences n seen (name ∷ names) in
      if_cases (IsCounted n k) (str_eq name "" || any (λ m. str_eq m name) seen)
        (λ skip.
          subst (λ j. IsCounted n j (chain_of seen names)) (ground (arith, skip, conf, same, empty))
            (chain_of-IsCounted n seen names))
        (λ new.
          if_cases (IsCounted n k) (not (provider_is_configured name))
            (λ out.
              subst (λ j. IsCounted n j (chain_of (name ∷ seen) names)) (ground (arith, out, conf))
                (chain_of-IsCounted n (name ∷ seen) names))
            (λ inside.
              subst
                (λ j.
                  IsCounted n j (add_built (build_provider s name) (chain_of (name ∷ seen) names)))
                (ground (arith, inside, new, conf, same))
                (add_built-IsCounted n name (occurrences n (name ∷ seen) names) _ _
                  (build_provider-IsBuilt name (ground (arith, inside)))
                  (chain_of-IsCounted n (name ∷ seen) names))))

  -- Each provider that the settings name, and that is configured, is in the chain once, and no other. The
  -- chain is refused only if there is no such provider.
  build_provider_chain_once :
      (n : String)
      → count_if (λ p. str_eq (name_of p) n) (or_empty build_provider_chain)
        ≡ (if any (λ m. str_eq m n) provider_names && provider_is_configured n then 1 else 0)
  unfolding build_provider_chain any
  build_provider_chain_once n = not_empty-IsCounted n _ (chain_of [] provider_names) (
      subst (λ k. IsCounted n k (chain_of [] provider_names)) (ground arith)
        (chain_of-IsCounted n [] provider_names))
