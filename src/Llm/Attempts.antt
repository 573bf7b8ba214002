-- ===== src/Llm/Attempts.antt =====
-- The attempts of an analysis: how many there are, and that one good provider is enough.
use Prim.Native.String.{◌++◌ as str_append}
use news_crawl_intelligence.Prelude.{
  ℕ, zero, suc, ◌+◌, ◌≤◌, ◌≡◌, ltb, Bool, true, false, String, List, [], ◌∷◌, ◌++◌, Option, none,
  some, length, length-append, arith, if◌then◌else◌, if_cases,
}
use news_crawl_intelligence.Llm.{
  ArticleAnalysis, LlmCompletion, Reply, completion, provider_error, LlmProvider, LlmUsage,
  no_usage, corrective_note, failed_with, ReplyLib, read_reply, add, on_reply, after_reply, attempt,
  provider_retries, try_providers, analyze, or_next,
}

abbrev pub is_given : Option ArticleAnalysis → Bool
is_given none = false
is_given (some a) = true

-- The most attempts that a chain makes.
abbrev pub attempts_of : ℕ → Bool → List LlmProvider → ℕ
attempts_of max_retries in_chain [] = 0
attempts_of max_retries in_chain (p ∷ providers) =
    provider_retries max_retries in_chain p + attempts_of max_retries in_chain providers

-- From one usage to a result: at most `budget` attempts, of which each has left an error, but the one that
-- gave the analysis.
record IsCounted (budget : ℕ) (usage : LlmUsage) (r : Option ArticleAnalysis × LlmUsage)
    : Type 0 where
  within : r.1.attempts ≤ usage.attempts + budget
  onwards : usage.attempts ≤ r.1.attempts
  explained :
      r.1.attempts + length usage.errors
      ≡ usage.attempts + length r.1.errors + (if is_given r.0 then 1 else 0)

abbrev Again : Type 0
Again = String → LlmUsage → Option ArticleAnalysis × LlmUsage

module _ {V : Type 0} (lib : ReplyLib V) where
  after_reply-IsCounted :
      (n : ℕ) (again : Again) (user_prompt prompt : String) (c : LlmCompletion) (usage : LlmUsage)
      (analysis : Option ArticleAnalysis)
      → ((p : String) (u : LlmUsage) → IsCounted n u (again p u))
      → IsCounted (suc n) usage (
          after_reply user_prompt prompt again
            (add c (record usage { attempts = usage.attempts + 1 }))
            analysis)
  unfolding add
  after_reply-IsCounted n again user_prompt prompt c usage none h =
      let counted = add c (record usage { attempts = usage.attempts + 1 }) in
      let rest = h (str_append user_prompt corrective_note) (failed_with "malformed" counted) in
      let one = length-append usage.errors ("malformed" ∷ []) in
      record {
        within = omega (arith, rest.within);
        onwards = omega (arith, rest.onwards);
        explained = omega (arith, rest.explained, one);
      }
  after_reply-IsCounted n again user_prompt prompt c usage (some analysis) h = record {
    within = omega arith;
    onwards = omega arith;
    explained = omega arith;
  }

  on_reply-IsCounted :
      (n : ℕ) (again : Again) (user_prompt prompt : String) (usage : LlmUsage) (reply : Reply)
      → ((p : String) (u : LlmUsage) → IsCounted n u (again p u))
      → IsCounted (suc n) usage (
          on_reply lib user_prompt prompt again
            (record usage { attempts = usage.attempts + 1 })
            reply)
  unfolding on_reply
  on_reply-IsCounted n again user_prompt prompt usage (completion c) h =
      after_reply-IsCounted n again user_prompt prompt c usage (read_reply lib c) h
  on_reply-IsCounted n again user_prompt prompt usage (provider_error retryable error) h =
      let failed = record usage {
        attempts = usage.attempts + 1;
        errors = usage.errors ++ error ∷ [];
      } in
      let rest = h prompt failed in
      let one = length-append usage.errors (error ∷ []) in
      if_cases (IsCounted (suc n) usage) retryable
        (λ _. record {
          within = omega (arith, rest.within);
          onwards = omega (arith, rest.onwards);
          explained = omega (arith, rest.explained, one);
        })
        (λ _. record {
          within = omega arith;
          onwards = omega arith;
          explained = omega (arith, one);
        })

  attempt-IsCounted :
      (retries : ℕ) (provider : LlmProvider) (system user_prompt prompt : String) (usage : LlmUsage)
      → IsCounted retries usage (attempt lib retries provider system user_prompt prompt usage)
  unfolding attempt
  attempt-IsCounted zero provider system user_prompt prompt usage = record {
    within = omega arith;
    onwards = omega arith;
    explained = omega arith;
  }
  attempt-IsCounted (suc retries) provider system user_prompt prompt usage =
      on_reply-IsCounted retries (attempt lib retries provider system user_prompt) user_prompt
        prompt usage (provider.complete (usage.attempts + 1) system prompt)
        (attempt-IsCounted retries provider system user_prompt)

  or_next-IsCounted :
      (m n : ℕ) (usage : LlmUsage) (r : Option ArticleAnalysis × LlmUsage)
      (next : LlmUsage → Option ArticleAnalysis × LlmUsage)
      → IsCounted m usage r
      → ((u : LlmUsage) → IsCounted n u (next u))
      → IsCounted (m + n) usage (or_next r next)
  or_next-IsCounted m n usage (none, u) next h k =
      let rest = k u in
      record {
        within = omega (arith, h.within, rest.within);
        onwards = omega (arith, h.onwards, rest.onwards);
        explained = omega (arith, h.explained, rest.explained);
      }
  or_next-IsCounted m n usage (some analysis, u) next h k = record {
    within = omega (arith, h.within);
    onwards = h.onwards;
    explained = h.explained;
  }

  module _ (system_prompt local_system_prompt title body language : String) (max_retries : ℕ)
      (in_chain : Bool) where
    abbrev chain : List LlmProvider → LlmUsage → Option ArticleAnalysis × LlmUsage
    chain providers usage =
        try_providers lib system_prompt local_system_prompt title body language max_retries in_chain
          providers usage

    try_providers-IsCounted :
        (providers : List LlmProvider) (usage : LlmUsage)
        → IsCounted (attempts_of max_retries in_chain providers) usage (chain providers usage)
    unfolding try_providers
    try_providers-IsCounted [] usage = record {
      within = omega arith;
      onwards = omega arith;
      explained = omega arith;
    }
    try_providers-IsCounted (p ∷ providers) usage =
        or_next-IsCounted (provider_retries max_retries in_chain p)
          (attempts_of max_retries in_chain providers) usage _ (chain providers)
          (attempt-IsCounted (provider_retries max_retries in_chain p) p _ _ _ usage)
          (try_providers-IsCounted providers)

  -- An analysis makes at most as many attempts as the retries of all providers together, with a
  -- single one for Ollama in a chain; and each attempt is accounted for, by an error, or by the
  -- analysis that ends it.
  pub analyze_attempts :
      (system_prompt local_system_prompt title body language : String)
      (providers : List LlmProvider) (max_retries : ℕ)
      → ((analyze lib system_prompt local_system_prompt providers max_retries title body
            language).1.attempts
          ≤ attempts_of max_retries (ltb 1 (length providers)) providers)
        × ((analyze lib system_prompt local_system_prompt providers max_retries title body
              language).1.attempts
            ≡ length
                (analyze lib system_prompt local_system_prompt providers max_retries title body
                  language).1.errors
              + (if is_given
                    (analyze lib system_prompt local_system_prompt providers max_retries title body
                      language).0
                  then 1
                  else 0))
  unfolding analyze
  analyze_attempts system_prompt local_system_prompt title body language providers max_retries =
      let counted =
        try_providers-IsCounted system_prompt local_system_prompt title body language max_retries
          (ltb 1 (length providers)) providers no_usage in
      (omega (arith, counted.within), omega (arith, counted.explained))
