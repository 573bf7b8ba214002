-- ===== src/Llm/Heuristic.antt =====
-- The analysis without a language model (apps/processor/newscrawl_processor/llm/heuristic.py).
use Prim.Native.String.{◌++◌ as str_append}
use Prim.Native.Char.{Char, code}
use news_crawl_intelligence.Prelude.{
  ℕ, zero, suc, ◌+◌, ◌≤◌, ltb, ◌==◌, Bool, String, List, [], Option, none, some, take, filter, any,
  count_if, length, length-take-le, str_eq, arith, if◌then◌else◌, if_cases,
}
use news_crawl_intelligence.Prelude.Text.{take_chars, contains}
use news_crawl_intelligence.Articles.Stored.{Sentiment}
use news_crawl_intelligence.Llm.{ArticleAnalysis}

-- `len(s)`
unfoldable pub str_length : String → ℕ
str_length String.[] = 0
str_length (String.◌∷◌ c s) = suc (str_length s)

-- `s.rsplit(" ", 1)[0]`: what stands before the last space, or all if there is none.
abbrev keep_if : Char → Option String → Option String
keep_if c none = if code c == 32 then some "" else none
keep_if c (some before) = some (String.◌∷◌ c before)

unfoldable pub before_last_space : String → Option String
before_last_space String.[] = none
before_last_space (String.◌∷◌ c s) = keep_if c (before_last_space s)

abbrev or_all : String → Option String → String
or_all s none = s
or_all s (some before) = before

unfoldable pub first_words : String → String
unfolding before_last_space
first_words s = or_all s (before_last_space s)

-- The word lists of the two languages.
pub record WordLists : Type 0 where
  pub pos_en : List String
  pub neg_en : List String
  pub pos_bn : List String
  pub neg_bn : List String

-- The library functions: `strip`, runs of white space to one space, the set of the tokens of a text
-- that are longer than two characters, in the order in which the set gives them, and the test of a keyword.
pub record WordLib : Type 0 where
  pub strip : String → String
  pub collapse : String → String
  pub tokens : String → List String
  pub is_keyword : String → Bool

unfoldable pub in_list : List String → String → Bool
unfolding any
in_list words t = any (λ w. str_eq w t) words

unfoldable pub sentiment_of : ℕ → ℕ → Sentiment
sentiment_of pos neg =
    if ltb (neg + 1) pos
    then Sentiment.positive
    else if ltb (pos + 1) neg
    then Sentiment.negative
    else Sentiment.neutral

abbrev fallback_summary : String
fallback_summary = "Article summary unavailable."

abbrev or_text : String → String → String
or_text a b = if str_eq a "" then b else a

module _ (words : WordLists) (lib : WordLib) where
  open lib use {strip, collapse, tokens, is_keyword}

  unfoldable pub positives : String → ℕ
  unfolding count_if in_list any contains
  positives blob =
      count_if (in_list words.pos_en) (tokens blob)
      + count_if (λ t. any (λ b. contains t b) words.pos_bn) (tokens blob)
      + count_if (λ b. contains blob b) words.pos_bn

  unfoldable pub negatives : String → ℕ
  unfolding count_if in_list contains
  negatives blob =
      count_if (in_list words.neg_en) (tokens blob) + count_if (λ b. contains blob b) words.neg_bn

  -- The start of the body, or the title where the body is short.
  unfoldable pub lead : String → String → String
  unfolding str_length first_words take_chars
  lead title body =
      let text = collapse (strip body) in
      let cleaned = if ltb (str_length text) 40 then strip title else text in
      if ltb 400 (str_length cleaned) then first_words (take_chars 400 cleaned) else cleaned

  -- A summary that is too short for the schema is replaced.
  unfoldable pub heuristic_summary : String → String → String
  unfolding lead str_length take_chars
  heuristic_summary title body =
      let first = lead title body in
      let second =
        if ltb (str_length first) 10
        then take_chars 200 (or_text (strip title) fallback_summary)
        else first in
      if ltb (str_length second) 10 then fallback_summary else second

  unfoldable pub heuristic_analysis : String → String → ArticleAnalysis
  unfolding positives negatives heuristic_summary sentiment_of filter take_chars
  heuristic_analysis title body =
      let blob = str_append (str_append title "\n") (take_chars 800 body) in
      record {
        summary = heuristic_summary title body;
        topics = [];
        entities = [];
        sentiment = sentiment_of (positives blob) (negatives blob);
        event_type = none;
        political_category = none;
        keywords = take 12 (filter is_keyword (take 12 (tokens blob)));
      }

take_chars-le : (n : ℕ) (s : String) → str_length (take_chars n s) ≤ n
unfolding take_chars str_length
take_chars-le zero s = omega arith
take_chars-le (suc n) String.[] = omega arith
take_chars-le (suc n) (String.◌∷◌ c s) = omega (arith, take_chars-le n s)

-- What stands before the last space is no longer than the text.
abbrev IsWithin : ℕ → Option String → Type 0
IsWithin n none = Unit
IsWithin n (some s) = str_length s ≤ n

keep_if-IsWithin :
    (c : Char) (n : ℕ) (o : Option String) → IsWithin n o → IsWithin (suc n) (keep_if c o)
unfolding str_length
keep_if-IsWithin c n none h =
    if_cases (IsWithin (suc n)) (code c == 32) (λ _. omega arith) (λ _. tt)
keep_if-IsWithin c n (some s) h = omega (arith, h)

before_last_space-le : (s : String) → IsWithin (str_length s) (before_last_space s)
unfolding before_last_space str_length
before_last_space-le String.[] = tt
before_last_space-le (String.◌∷◌ c s) =
    keep_if-IsWithin c (str_length s) (before_last_space s) (before_last_space-le s)

or_all-le :
    (n : ℕ) (s : String) (o : Option String)
    → str_length s ≤ n
    → IsWithin (str_length s) o
    → str_length (or_all s o) ≤ n
or_all-le n s none h k = h
or_all-le n s (some before) h k = omega (arith, h, k)

first_words-le : (n : ℕ) (s : String) → str_length s ≤ n → str_length (first_words s) ≤ n
unfolding first_words
first_words-le n s h = or_all-le n s (before_last_space s) h (before_last_space-le s)

module _ (words : WordLists) (lib : WordLib) where
  lead-le : (title body : String) → str_length (lead words lib title body) ≤ 400
  unfolding lead
  lead-le title body =
      let text = lib.collapse (lib.strip body) in
      let cleaned = if ltb (str_length text) 40 then lib.strip title else text in
      if_cases (λ s. str_length s ≤ 400) (ltb 400 (str_length cleaned))
        (λ _. first_words-le 400 (take_chars 400 cleaned) (take_chars-le 400 cleaned))
        (λ short. ground (arith, short))

  -- The analysis without a language model always fits the schema of an analysis, whatever the
  -- article is: the summary has 10 to 400 characters, and there are at most 12 keywords.
  pub heuristic_analysis-valid :
      (title body : String)
      → (10 ≤ str_length (heuristic_analysis words lib title body).summary)
        × (str_length (heuristic_analysis words lib title body).summary ≤ 400)
        × (length (heuristic_analysis words lib title body).keywords ≤ 12)
  unfolding heuristic_analysis heuristic_summary str_length
  heuristic_analysis-valid title body =
      let first = lead words lib title body in
      let other = take_chars 200 (or_text (lib.strip title) fallback_summary) in
      let second = if ltb (str_length first) 10 then other else first in
      let small : str_length second ≤ 400 =
        if_cases (λ s. str_length s ≤ 400) (ltb (str_length first) 10)
          (λ _. omega (arith, take_chars-le 200 (or_text (lib.strip title) fallback_summary)))
          (λ _. lead-le title body) in
      (
        if_cases (λ s. 10 ≤ str_length s) (ltb (str_length second) 10) (λ _. omega arith)
            (λ long. ground (arith, long)),
        if_cases (λ s. str_length s ≤ 400) (ltb (str_length second) 10) (λ _. omega arith)
            (λ _. small),
        length-take-le 12 _,
      )
