-- ===== src/Examples/Analysis.antt =====
-- One article, an outage of the model, and what the retention deletes.
use news_crawl_intelligence.Prelude.{
  ℕ, ◌+◌, ◌-◌, ◌*◌, ◌≤◌, ◌≡◌, refl, ltb, arith, true, false, String, List, [], ◌∷◌, Option, none,
  some, length, count_if, any, if◌then◌else◌,
}
use news_crawl_intelligence.Backoff.{hour}
use news_crawl_intelligence.Contracts.{Language}
use news_crawl_intelligence.Articles.Rows.{ExtractionMethod}
use news_crawl_intelligence.Articles.Stored.{StoredArticle}
use news_crawl_intelligence.Llm.{Reply, LlmProvider, no_usage, ReplyLib, analyze}
use news_crawl_intelligence.Llm.Attempts.{attempts_of, is_given, analyze_attempts}
use news_crawl_intelligence.Llm.Heuristic.{
  WordLists, WordLib, str_length, heuristic_analysis, heuristic_analysis-valid,
}
use news_crawl_intelligence.Llm.Persist.{AnalysisTables, NameLib, Names, link_names}
use news_crawl_intelligence.Llm.Relinked.{link_names-link_names}
use news_crawl_intelligence.Llm.Worker.{Extraction, extraction_of}
use news_crawl_intelligence.Retention.{Live, is_expired, purge_expired_articles}
use news_crawl_intelligence.Retention.Referred.{IsWhole, purge_expired_articles-IsWhole}
use news_crawl_intelligence.Retention.Purged.{
  IsPermuting, expired_of, purge_expired_articles_completes,
}

abbrev pub article_with : ℕ → Option ℕ → StoredArticle
article_with id duplicate_of = record {
  article = record {
    id = id;
    source_id = 1;
    url_id = none;
    canonical_url = "https://example.org/news";
    title = "A title";
    subtitle = none;
    author = none;
    category = none;
    language = Language.english;
    country = none;
    published_at = none;
    updated_at_source = none;
    body = "A body";
    summary = none;
    image_urls = [];
    tags = [];
    raw_html_location = some "s3://raw/1.html";
    content_hash = "h1";
    simhash = none;
    word_count = 2;
    extraction_method = ExtractionMethod.selectors;
    extraction_confidence = 10000;
    current_version = 1;
  };
  created_at = id * hour;
  sentiment = none;
  event_type = none;
  political_category = none;
  duplicate_of = duplicate_of;
}

-- Article 2 duplicates article 1, which is older.
abbrev two_articles : List StoredArticle
two_articles = article_with 1 none ∷ article_with 2 (some 1) ∷ []

abbrev live : Live
live = record { articles = two_articles; references = λ t. 1 ∷ 2 ∷ [] }

live-IsWhole : IsWhole live
unfolding any
live-IsWhole = record { rows = λ t. (refl, (refl, tt)); duplicates = (tt, (refl, tt)) }

abbrev as_they_are : List StoredArticle → List StoredArticle
as_they_are rows = rows

as_they_are-IsPermuting : IsPermuting as_they_are
as_they_are-IsPermuting p rows = refl

purge_expired_articles-IsWhole_example :
    IsWhole (purge_expired_articles as_they_are length (26 * hour) 24 200 500 live).0
purge_expired_articles-IsWhole_example =
    purge_expired_articles-IsWhole as_they_are length (26 * hour) 24 200 500 live live-IsWhole

one_expired : expired_of (26 * hour - 24 * hour) live ≤ 200 * 500
unfolding count_if is_expired
one_expired = omega arith

purge_expired_articles_completes_example :
    expired_of
      (26 * hour - 24 * hour)
      (purge_expired_articles as_they_are length (26 * hour) 24 200 500 live).0
    ≡ 0
purge_expired_articles_completes_example =
    purge_expired_articles_completes as_they_are as_they_are-IsPermuting length (26 * hour) 24 200
      500 live (omega arith) one_expired

abbrev same : String → String
same text = text

-- A chain of a provider out of quota and a local model that only talks.
abbrev cloud : LlmProvider
cloud = record { name = "gemini"; complete = λ n system prompt. Reply.provider_error false "429" }

abbrev local : LlmProvider
local = record {
  name = "ollama";
  complete = λ n system prompt. Reply.completion (record {
    provider = "ollama";
    model = "tiny";
    text = some "Sure!";
    prompt_tokens = 30;
    completion_tokens = 2;
    cost = 0;
  });
}

abbrev reply_lib : ReplyLib ℕ
reply_lib = record {
  strip = same;
  strip_fences = same;
  loads = λ text. none;
  json_block = λ text. none;
  validate = λ members. none;
}

-- One attempt of each, and two errors.
outage : (analyze reply_lib "" "" (cloud ∷ local ∷ []) 3 "A title" "A body" "en").1.attempts ≡ 2
unfolding analyze
outage = refl

analyze_attempts_example :
    ((analyze reply_lib "" "" (cloud ∷ local ∷ []) 3 "A title" "A body" "en").1.attempts
      ≤ attempts_of 3 (ltb 1 2) (cloud ∷ local ∷ []))
    × ((analyze reply_lib "" "" (cloud ∷ local ∷ []) 3 "A title" "A body" "en").1.attempts
        ≡ length (analyze reply_lib "" "" (cloud ∷ local ∷ []) 3 "A title" "A body" "en").1.errors
          + (if is_given (analyze reply_lib "" "" (cloud ∷ local ∷ []) 3 "A title" "A body" "en").0
              then 1
              else 0))
analyze_attempts_example =
    analyze_attempts reply_lib "" "" "A title" "A body" "en" (cloud ∷ local ∷ []) 3

abbrev words : WordLists
words = record { pos_en = "victory" ∷ []; neg_en = "crisis" ∷ []; pos_bn = []; neg_bn = [] }

abbrev word_lib : WordLib
word_lib = record {
  strip = same;
  collapse = same;
  tokens = λ text. "title" ∷ [];
  is_keyword = λ token. true;
}

heuristic_analysis-valid_example :
    (10 ≤ str_length (heuristic_analysis words word_lib "A title" "A body").summary)
    × (str_length (heuristic_analysis words word_lib "A title" "A body").summary ≤ 400)
    × (length (heuristic_analysis words word_lib "A title" "A body").keywords ≤ 12)
heuristic_analysis-valid_example = heuristic_analysis-valid words word_lib "A title" "A body"

abbrev no_names : Names
no_names = record { rows = []; links = []; next_id = 1 }

link_names-link_names_example :
    link_names 1
      (("Dhaka", "dhaka") ∷ ("DHAKA", "dhaka") ∷ [])
      []
      (link_names 1 (("Dhaka", "dhaka") ∷ ("DHAKA", "dhaka") ∷ []) [] no_names)
    ≡ link_names 1 (("Dhaka", "dhaka") ∷ ("DHAKA", "dhaka") ∷ []) [] no_names
link_names-link_names_example =
    link_names-link_names 1 (("Dhaka", "dhaka") ∷ ("DHAKA", "dhaka") ∷ []) no_names

abbrev name_lib : NameLib
name_lib = record { normalize_text = same; lower = same; topic_slug = same }

abbrev analysis_tables : AnalysisTables
analysis_tables = record {
  articles = two_articles;
  entities = λ type. no_names;
  topics = no_names;
  extractions = [];
}

-- All providers fail.
abbrev fails : String → String → Extraction
fails title body = extraction_of (none, no_usage)
