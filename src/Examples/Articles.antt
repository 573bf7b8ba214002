-- ===== src/Examples/Articles.antt =====
-- One article that is published, corrected, and delivered twice.
use news_crawl_intelligence.Prelude.{
  ℕ, ◌≡◌, refl, ◌&&◌, ltb, true, false, String, List, [], ◌∷◌, none, some, any, count_if, arith,
}
use news_crawl_intelligence.Prelude.Int.{ℤ, pos, ◌+ℤ◌}
use news_crawl_intelligence.Contracts.{Language}
use news_crawl_intelligence.Simhash.{to_unsigned64, hamming_distance, bit_count}
use news_crawl_intelligence.Simhash.Signed.{sql_band}
use news_crawl_intelligence.Articles.Rows.{Article, CleanedArticle, ExtractionMethod}
use news_crawl_intelligence.Articles.Dedup.{DedupStage, duplicate, distance_to, find_near, is_near}
use news_crawl_intelligence.Articles.Nearest.{is_at}
use news_crawl_intelligence.Articles.Recall.{IsSelect, is_eligible, find_near_nearest}
use news_crawl_intelligence.Articles.Persist.{
  Action, Store, Origin, PersistResult, persist, new_article, create, article_simhash,
}
use news_crawl_intelligence.Articles.Versions.{IsVersioned}
use news_crawl_intelligence.Articles.History.{
  Message, no_articles, persist_all, persist_all-IsVersioned,
}
use news_crawl_intelligence.Articles.Again.{again, persist_twice}

abbrev pub as_stored : List Article → List Article
as_stored rows = rows

as_stored-IsSelect : IsSelect as_stored
as_stored-IsSelect = record { counts = λ p rows. refl }

abbrev pub one_word : String → List String
one_word text = text ∷ []

abbrev pub count_words : List String → ℕ
count_words [] = 0
count_words (w ∷ ws) = 5

abbrev cleaned : String → String → CleanedArticle
cleaned body hash = record {
  title = "A title";
  body = body;
  language = Language.english;
  content_hash = hash;
  word_count = 4;
  subtitle = none;
  author = none;
  category = none;
  summary = none;
  published_at = none;
  updated_at = none;
  image_urls = [];
  tags = [];
  extraction_method = "selectors";
  extraction_confidence = 9000;
}

abbrev pub origin : Origin
origin = record {
  source_id = 1;
  canonical_url = "https://example.org/a";
  url_id = some 3;
  raw_html_location = none;
  country = none;
}

abbrev published : Message
published = record { today = 100; cleaned = cleaned "The first text" "h1"; origin = origin }

abbrev corrected : Message
corrected = record { today = 101; cleaned = cleaned "The second text" "h2"; origin = origin }

persist_all-IsVersioned_example :
    IsVersioned
      (persist_all one_word count_words as_stored 3 (published ∷ corrected ∷ []) no_articles)
persist_all-IsVersioned_example =
    persist_all-IsVersioned one_word count_words as_stored 3 (published ∷ corrected ∷ [])

abbrev article_at : ℕ → ℤ → Article
article_at id hash = new_article hash (cleaned "A text" "h") origin ExtractionMethod.selectors id

abbrev two_articles : List Article
two_articles = article_at 0 (pos 1023) ∷ article_at 1 (pos 8) ∷ []

find_near_nearest_example :
    (id : ℕ) × (d : ℕ) × (find_near as_stored 3 (pos 9) none two_articles
      ≡ duplicate id DedupStage.simhash d)
    × (any (λ a. is_eligible none a && is_at (to_unsigned64 (pos 9)) id d a) two_articles ≡ true)
    × (any
          (λ a. is_eligible none a && ltb (distance_to (to_unsigned64 (pos 9)) a.simhash) d)
          two_articles
        ≡ false)
unfolding new_article count_if any is_near hamming_distance bit_count to_unsigned64 sql_band
find_near_nearest_example =
    find_near_nearest as_stored as_stored-IsSelect none 3 (pos 9) two_articles (omega arith)
      ((omega arith, omega arith), ((omega arith, omega arith), tt)) (omega arith) refl

abbrev pub first_text : CleanedArticle
first_text = cleaned "The first text" "h1"

abbrev pub first_outcome : Store × PersistResult
first_outcome =
    create 100
      (new_article (article_simhash one_word count_words first_text.title first_text.body)
        first_text origin ExtractionMethod.selectors 0)
      no_articles

pub first_delivery :
    persist one_word count_words as_stored 3 100 first_text origin no_articles
    ≡ some (first_outcome.0, first_outcome.1)
unfolding persist ◌+ℤ◌
first_delivery = refl

persist_twice_example :
    persist one_word count_words as_stored 3 100 first_text origin first_outcome.0
    ≡ some (first_outcome.0, again first_outcome.1)
persist_twice_example =
    persist_twice one_word count_words as_stored 3 100 first_text origin no_articles first_outcome.0
      first_outcome.1 first_delivery

-- The second delivery is reported unchanged.
second_delivery : (again first_outcome.1).action ≡ Action.unchanged
unfolding again create
second_delivery = refl
