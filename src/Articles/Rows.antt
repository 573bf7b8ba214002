-- ===== src/Articles/Rows.antt =====
-- The tables of articles (apps/api/newscrawl_api/models/article.py), less the columns that the language
-- model and the embedding stage fill. A confidence is in ten-thousandths.
use news_crawl_intelligence.Prelude.{ℕ, Bool, String, List, Option}
use news_crawl_intelligence.Prelude.Int.{ℤ}
use news_crawl_intelligence.Contracts.{Language}

pub data ExtractionMethod : Type 0 where
  selectors json_ld opengraph readability llm : ExtractionMethod

pub record Article : Type 0 where
  pub id : ℕ
  pub source_id : ℕ
  pub url_id : Option ℕ
  pub canonical_url : String
  pub title : String
  pub subtitle : Option String
  pub author : Option String
  pub category : Option String
  pub language : Language
  pub country : Option String
  pub published_at : Option ℕ
  pub updated_at_source : Option ℕ
  pub body : String
  pub summary : Option String
  pub image_urls : List String
  pub tags : List String
  pub raw_html_location : Option String
  pub content_hash : String
  pub simhash : Option ℤ
  pub word_count : ℕ
  pub extraction_method : ExtractionMethod
  pub extraction_confidence : ℕ
  pub current_version : ℕ

pub record ArticleVersion : Type 0 where
  pub article_id : ℕ
  pub version : ℕ
  pub content_hash : String
  pub title : String
  pub subtitle : Option String
  pub author : Option String
  pub category : Option String
  pub published_at : Option ℕ
  pub body : String
  pub title_changed : Bool
  pub body_changed : Bool
  pub author_changed : Bool
  pub published_at_changed : Bool
  pub category_changed : Bool
  pub metadata_changed : Bool

-- The cleaned article that the pipeline passes on.
pub record CleanedArticle : Type 0 where
  pub title : String
  pub body : String
  pub language : Language
  pub content_hash : String
  pub word_count : ℕ
  pub subtitle : Option String
  pub author : Option String
  pub category : Option String
  pub summary : Option String
  pub published_at : Option ℕ
  pub updated_at : Option ℕ
  pub image_urls : List String
  pub tags : List String
  pub extraction_method : String
  pub extraction_confidence : ℕ
