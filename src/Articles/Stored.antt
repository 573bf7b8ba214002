-- ===== src/Articles/Stored.antt =====
-- A stored article with its time of creation and the columns that the later stages fill
-- (apps/api/newscrawl_api/models/article.py).
use news_crawl_intelligence.Prelude.{ℕ, String, Option}
use news_crawl_intelligence.Articles.Rows.{Article}

pub data Sentiment : Type 0 where
  positive negative neutral mixed : Sentiment

pub record StoredArticle : Type 0 where
  pub article : Article
  pub created_at : ℕ
  pub sentiment : Option Sentiment
  pub event_type : Option String
  pub political_category : Option String
  pub duplicate_of : Option ℕ
