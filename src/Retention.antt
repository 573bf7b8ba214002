-- ===== src/Retention.antt =====
-- The retention of articles (apps/processor/newscrawl_processor/retention.py, run_retention_worker.py):
-- articles that are older than the window are deleted in batches, with the rows that refer to them.
pub mod RawHtml
pub mod Referred
pub mod Purged
pub mod Stats
use news_crawl_intelligence.Prelude.{
  ℕ, zero, suc, ◌+◌, ◌-◌, ◌*◌, ltb, max, ◌==◌, not, Bool, true, false, String, List, [], ◌∷◌,
  Option, none, some, map, any, filter, take, length, count_if, str_eq, if◌then◌else◌,
}
use news_crawl_intelligence.Contracts.{Language}
use news_crawl_intelligence.Articles.Rows.{Article}
use news_crawl_intelligence.Articles.Stored.{StoredArticle}
use news_crawl_intelligence.Backoff.{hour}

-- The tables whose rows refer to an article.
pub data RefTable : Type 0 where
  article_embedding article_entity article_topic article_version llm_extraction processing_job :
      RefTable

-- The articles, and for each table the articles that its rows refer to.
pub record Live : Type 0 where
  pub articles : List StoredArticle
  pub references : RefTable → List ℕ

unfoldable pub has : ℕ → List ℕ → Bool
unfolding any
has id ids = any (λ i. i == id) ids

abbrev pub id_of : StoredArticle → ℕ
id_of a = a.article.id

-- UPDATE articles SET duplicate_of = NULL WHERE duplicate_of IN `ids`
abbrev kept_duplicate : List ℕ → Option ℕ → Option ℕ
kept_duplicate ids none = none
kept_duplicate ids (some id) = if has id ids then none else some id

unfoldable pub unlinked : List ℕ → StoredArticle → StoredArticle
unfolding has
unlinked ids a = record a { duplicate_of = kept_duplicate ids a.duplicate_of }

abbrev same_table : RefTable → RefTable → Bool
same_table RefTable.article_embedding RefTable.article_embedding = true
same_table RefTable.article_entity RefTable.article_entity = true
same_table RefTable.article_topic RefTable.article_topic = true
same_table RefTable.article_version RefTable.article_version = true
same_table RefTable.llm_extraction RefTable.llm_extraction = true
same_table RefTable.processing_job RefTable.processing_job = true
same_table _ _ = false

-- DELETE FROM `table` WHERE article_id IN `ids`
unfoldable pub delete_from : List ℕ → RefTable → (RefTable → List ℕ) → RefTable → List ℕ
unfolding filter has
delete_from ids table references t =
    if same_table table t then filter (λ id. not (has id ids)) (references t) else references t

-- The statements of one batch, in their order.
abbrev dependents : List RefTable
dependents =
    RefTable.article_embedding ∷ RefTable.article_entity ∷ RefTable.article_topic
    ∷ RefTable.article_version ∷ RefTable.llm_extraction ∷ RefTable.processing_job ∷ []

unfoldable pub delete_dependents : List ℕ → List RefTable → (RefTable → List ℕ) → RefTable → List ℕ
unfolding delete_from
delete_dependents ids [] references = references
delete_dependents ids (table ∷ tables) references =
    delete_dependents ids tables (delete_from ids table references)

unfoldable pub delete_batch : List ℕ → Live → Live
unfolding unlinked delete_dependents filter has
delete_batch ids live = record {
  articles = filter (λ a. not (has (id_of a) ids)) (map (unlinked ids) live.articles);
  references = delete_dependents ids dependents live.references;
}

unfoldable pub is_expired : ℕ → StoredArticle → Bool
is_expired cutoff a = ltb a.created_at cutoff

-- What a purge counts; a Counter is the function from a key to its number.
pub record Tally : Type 0 where
  pub total_deleted : ℕ
  pub batches : ℕ
  pub raw_html_deleted : ℕ
  pub by_language : Language → ℕ
  pub by_source : ℕ → ℕ

abbrev pub nothing_deleted : Tally
nothing_deleted = record {
  total_deleted = 0;
  batches = 0;
  raw_html_deleted = 0;
  by_language = λ l. 0;
  by_source = λ s. 0;
}

abbrev pub same_language : Language → Language → Bool
same_language Language.bangla Language.bangla = true
same_language Language.english Language.english = true
same_language Language.unknown Language.unknown = true
same_language _ _ = false

-- The locations that are there and not empty, in the order of the rows.
abbrev and_location : Option String → List String → List String
and_location none locations = locations
and_location (some location) locations =
    if str_eq location "" then locations else location ∷ locations

unfoldable pub locations_of : List StoredArticle → List String
locations_of [] = []
locations_of (a ∷ rows) = and_location a.article.raw_html_location (locations_of rows)

-- `order_by` is the database's sort by time of creation; `delete_raw_html` deletes the raw pages, and
-- answers how many.
module _ (order_by : List StoredArticle → List StoredArticle)
    (delete_raw_html : List String → ℕ) where
  unfoldable pub batch_of : ℕ → ℕ → List StoredArticle → List StoredArticle
  unfolding filter is_expired
  batch_of cutoff batch_size articles =
      take batch_size (order_by (filter (is_expired cutoff) articles))

  unfoldable pub tally_batch : List StoredArticle → Tally → Tally
  unfolding count_if locations_of
  tally_batch rows t = record {
    total_deleted = t.total_deleted + length rows;
    batches = t.batches + 1;
    raw_html_deleted = t.raw_html_deleted + delete_raw_html (locations_of rows);
    by_language = λ l. t.by_language l + count_if (λ a. same_language a.article.language l) rows;
    by_source = λ s. t.by_source s + count_if (λ a. a.article.source_id == s) rows;
  }

  -- The loop over at most `max_batches` batches.
  unfoldable pub purge : ℕ → ℕ → ℕ → Live → Tally → Live × Tally
  unfolding batch_of delete_batch tally_batch
  purge cutoff batch_size zero live t = (live, t)
  purge cutoff batch_size (suc max_batches) live t =
      let rows = batch_of cutoff batch_size live.articles in
      let rest =
        purge cutoff batch_size max_batches (delete_batch (map id_of rows) live)
          (tally_batch rows t) in
      if length rows == 0 then (live, t) else rest

  unfoldable pub purge_expired_articles : ℕ → ℕ → ℕ → ℕ → Live → Live × Tally
  unfolding purge
  purge_expired_articles now retention_hours batch_size max_batches live =
      purge (now - retention_hours * hour) batch_size max_batches live nothing_deleted

-- The pause between two cycles, in seconds.
unfoldable pub interval_seconds : ℕ → ℕ → ℕ
interval_seconds interval_minutes interval_hours =
    if ltb 0 interval_minutes
    then max 60 (interval_minutes * 60)
    else max 60 (interval_hours * 3600)
