-- ===== src/Retention/Stats.antt =====
-- The record of a purge (apps/api/newscrawl_api/services/retention_stats.py): a row for the cycle, and sums
-- for its day.
use news_crawl_intelligence.Prelude.{
  ℕ, zero, suc, ◌+◌, ◌≡◌, refl, ◌==◌, String, List, [], ◌∷◌, ◌++◌, Option, none, some, map, length,
  count_if, arith, if_cases, if◌then◌else◌,
}
use mathlib.Core.Path.{subst, sym}
use news_crawl_intelligence.Contracts.{Language}
use news_crawl_intelligence.Articles.Stored.{StoredArticle}
use news_crawl_intelligence.Retention.{
  Live, Tally, nothing_deleted, same_language, tally_batch, purge, purge_expired_articles, batch_of,
  delete_batch, id_of,
}

pub record PurgeCycle : Type 0 where
  pub started_at : ℕ
  pub finished_at : ℕ
  pub cutoff_at : ℕ
  pub retention_hours : ℕ
  pub tally : Tally
  pub status : String
  pub error_message : Option String

pub record DailyStat : Type 0 where
  pub articles_deleted : ℕ
  pub cycles : ℕ
  pub raw_html_deleted : ℕ
  pub by_language : Language → ℕ
  pub by_source : ℕ → ℕ

-- The tables; a table is the function from its key to its row, if there is one.
pub record StatTables : Type 0 where
  pub purge_cycles : List PurgeCycle
  pub daily_stats : ℕ → Option DailyStat
  pub delete_by_language : ℕ → Language → Option ℕ
  pub delete_by_source : ℕ → ℕ → Option ℕ

unfoldable pub merge_counts : {K : Type 0} → (K → ℕ) → (K → ℕ) → K → ℕ
merge_counts existing incoming key = existing key + incoming key

-- INSERT ... ON CONFLICT DO UPDATE, and the update of the two breakdowns.
unfoldable pub daily_row : Tally → Option DailyStat → DailyStat
unfolding merge_counts
daily_row t none = record {
  articles_deleted = t.total_deleted;
  cycles = 1;
  raw_html_deleted = t.raw_html_deleted;
  by_language = t.by_language;
  by_source = t.by_source;
}
daily_row t (some d) = record {
  articles_deleted = d.articles_deleted + t.total_deleted;
  cycles = d.cycles + 1;
  raw_html_deleted = d.raw_html_deleted + t.raw_html_deleted;
  by_language = merge_counts d.by_language t.by_language;
  by_source = merge_counts d.by_source t.by_source;
}

-- A count of zero touches no row.
abbrev add_count : ℕ → Option ℕ → Option ℕ
add_count zero row = row
add_count (suc n) none = some (suc n)
add_count (suc n) (some m) = some (m + suc n)

-- `day` is the calendar day on which the cycle finished.
unfoldable pub record_purge_cycle : ℕ → PurgeCycle → StatTables → StatTables
unfolding daily_row
record_purge_cycle day c t = record {
  purge_cycles = t.purge_cycles ++ c ∷ [];
  daily_stats =
      λ d. if d == day then some (daily_row c.tally (t.daily_stats d)) else t.daily_stats d;
  delete_by_language = λ d l.
      if d == day
      then add_count (c.tally.by_language l) (t.delete_by_language d l)
      else t.delete_by_language d l;
  delete_by_source = λ d s.
      if d == day
      then add_count (c.tally.by_source s) (t.delete_by_source d s)
      else t.delete_by_source d s;
}

abbrev sum_languages : (Language → ℕ) → ℕ
sum_languages f = f Language.bangla + f Language.english + f Language.unknown

-- The number that is deleted is the sum over the languages.
abbrev pub IsBalanced : Tally → Type 0
IsBalanced t = t.total_deleted ≡ sum_languages t.by_language

languages_of :
    (rows : List StoredArticle)
    → length rows ≡ sum_languages (λ l. count_if (λ a. same_language a.article.language l) rows)
unfolding count_if
languages_of [] = refl
languages_of (a ∷ rows) = step a.article.language (languages_of rows)
  where
    step :
        (language : Language)
        → length rows ≡ sum_languages (λ l. count_if (λ a. same_language a.article.language l) rows)
        → suc (length rows)
          ≡ sum_languages (λ l.
            (if same_language language l then 1 else 0)
            + count_if (λ a. same_language a.article.language l) rows)
    step Language.bangla h = omega (arith, h)
    step Language.english h = omega (arith, h)
    step Language.unknown h = omega (arith, h)

module _ (order_by : List StoredArticle → List StoredArticle)
    (delete_raw_html : List String → ℕ) where
  tally_batch-IsBalanced :
      (rows : List StoredArticle) (t : Tally)
      → IsBalanced t
      → IsBalanced (tally_batch order_by delete_raw_html rows t)
  unfolding tally_batch
  tally_batch-IsBalanced rows t h = omega (arith, h, languages_of rows)

  purge-IsBalanced :
      (cutoff batch_size max_batches : ℕ) (live : Live) (t : Tally)
      → IsBalanced t
      → IsBalanced (purge order_by delete_raw_html cutoff batch_size max_batches live t).1
  unfolding purge
  purge-IsBalanced cutoff batch_size zero live t h = h
  purge-IsBalanced cutoff batch_size (suc max_batches) live t h =
      let rows = batch_of order_by delete_raw_html cutoff batch_size live.articles in
      if_cases (λ (r : Live × Tally). IsBalanced r.1) (length rows == 0) (λ _. h)
        (λ _.
          purge-IsBalanced cutoff batch_size max_batches (delete_batch (map id_of rows) live)
            (tally_batch order_by delete_raw_html rows t) (tally_batch-IsBalanced rows t h))

abbrev IsBalancedIf : Option DailyStat → Type 0
IsBalancedIf none = Unit
IsBalancedIf (some d) = d.articles_deleted ≡ sum_languages d.by_language

-- On every day the articles that were deleted are the sum over their languages.
abbrev pub AreBalanced : StatTables → Type 0
AreBalanced t = (day : ℕ) → IsBalancedIf (t.daily_stats day)

daily_row-IsBalanced :
    (c : Tally) (d : Option DailyStat)
    → IsBalanced c
    → IsBalancedIf d
    → IsBalancedIf (some (daily_row c d))
unfolding daily_row merge_counts
daily_row-IsBalanced c none h k = h
daily_row-IsBalanced c (some d) h k = omega (arith, h, k)

-- The record of a purge keeps the sums of every day equal to their breakdown by language.
pub record_purge_cycle-AreBalanced :
    (order_by : List StoredArticle → List StoredArticle) (delete_raw_html : List String → ℕ)
    (day now retention_hours batch_size max_batches : ℕ) (live : Live) (c : PurgeCycle)
    (t : StatTables)
    → c.tally
      ≡ (purge_expired_articles order_by delete_raw_html now retention_hours batch_size max_batches
          live).1
    → AreBalanced t
    → AreBalanced (record_purge_cycle day c t)
unfolding record_purge_cycle purge_expired_articles
record_purge_cycle-AreBalanced order_by delete_raw_html day now retention_hours batch_size
      max_batches live c t own h d =
    if_cases IsBalancedIf (d == day)
      (λ _.
        daily_row-IsBalanced c.tally (t.daily_stats d)
          (subst IsBalanced (sym own) (
            purge-IsBalanced order_by delete_raw_html _ batch_size max_batches live nothing_deleted
              refl))
          (h d))
      (λ _. h d)
