-- ===== src/Priority/Order.antt =====
-- How the weights of `compute_priority` order two URLs of one source, with the default weights.
use news_crawl_intelligence.Prelude.{ℕ, ◌+◌, ◌*◌, ◌≤◌, Bool, false, Option, none, some, arith}
use news_crawl_intelligence.Prelude.Int.{◌≤ℤ◌}
use news_crawl_intelligence.Contracts.{UrlType, section, article}
use news_crawl_intelligence.Backoff.{hour}
use news_crawl_intelligence.Priority.{default_config, unit, compute_priority, freshness}
use news_crawl_intelligence.Priority.Rounding.{round_ratio_mono}

freshness-now :
    (now older newer : ℕ)
    → older ≤ newer
    → freshness default_config now (some older) ≤ freshness default_config now (some newer)
freshness-now now older newer h = ground arith

-- Of two URLs that differ in publication time and depth, the one that is published no earlier and
-- lies no deeper has no smaller priority.
pub compute_priority_mono :
    (now source_weight : ℕ) (url_type : UrlType) (depth depth' older newer : ℕ)
    (change_rate : Option ℕ) (is_breaking : Bool)
    → depth' ≤ depth
    → older ≤ newer
    → compute_priority default_config now source_weight url_type depth
        (some older)
        change_rate
        is_breaking
      ≤ℤ compute_priority default_config now source_weight url_type depth'
          (some newer)
          change_rate
          is_breaking
unfolding compute_priority
compute_priority_mono now w t depth depth' older newer rate breaking h k =
    round_ratio_mono _ _ _ _ _ (omega arith) (omega (arith, freshness-now now older newer k))

-- Undated, or published a day ago or earlier.
abbrev pub IsStale : ℕ → Option ℕ → Type 0
IsStale now none = Unit
IsStale now (some published_at) = published_at + 24 * hour ≤ now

freshness-stale :
    (now : ℕ) (published_at : Option ℕ)
    → IsStale now published_at
    → freshness default_config now published_at ≤ 2 * unit * (48 * hour)
freshness-stale now none h = omega arith
freshness-stale now (some p) h = ground arith

-- A section has no smaller priority than an article of its source at its depth or deeper that is
-- undated or at least a day old.
pub stale_article-le-section :
    (now source_weight depth depth' : ℕ) (published_at : Option ℕ)
    → depth ≤ depth'
    → IsStale now published_at
    → compute_priority default_config now source_weight article depth' published_at none false
      ≤ℤ compute_priority default_config now source_weight section depth none none false
unfolding compute_priority
stale_article-le-section now w depth depth' published h k =
    round_ratio_mono _ _ _ _ _ (omega arith) (omega (arith, freshness-stale now published k))

freshness-fresh :
    (now p : ℕ)
    → now ≤ p + 24 * hour
    → 2 * unit * (48 * hour) ≤ freshness default_config now (some p)
freshness-fresh now p h = ground arith

-- An article that was published within the last day has no smaller priority than a section of its
-- source at its depth or deeper.
pub section-le-fresh_article :
    (now source_weight depth depth' published_at : ℕ)
    → depth ≤ depth'
    → now ≤ published_at + 24 * hour
    → compute_priority default_config now source_weight section depth' none none false
      ≤ℤ compute_priority default_config now source_weight article depth
          (some published_at)
          none
          false
unfolding compute_priority
section-le-fresh_article now w depth depth' p h k =
    round_ratio_mono _ _ _ _ _ (omega arith) (omega (arith, freshness-fresh now p k))
