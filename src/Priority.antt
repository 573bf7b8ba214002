-- ===== src/Priority.antt =====
-- apps/api/newscrawl_api/services/priority.py. Weights are floats with at most four decimals in the
-- source; here they are whole numbers of ten-thousandths, and the sums are exact before the last
-- rounding. Instants and durations are microseconds.
pub mod Rounding
pub mod Order
use news_crawl_intelligence.Prelude.{
  ℕ, ◌+◌, ◌-◌, ◌*◌, min, max, Bool, Option, none, some, ltb, if◌then◌else◌,
}
use news_crawl_intelligence.Prelude.Int.{ℤ}
use news_crawl_intelligence.Contracts.{UrlType, homepage, section, article, sitemap, rss, other}
use news_crawl_intelligence.Backoff.{hour}
use news_crawl_intelligence.Priority.Rounding.{round_ratio}

-- 1.0, in ten-thousandths.
abbrev pub unit : ℕ
unit = 10_000

abbrev default_type_weights : UrlType → Option ℕ
default_type_weights homepage = some 80_000
default_type_weights rss = some 70_000
default_type_weights sitemap = some 65_000
default_type_weights section = some 60_000
default_type_weights article = some 40_000
default_type_weights other = some 5_000

pub record PriorityConfig : Type 0 where
  pub type_weights : UrlType → Option ℕ
  pub source_weight_multiplier : ℕ
  pub freshness_window : ℕ
  pub freshness_max_boost : ℕ
  pub update_frequency_max_boost : ℕ
  pub depth_penalty_per_level : ℕ
  pub max_depth_penalty : ℕ
  pub breaking_news_boost : ℕ

abbrev pub default_config : PriorityConfig
default_config = record {
  type_weights = default_type_weights;
  source_weight_multiplier = 2 * unit;
  freshness_window = 48 * hour;
  freshness_max_boost = 4 * unit;
  update_frequency_max_boost = 2 * unit;
  depth_penalty_per_level = 5_000;
  max_depth_penalty = 3 * unit;
  breaking_news_boost = 10 * unit;
}

-- `cfg.type_weights.get(url_type, 0.5)`
abbrev type_weight : Option ℕ → ℕ
type_weight none = 5_000
type_weight (some w) = w

-- The freshness boost over the window, as a numerator over `freshness_window`: an article from the
-- future has age 0, and one older than the window has no boost.
abbrev freshness : PriorityConfig → ℕ → Option ℕ → ℕ
freshness cfg now none = 0
freshness cfg now (some published_at) =
    let age = now - published_at in
    if ltb age cfg.freshness_window
    then cfg.freshness_max_boost * (cfg.freshness_window - age)
    else 0

-- `change_rate` counts ten-thousandths, and is clamped to 1.
abbrev change_boost : PriorityConfig → Option ℕ → ℕ
change_boost cfg none = 0
change_boost cfg (some change_rate) = cfg.update_frequency_max_boost * min change_rate unit

-- The sum is kept over the denominator `unit * freshness_window`, gains and penalties apart.
unfoldable pub compute_priority :
    PriorityConfig → ℕ → ℕ → UrlType → ℕ → Option ℕ → Option ℕ → Bool → ℤ
compute_priority cfg now source_weight url_type depth published_at change_rate is_breaking =
    let window = max cfg.freshness_window 1 in
    let weights =
      source_weight * cfg.source_weight_multiplier
      + unit * type_weight (cfg.type_weights url_type)
      + change_boost cfg change_rate
      + unit * (if is_breaking then cfg.breaking_news_boost else 0) in
    let penalty = min (depth * cfg.depth_penalty_per_level) cfg.max_depth_penalty in
    round_ratio (weights * window + unit * freshness cfg now published_at) (unit * penalty * window)
      (unit * window)
