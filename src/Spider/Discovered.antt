-- ===== src/Spider/Discovered.antt =====
-- The links that a page brings: `_parse_sitemap`, `_parse_rss`, `_parse_section` and the tests on URLs.
-- What selectors and feedparser find on a page are parameters.
use mathlib.Core.Option.{map as map_option}
use news_crawl_intelligence.Prelude.{
  ℕ, ◌&&◌, Bool, true, false, String, List, [], ◌∷◌, Option, none, some, map, any, take, str_eq,
  if◌then◌else◌,
}
use news_crawl_intelligence.Prelude.Sorting.{sort}
use news_crawl_intelligence.Prelude.Text.{pair_leb, contains, ends_with}
use news_crawl_intelligence.Contracts.{UrlType}
use news_crawl_intelligence.UrlNorm.{
  UrlLib, Normalized, ok, normalization_error, value_error, normalize_url, member,
}
use news_crawl_intelligence.Pipeline.{DiscoveredLink}
use news_crawl_intelligence.Spider.{SpiderConfig}

-- What `datetime.fromisoformat` reads: an instant in UTC, or a time without a zone.
pub data Moment : Type 0 where
  naive aware : ℕ → Moment

abbrev pub as_utc : Moment → ℕ
as_utc (naive t) = t
as_utc (aware t) = t

-- The standard library on the text of a date; `none` is a ValueError.
pub record DateLib : Type 0 where
  pub replace_z : String → String
  pub fromisoformat : String → Option Moment

unfoldable pub parse_datetime : (String → String) → DateLib → Option String → Option ℕ
parse_datetime strip dates none = none
parse_datetime strip dates (some raw) =
    if str_eq raw ""
    then none
    else map_option as_utc (dates.fromisoformat (dates.replace_z (strip raw)))

-- The `loc` and the `lastmod` of a node of a sitemap.
abbrev pub SitemapNode : Type 0
SitemapNode = Option String × Option String

-- What the parsers find on a page. `none` for the text is a response that is no TextResponse.
pub record Nodes : Type 0 where
  pub is_text : Bool
  pub sitemaps : List SitemapNode
  pub urls : List SitemapNode
  -- the link of an entry, and its time of publication or update
  pub entries : List (Option String × Option ℕ)
  pub hrefs : List String

abbrev pub sitemap_index_limit : ℕ
sitemap_index_limit = 3

abbrev or_empty : Option String → String
or_empty none = ""
or_empty (some text) = text

abbrev pub later : String × String → String × String → Bool
later a b = pair_leb b a

abbrev pub child_link : String × String → DiscoveredLink
child_link (lastmod, loc) = record { url = loc; url_type = UrlType.sitemap; published_at = none }

abbrev pub article_link : String → DiscoveredLink
article_link url = record { url = url; url_type = UrlType.article; published_at = none }

module _ (lib : UrlLib) (dates : DateLib) (cfg : SpiderConfig) where
  open lib use {strip, urljoin}

  abbrev matches_as : Normalized → Option Bool
  matches_as (ok candidate) = some (any (λ pattern. pattern candidate) cfg.article_patterns)
  matches_as normalization_error = some false
  matches_as value_error = none

  -- `none` where a ValueError leaves `normalize_url`: only UrlNormalizationError is caught.
  unfoldable pub matches_article_pattern : String → Option Bool
  unfolding normalize_url any
  matches_article_pattern url = matches_as (normalize_url lib url none cfg.norm_config)

  abbrev classified : String → Bool → UrlType
  classified url true = UrlType.article
  classified url false =
      if contains url "sitemap" && ends_with url ".xml" then UrlType.sitemap else UrlType.other

  unfoldable pub classify_url : String → Option UrlType
  unfolding matches_article_pattern contains ends_with
  classify_url url = map_option (classified url) (matches_article_pattern url)

  -- The children of a sitemap index, the time of the last change first.
  unfoldable pub children_of : List SitemapNode → List (String × String)
  children_of [] = []
  children_of ((none, lastmod) ∷ nodes) = children_of nodes
  children_of ((some loc, lastmod) ∷ nodes) =
      let rest = children_of nodes in
      if str_eq loc "" then rest else (or_empty lastmod, strip loc) ∷ rest

  abbrev and_more :
      Option DiscoveredLink → Option (List DiscoveredLink) → Option (List DiscoveredLink)
  and_more (some link) (some links) = some (link ∷ links)
  and_more _ _ = none

  abbrev sitemap_link : String → Option String → UrlType → DiscoveredLink
  sitemap_link loc lastmod url_type = record {
    url = loc;
    url_type = url_type;
    published_at = parse_datetime strip dates lastmod;
  }

  -- The URLs of a sitemap; `none` if one of them raises.
  unfoldable pub candidates_of : List SitemapNode → Option (List DiscoveredLink)
  unfolding classify_url parse_datetime
  candidates_of [] = some []
  candidates_of ((none, lastmod) ∷ nodes) = candidates_of nodes
  candidates_of ((some raw, lastmod) ∷ nodes) =
      let rest = candidates_of nodes in
      let loc = strip raw in
      let link = map_option (sitemap_link loc lastmod) (classify_url loc) in
      if str_eq raw "" then rest else and_more link rest

  -- Child sitemaps go before the URLs; if there are any, the latest of them are followed.
  abbrev sitemap_links : List SitemapNode → List (String × String) → Option (List DiscoveredLink)
  sitemap_links urls [] = candidates_of urls
  sitemap_links urls (child ∷ children) =
      some (map child_link (take sitemap_index_limit (sort later (child ∷ children))))

  unfoldable pub parse_sitemap : Nodes → Option (List DiscoveredLink)
  unfolding children_of candidates_of sort
  parse_sitemap nodes =
      if nodes.is_text then sitemap_links nodes.urls (children_of nodes.sitemaps) else some []

  unfoldable pub parse_entries : List (Option String × Option ℕ) → List DiscoveredLink
  parse_entries [] = []
  parse_entries ((none, published) ∷ entries) = parse_entries entries
  parse_entries ((some link, published) ∷ entries) =
      let rest = parse_entries entries in
      if str_eq link ""
      then rest
      else record { url = link; url_type = UrlType.article; published_at = published } ∷ rest

  unfoldable pub parse_rss : Nodes → Option (List DiscoveredLink)
  unfolding parse_entries
  parse_rss nodes = some (parse_entries nodes.entries)

  abbrev pub add_if :
      String → Option Bool → Option (List DiscoveredLink) → Option (List DiscoveredLink)
  add_if url none rest = none
  add_if url (some true) rest = map_option (λ links. article_link url ∷ links) rest
  add_if url (some false) rest = rest

  -- The loop over the links of a page; `seen` holds the URLs before it.
  unfoldable pub section_links : String → List String → List String → Option (List DiscoveredLink)
  unfolding matches_article_pattern member
  section_links base seen [] = some []
  section_links base seen (href ∷ hrefs) =
      let absolute = urljoin base (strip href) in
      let skipped = section_links base seen hrefs in
      let rest = section_links base (absolute ∷ seen) hrefs in
      if member absolute seen
      then skipped
      else add_if absolute (matches_article_pattern absolute) rest

  unfoldable pub parse_section : String → Nodes → Option (List DiscoveredLink)
  unfolding section_links
  parse_section base nodes = if nodes.is_text then section_links base [] nodes.hrefs else some []
