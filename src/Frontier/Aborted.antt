-- ===== src/Frontier/Aborted.antt =====
-- One link with a bad port, among those that a page brings.
use news_crawl_intelligence.Prelude.{
  ℕ, ◌≡◌, refl, ap, Bool, true, false, String, List, [], ◌∷◌, ◌++◌, Option, none, some,
  Option-cases, inl, inr, str_eq, if◌then◌else◌,
}
use news_crawl_intelligence.UrlNorm.{
  UrlLib, SplitUrl, NormalizationConfig, invalid, value_error, normalize_url, normalize_parts,
  with_port, with_host, is_allowed_scheme,
}
use news_crawl_intelligence.Frontier.Rows.{Table}
use news_crawl_intelligence.Frontier.Discovery.{
  DiscoveredUrl, SourceLike, Candidate, with_normalized, candidates, store, add_urls,
}

-- The parts of a URL of an allowed scheme with a host, of which the port is no number in range.
pub record HasBadPort (lib : UrlLib) (parts : Option SplitUrl) : Type 0 where
  pub split : SplitUrl
  pub host : String
  pub parsed : parts ≡ some split
  pub allowed : is_allowed_scheme (lib.lower split.scheme) ≡ true
  pub named : split.hostname ≡ some host
  pub filled : str_eq host "" ≡ false
  pub bad : split.port ≡ invalid

-- The text that is parsed: the URL as it is, or joined to the base of the source.
abbrev pub joined : UrlLib → String → String → String
joined lib base url = if str_eq base "" then lib.strip url else lib.urljoin base (lib.strip url)

normalize_url_bad_port :
    (lib : UrlLib) (cfg : NormalizationConfig) (base url : String)
    → HasBadPort lib (lib.urlsplit (joined lib base url))
    → normalize_url lib url (some base) cfg ≡ value_error
unfolding normalize_url normalize_parts with_host with_port
normalize_url_bad_port lib cfg base url h = rw (h.parsed, h.allowed, h.named, h.filled, h.bad) refl

module _ (lib : UrlLib) (source : SourceLike) (crawl_job_id : Option ℕ) (now : ℕ) where
  candidates_bad_port :
      (before after : List DiscoveredUrl) (item : DiscoveredUrl) (rows : List Candidate)
      → HasBadPort lib (lib.urlsplit (joined lib source.base_url item.url))
      → candidates lib source crawl_job_id now (before ++ item ∷ after) rows ≡ none
  unfolding candidates with_normalized
  candidates_bad_port [] after item rows h =
      rw
        (candidates, normalize_url_bad_port lib source.url_normalization source.base_url item.url h)
        refl
  candidates_bad_port (b ∷ before) after item rows h =
      elim (Option-cases (
        with_normalized lib source crawl_job_id now b
          (normalize_url lib b.url (some source.base_url) source.url_normalization) rows)) [
            | inl e ↦ rw (candidates, e) refl
            | inr (rows', e) ↦ rw (candidates, e) (candidates_bad_port before after item rows' h)
          ]

  -- If one of the URLs that are found, wherever it stands among them, is of an allowed scheme
  -- with a host and has a port that is no number in range, then `add_urls` raises: none of the
  -- others is added either.
  pub add_urls_bad_port :
      (before after : List DiscoveredUrl) (item : DiscoveredUrl) (requeue_existing : Bool)
      (server_now : ℕ) (t : Table)
      → HasBadPort lib (lib.urlsplit (joined lib source.base_url item.url))
      → add_urls lib source (before ++ item ∷ after) crawl_job_id requeue_existing now server_now t
        ≡ none
  unfolding add_urls store
  add_urls_bad_port before after item requeue_existing server_now t h =
      ap (λ rows. store now server_now requeue_existing rows t)
        (candidates_bad_port before after item [] h)
