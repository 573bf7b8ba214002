-- ===== src/UrlNorm.antt =====
-- packages/crawler-utils/newscrawl_crawler_utils/urlnorm.py. The parser and printer of urllib, the
-- canonicalizer of w3lib, sha256 and the case and blank tables of `str` are the parameter `UrlLib`.
pub mod Path
pub mod Query
pub mod SamePage
use news_crawl_intelligence.Prelude.{
  ℕ, String, Bool, true, false, not, ◌&&◌, ◌||◌, List, [], ◌∷◌, ◌++◌, Option, none, some, any,
  filter, str_eq, ◌==◌, if◌then◌else◌,
}
use news_crawl_intelligence.Prelude.Sorting.{sort}
use news_crawl_intelligence.Prelude.Text.{pair_leb}
use news_crawl_intelligence.UrlNorm.Path.{normal_path}

-- `SplitResult.port`: reading it raises ValueError if the URL's port is no number in range.
pub data Port : Type 0 where
  absent invalid : Port
  given : ℕ → Port

pub record SplitUrl : Type 0 where
  pub scheme : String
  pub hostname : Option String
  pub port : Port
  pub path : String
  pub query : String
  pub fragment : String

pub record UrlLib : Type 0 where
  pub strip : String → String
  pub lower : String → String
  pub urljoin : String → String → String
  -- `none` where urlsplit raises ValueError
  pub urlsplit : String → Option SplitUrl
  pub parse_qsl : String → List (String × String)
  pub urlencode : List (String × String) → String
  -- scheme, host, port, path, query and fragment of the URL to print
  pub urlunsplit : String → String → Option ℕ → String → String → String → String
  pub canonicalize_url : String → Bool → String
  pub sha256 : String → String

abbrev default_tracking_params : List String
default_tracking_params =
    "utm_source" ∷ "utm_medium" ∷ "utm_campaign" ∷ "utm_term" ∷ "utm_content" ∷ "utm_id" ∷ "gclid"
    ∷ "gbraid" ∷ "wbraid" ∷ "fbclid" ∷ "msclkid" ∷ "twclid" ∷ "igshid" ∷ "mc_cid" ∷ "mc_eid" ∷ "ref"
    ∷ "ref_src" ∷ "cmpid" ∷ "ncid" ∷ "ocid" ∷ "at_medium" ∷ "at_campaign" ∷ "xtor" ∷ []

pub record NormalizationConfig : Type 0 where
  pub remove_tracking_params : Bool
  pub extra_tracking_params : List String
  pub keep_params : List String
  pub strip_all_params : Bool
  pub keep_fragment : Bool

abbrev pub default_normalization : NormalizationConfig
default_normalization = record {
  remove_tracking_params = true;
  extra_tracking_params = [];
  keep_params = [];
  strip_all_params = false;
  keep_fragment = false;
}

-- What `normalize_url` does: it returns, or raises UrlNormalizationError, or lets a plain ValueError
-- through.
pub data Normalized : Type 0 where
  ok : String → Normalized
  normalization_error value_error : Normalized

unfoldable pub member : String → List String → Bool
unfolding any
member s = any (λ t. str_eq s t)

abbrev pub is_allowed_scheme : String → Bool
is_allowed_scheme scheme = str_eq scheme "http" || str_eq scheme "https"

-- The port that stays in the rebuilt URL.
abbrev explicit_port : String → ℕ → Option ℕ
explicit_port scheme port =
    if (str_eq scheme "http" && port == 80) || (str_eq scheme "https" && port == 443)
    then none
    else some port

module _ (lib : UrlLib) where
  open lib use {
    strip, lower, urljoin, urlsplit, parse_qsl, urlencode, urlunsplit, canonicalize_url, sha256,
  }

  -- The parameters that the configuration keeps.
  unfoldable pub kept_params : NormalizationConfig → List (String × String) → List (String × String)
  unfolding member filter
  kept_params cfg pairs = elim cfg.keep_params [
    | k ∷ ks ↦ filter (λ p. member p.0 (k ∷ ks)) pairs
    | [] ↦
        if cfg.remove_tracking_params
        then filter
            (λ p. not (member (lower p.0) (default_tracking_params ++ cfg.extra_tracking_params)))
            pairs
        else pairs
  ]

  unfoldable pub normal_query : NormalizationConfig → String → String
  unfolding kept_params sort
  normal_query cfg query =
      if not cfg.strip_all_params && not (str_eq query "")
      then urlencode (sort pair_leb (kept_params cfg (parse_qsl query)))
      else ""

  -- The URL that is rebuilt once scheme, host and port are accepted.
  unfoldable pub rebuild : NormalizationConfig → SplitUrl → String → Option ℕ → Normalized
  rebuild cfg parts host port = ok (
      canonicalize_url
        (urlunsplit (lower parts.scheme) (lower host) port (normal_path parts.path)
          (normal_query cfg parts.query) (if cfg.keep_fragment then parts.fragment else ""))
        cfg.keep_fragment)

  unfoldable pub with_port : NormalizationConfig → SplitUrl → String → Port → Normalized
  unfolding rebuild
  with_port cfg parts host invalid = value_error
  with_port cfg parts host absent = rebuild cfg parts host none
  with_port cfg parts host (given port) =
      rebuild cfg parts host (explicit_port (lower parts.scheme) port)

  unfoldable pub with_host : NormalizationConfig → SplitUrl → Option String → Normalized
  unfolding with_port
  with_host cfg parts none = normalization_error
  with_host cfg parts (some host) =
      if str_eq host "" then normalization_error else with_port cfg parts host parts.port

  unfoldable pub normalize_parts : NormalizationConfig → Option SplitUrl → Normalized
  unfolding with_host
  normalize_parts cfg none = normalization_error
  normalize_parts cfg (some parts) =
      if is_allowed_scheme (lower parts.scheme)
      then with_host cfg parts parts.hostname
      else normalization_error

  unfoldable pub normalize_url : String → Option String → NormalizationConfig → Normalized
  unfolding normalize_parts
  normalize_url url base_url cfg =
      let candidate : String = elim base_url [
        | none ↦ strip url
        | some base ↦ if str_eq base "" then strip url else urljoin base (strip url)
      ] in
      normalize_parts cfg (urlsplit candidate)

  unfoldable pub url_hash : String → String
  url_hash normalized_url = sha256 normalized_url

  -- `none` where it raises; an unparsable URL and one with no host both do.
  unfoldable pub url_domain : String → Option String
  url_domain normalized_url = elim (urlsplit normalized_url) [
    | none ↦ none
    | some parts ↦ elim parts.hostname [
      | none ↦ none
      | some host ↦ if str_eq host "" then none else some host
    ]
  ]
