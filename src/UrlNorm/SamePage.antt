-- ===== src/UrlNorm/SamePage.antt =====
-- URLs of one page normalize to one text, and which URLs are refused.
use mathlib.Core.List.{Permᴰ}
use news_crawl_intelligence.Prelude.{
  ℕ, String, true, false, ◌≡◌, ◌≢◌, refl, sym, ◌∙◌, ap, Option, none, some, Bool-cases, inl, inr,
  str_eq, eq_iff, arith, if◌then◌else◌,
}
use news_crawl_intelligence.UrlNorm.{
  UrlLib, SplitUrl, Port, absent, invalid, given, Normalized, normalization_error, value_error,
  NormalizationConfig, is_allowed_scheme, explicit_port, rebuild, with_host, with_port,
  normalize_parts, normalize_url,
}
use news_crawl_intelligence.UrlNorm.Path.{rstrip_slash, normal_path, normal_path-rstrip_slash}
use news_crawl_intelligence.UrlNorm.Query.{IsUrlLib, params, normal_query-perm}

-- The port that a request goes to: the scheme's own, if the URL gives none.
abbrev pub effective_port : String → Port → Option ℕ
effective_port scheme (given port) = some port
effective_port scheme absent = if str_eq scheme "https" then some 443 else some 80
effective_port scheme invalid = none

-- The URLs differ at most in the case of scheme and host, in a default port, in slashes at the end
-- of the path, in the order of the parameters that are kept and in all others, and in the fragment
-- if that is not kept.
pub record SamePage (lib : UrlLib) (laws : IsUrlLib lib) (cfg : NormalizationConfig)
    (p q : SplitUrl) : Type 0 where
  pub scheme : lib.lower p.scheme ≡ lib.lower q.scheme
  pub host : String
  pub host' : String
  pub p_host : p.hostname ≡ some host
  pub q_host : q.hostname ≡ some host'
  pub named : str_eq host "" ≡ false
  pub named' : str_eq host' "" ≡ false
  pub hosts : lib.lower host ≡ lib.lower host'
  pub ports :
      effective_port (lib.lower p.scheme) p.port ≡ effective_port (lib.lower q.scheme) q.port
  pub paths : rstrip_slash p.path ≡ rstrip_slash q.path
  pub parameters : Permᴰ (params lib laws cfg p.query) (params lib laws cfg q.query)
  pub fragments : cfg.keep_fragment ≡ true → p.fragment ≡ q.fragment

-- What `with_port` puts into the URL.
abbrev kept_port : String → Port → Option (Option ℕ)
kept_port scheme invalid = none
kept_port scheme absent = some none
kept_port scheme (given port) = some (explicit_port scheme port)

http_not_https : ◌≢◌ {A = String} "http" "https"
http_not_https = ground (arith, eq_iff "http" "https")

-- Over an allowed scheme the kept port is the effective one, less a default.
kept_port-effective_port :
    (scheme : String) (p q : Port)
    → is_allowed_scheme scheme ≡ true
    → effective_port scheme p ≡ effective_port scheme q
    → kept_port scheme p ≡ kept_port scheme q
kept_port-effective_port scheme absent absent a e = refl
kept_port-effective_port scheme absent invalid a e = ground arith
kept_port-effective_port scheme absent (given n) a e =
    ground (arith, eq_iff scheme "http", eq_iff scheme "https", http_not_https)
kept_port-effective_port scheme invalid absent a e = ground arith
kept_port-effective_port scheme invalid invalid a e = refl
kept_port-effective_port scheme invalid (given n) a e = cc
kept_port-effective_port scheme (given m) absent a e =
    ground (arith, eq_iff scheme "http", eq_iff scheme "https", http_not_https)
kept_port-effective_port scheme (given m) invalid a e = cc
kept_port-effective_port scheme (given m) (given n) a e = cc

finish : UrlLib → NormalizationConfig → SplitUrl → String → Option (Option ℕ) → Normalized
finish lib cfg parts host none = value_error
finish lib cfg parts host (some port) = rebuild lib cfg parts host port

module _ (lib : UrlLib) (laws : IsUrlLib lib) (cfg : NormalizationConfig) where
  with_port-kept_port :
      (parts : SplitUrl) (host : String) (port : Port)
      → with_port lib cfg parts host port
        ≡ finish lib cfg parts host (kept_port (lib.lower parts.scheme) port)
  unfolding with_port finish
  with_port-kept_port parts host absent = refl
  with_port-kept_port parts host invalid = refl
  with_port-kept_port parts host (given n) = refl

  fragment_kept :
      (f g : String)
      → (cfg.keep_fragment ≡ true → f ≡ g)
      → (if cfg.keep_fragment then f else "") ≡ (if cfg.keep_fragment then g else "")
  fragment_kept f g h = ground arith

  parts_allowed :
      (parts : SplitUrl)
      → is_allowed_scheme (lib.lower parts.scheme) ≡ true
      → normalize_parts lib cfg (some parts) ≡ with_host lib cfg parts parts.hostname
  unfolding normalize_parts
  parts_allowed parts a = rw a refl

  parts_refused :
      (parts : SplitUrl)
      → is_allowed_scheme (lib.lower parts.scheme) ≡ false
      → normalize_parts lib cfg (some parts) ≡ normalization_error
  unfolding normalize_parts
  parts_refused parts a = rw a refl

  host_named :
      (parts : SplitUrl) (host : String)
      → str_eq host "" ≡ false
      → with_host lib cfg parts (some host) ≡ with_port lib cfg parts host parts.port
  unfolding with_host
  host_named parts host n = rw n refl

  -- Once scheme and host are accepted only the port decides.
  accepted :
      (parts : SplitUrl) (host : String)
      → is_allowed_scheme (lib.lower parts.scheme) ≡ true
      → parts.hostname ≡ some host
      → str_eq host "" ≡ false
      → normalize_parts lib cfg (some parts)
        ≡ finish lib cfg parts host (kept_port (lib.lower parts.scheme) parts.port)
  accepted parts host a e n =
      parts_allowed parts a
      ∙ ap (with_host lib cfg parts) e
      ∙ host_named parts host n
      ∙ with_port-kept_port parts host parts.port

  module _ (p q : SplitUrl) (same : SamePage lib laws cfg p q) where
    normal_path_same : normal_path p.path ≡ normal_path q.path
    normal_path_same =
        cc (normal_path-rstrip_slash p.path, normal_path-rstrip_slash q.path, same.paths)

    rebuild_same :
        (port : Option ℕ) → rebuild lib cfg p same.host port ≡ rebuild lib cfg q same.host' port
    unfolding rebuild
    rebuild_same port = cc (
      same.scheme,
      same.hosts,
      normal_path_same,
      normal_query-perm lib laws cfg p.query q.query same.parameters,
      fragment_kept p.fragment q.fragment same.fragments,
    )

    finish_same :
        (kept : Option (Option ℕ))
        → finish lib cfg p same.host kept ≡ finish lib cfg q same.host' kept
    unfolding finish
    finish_same none = refl
    finish_same (some port) = rebuild_same port

    ports_same :
        is_allowed_scheme (lib.lower p.scheme) ≡ true
        → kept_port (lib.lower p.scheme) p.port ≡ kept_port (lib.lower q.scheme) q.port
    ports_same a =
        kept_port-effective_port (lib.lower p.scheme) p.port q.port a
          (same.ports ∙ ap (λ s. effective_port s q.port) (sym same.scheme))
        ∙ ap (λ s. kept_port s q.port) same.scheme

    normalize_parts_same : normalize_parts lib cfg (some p) ≡ normalize_parts lib cfg (some q)
    normalize_parts_same = elim (Bool-cases (is_allowed_scheme (lib.lower p.scheme))) [
      | inl a ↦
          accepted p same.host a same.p_host same.named
          ∙ finish_same (kept_port (lib.lower p.scheme) p.port)
          ∙ ap (finish lib cfg q same.host') (ports_same a)
          ∙ sym (accepted q same.host' (rw same.scheme at a) same.q_host same.named')
      | inr a ↦ parts_refused p a ∙ sym (parts_refused q (rw same.scheme at a))
    ]

  -- If an empty query has no parameters and none print as the empty text: two URLs of the same
  -- page, which differ at most in the case of scheme and host, a default port, slashes at the end
  -- of the path, the order of kept parameters, other parameters and a fragment that is not kept,
  -- normalize to the same text, or are refused alike.
  pub normalize_url_same :
      (url url' : String) (p q : SplitUrl)
      → lib.urlsplit (lib.strip url) ≡ some p
      → lib.urlsplit (lib.strip url') ≡ some q
      → SamePage lib laws cfg p q
      → normalize_url lib url none cfg ≡ normalize_url lib url' none cfg
  unfolding normalize_url
  normalize_url_same url url' p q e f same =
      ap (normalize_parts lib cfg) e
      ∙ normalize_parts_same p q same
      ∙ ap (normalize_parts lib cfg) (sym f)
