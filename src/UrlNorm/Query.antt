-- ===== src/UrlNorm/Query.antt =====
-- The query of a normalized URL does not depend on the order of its parameters.
use mathlib.Core.List.{Permᴰ}
use mathlib.Core.Path.{subst}
use news_crawl_intelligence.Prelude.{
  String, false, ◌≡◌, refl, sym, ◌∙◌, List, [], ◌∷◌, Bool-cases, inl, inr, str_eq, eq_iff, arith,
  if◌then◌else◌,
}
use news_crawl_intelligence.Prelude.Sorting.{sort, sort-perm}
use news_crawl_intelligence.Prelude.Text.{pair_leb, pair_order}
use news_crawl_intelligence.UrlNorm.{UrlLib, NormalizationConfig, kept_params, normal_query}

-- What the code relies on of `parse_qsl` and `urlencode`: no text, no parameters.
pub record IsUrlLib (lib : UrlLib) : Type 0 where
  pub parse_nothing : lib.parse_qsl "" ≡ []
  pub encode_nothing : lib.urlencode [] ≡ ""

sort-nil : sort pair_leb [] ≡ []
unfolding sort
sort-nil = refl

module _ (lib : UrlLib) (laws : IsUrlLib lib) where
  abbrev pub params : NormalizationConfig → String → List (String × String)
  params cfg query = kept_params lib cfg (lib.parse_qsl query)

  params-empty : (cfg : NormalizationConfig) → params cfg "" ≡ []
  unfolding kept_params
  params-empty cfg = rw laws.parse_nothing (nothing_kept cfg.keep_params)
    where
      nothing_kept :
          (keep : List String) → kept_params lib (record cfg { keep_params = keep }) [] ≡ []
      nothing_kept [] = ground arith
      nothing_kept (k ∷ ks) = refl

  normal_query_else :
      (cfg : NormalizationConfig) (query : String)
      → str_eq query "" ≡ false
      → normal_query lib cfg query
        ≡ (if cfg.strip_all_params then "" else lib.urlencode (sort pair_leb (params cfg query)))
  unfolding normal_query
  normal_query_else cfg query e = elim (Bool-cases cfg.strip_all_params) [
    | inl s ↦ rw s refl
    | inr s ↦ rw (s, e) refl
  ]

  normal_query_empty :
      (cfg : NormalizationConfig)
      → normal_query lib cfg "" ≡ (if cfg.strip_all_params then "" else "")
  unfolding normal_query
  normal_query_empty cfg = elim (Bool-cases cfg.strip_all_params) [
    | inl s ↦ rw s refl
    | inr s ↦ rw s refl
  ]

  normal_query-params :
      (cfg : NormalizationConfig) (query : String)
      → normal_query lib cfg query
        ≡ (if cfg.strip_all_params then "" else lib.urlencode (sort pair_leb (params cfg query)))
  normal_query-params cfg query = elim (Bool-cases (str_eq query "")) [
    | inl e ↦ subst QueryText (sym ((eq_iff query "").0 e)) nothing
    | inr e ↦ normal_query_else cfg query e
  ]
    where
      QueryText : String → Type 0
      QueryText q =
          normal_query lib cfg q
          ≡ (if cfg.strip_all_params then "" else lib.urlencode (sort pair_leb (params cfg q)))

      nothing : QueryText ""
      nothing = rw (params-empty cfg, sort-nil, laws.encode_nothing) (normal_query_empty cfg)

  -- Queries with the same kept parameters, in whatever order, normalize to one text, if no
  -- parameters are read from an empty query and none are printed as the empty text.
  pub normal_query-perm :
      (cfg : NormalizationConfig) (q q' : String)
      → Permᴰ (params cfg q) (params cfg q')
      → normal_query lib cfg q ≡ normal_query lib cfg q'
  normal_query-perm cfg q q' same =
      normal_query-params cfg q
      ∙ rw (sort-perm pair_leb pair_order same) (sym (normal_query-params cfg q'))
