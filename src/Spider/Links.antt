-- ===== src/Spider/Links.antt =====
-- What `_parse_section` and `_parse_sitemap` find.
use mathlib.Core.Path.{subst}
use news_crawl_intelligence.Prelude.{
  ℕ, ◌≡◌, refl, sym, ap, ◌&&◌, ◌||◌, Bool, true, false, String, List, [], ◌∷◌, Option, none, some,
  any, count_if, str_eq, eq_iff, arith, if◌then◌else◌, Bool-cases, if_cases, inl, inr,
}
use news_crawl_intelligence.UrlNorm.{UrlLib, member}
use news_crawl_intelligence.Pipeline.{DiscoveredLink}
use news_crawl_intelligence.Spider.{SpiderConfig}
use news_crawl_intelligence.Spider.Discovered.{
  DateLib, Nodes, matches_article_pattern, section_links, parse_section, add_if,
}

abbrev pub is_match : Option Bool → Bool
is_match (some true) = true
is_match _ = false

abbrev pub is_url : String → DiscoveredLink → Bool
is_url u link = str_eq u link.url

-- Whether a URL is a new match.
abbrev once : Bool → Bool → Bool → ℕ
once is_seen is_there matches = if is_seen then 0 else if is_there && matches then 1 else 0

-- Whether a link of the page leads to the URL.
abbrev pub leads : UrlLib → String → List String → String → Bool
leads lib base hrefs u = any (λ href. str_eq u (lib.urljoin base (lib.strip href))) hrefs

module _ (lib : UrlLib) (dates : DateLib) (cfg : SpiderConfig) where
  open lib use {strip, urljoin}

  abbrev matched : String → Bool
  matched u = is_match (matches_article_pattern lib dates cfg u)

  -- If the page is parsed, the URL is found so many times.
  abbrev IsFound : String → ℕ → Option (List DiscoveredLink) → Type 0
  IsFound u n none = Unit
  IsFound u n (some links) = count_if (is_url u) links ≡ n

  same_url-matched :
      (u a : String) (m : Option Bool)
      → matches_article_pattern lib dates cfg a ≡ m
      → str_eq u a ≡ true
      → matched u ≡ is_match m
  same_url-matched u a m e same =
      subst (λ v. matched v ≡ is_match m) (sym ((eq_iff u a).0 same)) (ap is_match e)

  add_if-IsFound :
      (u a : String) (seen : List String) (there : Bool) (m : Option Bool)
      (rest : Option (List DiscoveredLink))
      → matches_article_pattern lib dates cfg a ≡ m
      → (str_eq u a ≡ true → member u seen ≡ false)
      → IsFound u (once (str_eq u a || member u seen) there (matched u)) rest
      → IsFound u
          (once (member u seen) (str_eq u a || there) (matched u))
          (add_if lib dates cfg a m rest)
  unfolding count_if
  add_if-IsFound u a seen there none rest e new h = tt
  add_if-IsFound u a seen there (some true) none e new h = tt
  add_if-IsFound u a seen there (some true) (some links) e new h = elim (Bool-cases (str_eq u a)) [
    | inl same ↦ ground (arith, same_url-matched u a (some true) e same, new same, h)
    | inr other ↦ ground (arith, other, h)
  ]
  add_if-IsFound u a seen there (some false) none e new h = tt
  add_if-IsFound u a seen there (some false) (some links) e new h = elim (Bool-cases (str_eq u a)) [
    | inl same ↦ ground (arith, same_url-matched u a (some false) e same, new same, h)
    | inr other ↦ ground (arith, other, h)
  ]

  member_other :
      (u a : String) (seen : List String)
      → member a seen ≡ false
      → str_eq u a ≡ true
      → member u seen ≡ false
  member_other u a seen new same =
      subst (λ v. member v seen ≡ false) (sym ((eq_iff u a).0 same)) new

  old_url :
      (u a : String) (seen : List String) (there matches : Bool)
      → member a seen ≡ true
      → once (member u seen) there matches ≡ once (member u seen) (str_eq u a || there) matches
  old_url u a seen there matches old = elim (Bool-cases (str_eq u a)) [
    | inl same ↦
        let seen_too : member u seen ≡ true =
          subst (λ v. member v seen ≡ true) (sym ((eq_iff u a).0 same)) old in
        rw (seen_too) refl
    | inr other ↦ rw (other) refl
  ]

  section_links-IsFound :
      (base u : String) (seen hrefs : List String)
      → IsFound u
          (once (member u seen) (leads lib base hrefs u) (matched u))
          (section_links lib dates cfg base seen hrefs)
  unfolding section_links member any count_if
  section_links-IsFound base u seen [] = ground arith
  section_links-IsFound base u seen (href ∷ hrefs) =
      let a = urljoin base (strip href) in
      if_cases (IsFound u (once (member u seen) (leads lib base (href ∷ hrefs) u) (matched u)))
        (member a seen)
        (λ old.
          subst (λ n. IsFound u n (section_links lib dates cfg base seen hrefs))
            (old_url u a seen (leads lib base hrefs u) (matched u) old)
            (section_links-IsFound base u seen hrefs))
        (λ new.
          add_if-IsFound u a seen (leads lib base hrefs u) (matches_article_pattern lib dates cfg a)
            (section_links lib dates cfg base (a ∷ seen) hrefs) refl (member_other u a seen new)
            (section_links-IsFound base u (a ∷ seen) hrefs))

  -- When a section is parsed, each URL is found once if some link of the page leads to it and it
  -- matches an article pattern, and not at all if not; a response that is no text has no links.
  pub parse_section_once :
      (base u : String) (nodes : Nodes) (links : List DiscoveredLink)
      → parse_section lib dates cfg base nodes ≡ some links
      → count_if (is_url u) links ≡ (
          if nodes.is_text
            && leads lib base nodes.hrefs u
            && is_match (matches_article_pattern lib dates cfg u)
          then 1
          else 0)
  unfolding parse_section count_if
  parse_section_once base u nodes links parsed =
      let found = section_links-IsFound base u [] nodes.hrefs in
      let wanted = if nodes.is_text && leads lib base nodes.hrefs u && matched u then 1 else 0 in
      subst (IsFound u wanted) parsed (elim (Bool-cases nodes.is_text) [
        | inl text ↦ rw (text) found
        | inr other ↦ rw (other) refl
      ])
