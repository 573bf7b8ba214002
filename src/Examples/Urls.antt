-- ===== src/Examples/Urls.antt =====
-- URLs, hashes, priorities and delays at concrete inputs. The library of URLs knows two pages.
use mathlib.Core.List.{Permᴰ}
use news_crawl_intelligence.Prelude.{
  ℕ, ◌+◌, ◌*◌, ◌/◌, ◌%◌, ◌^◌, ◌<◌, ◌≡◌, filter, any, refl, false, String, List, [], ◌∷◌, Option,
  none, some, map, arith, str_eq, if◌then◌else◌,
}
use news_crawl_intelligence.Prelude.Int.{◌≤ℤ◌}
use news_crawl_intelligence.Contracts.{UrlType}
use news_crawl_intelligence.Backoff.{hour}
use news_crawl_intelligence.Priority.{compute_priority, default_config}
use news_crawl_intelligence.Priority.Order.{section-le-fresh_article}
use news_crawl_intelligence.Simhash.{simhash64, features}
use news_crawl_intelligence.Simhash.Votes.{majority, simhash64_bits}
use news_crawl_intelligence.UrlNorm.{
  Port, SplitUrl, UrlLib, default_normalization, normalize_url, kept_params, member,
}
use news_crawl_intelligence.UrlNorm.Path.{rstrip_slash}
use news_crawl_intelligence.UrlNorm.Query.{IsUrlLib, params}
use news_crawl_intelligence.UrlNorm.SamePage.{SamePage, normalize_url_same}
use news_crawl_intelligence.Frontier.Rows.{Table, default_frontier}
use news_crawl_intelligence.Frontier.Claims.{claim_batch, reap_expired_leases}
use news_crawl_intelligence.Frontier.Steps.{Shared, Step, Reach, IsValid, start, put}
use news_crawl_intelligence.Frontier.Validity.{Reach-IsValid}
use news_crawl_intelligence.Frontier.Discovery.{
  SourceLike, DiscoveredUrl, candidate, inserted, add_urls,
}
use news_crawl_intelligence.Frontier.Aborted.{HasBadPort, joined, add_urls_bad_port}
use news_crawl_intelligence.Examples.Frontier.{by_claims_first, by_claims_first-IsOrderBy, middle}

abbrev page : String → Port → String → String → SplitUrl
page host port path query = record {
  scheme = "https";
  hostname = some host;
  port = port;
  path = path;
  query = query;
  fragment = "";
}

abbrev split : String → Option SplitUrl
split url =
    if str_eq url "https://Example.org:443/a/?y=2&utm_source=z&x=1"
    then some (page "Example.org" (Port.given 443) "/a/" "y=2&utm_source=z&x=1")
    else if str_eq url "https://example.org/a?x=1&y=2"
    then some (page "example.org" Port.absent "/a" "x=1&y=2")
    else if str_eq url "https://example.org:99999/a"
    then some (page "example.org" Port.invalid "/a" "")
    else none

abbrev lower_case : String → String
lower_case s = if str_eq s "Example.org" then "example.org" else s

abbrev parse : String → List (String × String)
parse query =
    if str_eq query "y=2&utm_source=z&x=1"
    then ("y", "2") ∷ ("utm_source", "z") ∷ ("x", "1") ∷ []
    else if str_eq query "x=1&y=2"
    then ("x", "1") ∷ ("y", "2") ∷ []
    else []

abbrev encode : List (String × String) → String
encode [] = ""
encode (p ∷ ps) = "x=1&y=2"

abbrev pub sample_lib : UrlLib
sample_lib = record {
  strip = λ s. s;
  lower = lower_case;
  urljoin = λ base url. url;
  urlsplit = split;
  parse_qsl = parse;
  urlencode = encode;
  urlunsplit = λ scheme host port path query fragment. "https://example.org/a?x=1&y=2";
  canonicalize_url = λ url keep. url;
  sha256 = λ url. url;
}

sample_lib-IsUrlLib : IsUrlLib sample_lib
sample_lib-IsUrlLib = record { parse_nothing = refl; encode_nothing = refl }

-- Two spellings of one page.
abbrev first_spelling : String
first_spelling = "https://Example.org:443/a/?y=2&utm_source=z&x=1"

abbrev pub second_spelling : String
second_spelling = "https://example.org/a?x=1&y=2"

abbrev first_parts : SplitUrl
first_parts = page "Example.org" (Port.given 443) "/a/" "y=2&utm_source=z&x=1"

abbrev second_parts : SplitUrl
second_parts = page "example.org" Port.absent "/a" "x=1&y=2"

kept_swap :
    Permᴰ
      (params sample_lib sample_lib-IsUrlLib default_normalization "y=2&utm_source=z&x=1")
      (params sample_lib sample_lib-IsUrlLib default_normalization "x=1&y=2")
unfolding kept_params member filter any
kept_swap = Permᴰ.swap refl refl

same_paths : rstrip_slash "/a/" ≡ rstrip_slash "/a"
unfolding rstrip_slash
same_paths = refl

one_page : SamePage sample_lib sample_lib-IsUrlLib default_normalization first_parts second_parts
one_page = record {
  scheme = refl;
  host = "Example.org";
  host' = "example.org";
  p_host = refl;
  q_host = refl;
  named = refl;
  named' = refl;
  hosts = refl;
  ports = refl;
  paths = same_paths;
  parameters = kept_swap;
  fragments = λ e. refl;
}

normalize_url_same_example :
    normalize_url sample_lib first_spelling none default_normalization
    ≡ normalize_url sample_lib second_spelling none default_normalization
normalize_url_same_example =
    normalize_url_same sample_lib sample_lib-IsUrlLib default_normalization first_spelling
      second_spelling first_parts second_parts refl refl one_page

section-le-fresh_article_example :
    compute_priority default_config (100 * hour) 5 UrlType.section 2 none none false
    ≤ℤ compute_priority default_config
        (100 * hour)
        5
        UrlType.article
        1
        (some (90 * hour))
        none
        false
section-le-fresh_article_example =
    section-le-fresh_article (100 * hour) 5 1 2 (90 * hour) (omega arith) (omega arith)

-- Words are numbers, and a shingle's hash is its first word.
abbrev pub first_word : List ℕ → ℕ
first_word [] = 0
first_word (w ∷ words) = w

simhash64_bits_example :
    (simhash64 first_word 2 (5 ∷ 4 ∷ 6 ∷ 1 ∷ []) < 2 ^ 64)
    × (simhash64 first_word 2 (5 ∷ 4 ∷ 6 ∷ 1 ∷ []) / 2 ^ 2 % 2
        ≡ majority 2 (map first_word (features 2 (5 ∷ 4 ∷ 6 ∷ 1 ∷ []))))
simhash64_bits_example = simhash64_bits first_word 2 (5 ∷ 4 ∷ 6 ∷ 1 ∷ []) 2 (omega arith)

-- A page is found, a worker leases it, and its lease runs out before the reaper comes.
abbrev source : SourceLike
source = record {
  id = 1;
  base_url = "https://example.org/";
  source_weight = 5;
  allowed_domains = [];
  url_normalization = default_normalization;
}

abbrev found : DiscoveredUrl
found = record {
  url = second_spelling;
  url_type = UrlType.article;
  discovered_from = none;
  depth = 1;
  published_at = none;
}

abbrev one_url : Table
one_url = record {
  rows = inserted 0 0 (candidate sample_lib source none 0 found second_spelling "example.org") ∷ [];
  next_id = 1;
}

first_add : add_urls sample_lib source (found ∷ []) none false 0 0 start.table ≡ some (one_url, 1)
unfolding add_urls normalize_url
first_add = refl

abbrev bad_link : DiscoveredUrl
bad_link = record found { url = "https://example.org:99999/a" }

bad_link-HasBadPort :
    HasBadPort sample_lib (sample_lib.urlsplit (joined sample_lib source.base_url bad_link.url))
bad_link-HasBadPort = record {
  split = page "example.org" Port.invalid "/a" "";
  host = "example.org";
  parsed = refl;
  allowed = refl;
  named = refl;
  filled = refl;
  bad = refl;
}

-- The good link before the bad one is lost with it.
add_urls_bad_port_example :
    add_urls sample_lib source (found ∷ bad_link ∷ []) none false 0 0 start.table ≡ none
add_urls_bad_port_example =
    add_urls_bad_port sample_lib source none 0 (found ∷ []) [] bad_link false 0 start.table
      bad_link-HasBadPort

abbrev claimed : Shared
claimed =
    put (put start one_url)
      (claim_batch by_claims_first default_frontier 0 (λ id. false) "w1" 10 none none one_url).0

abbrev later : Shared
later = record claimed { clock = 0 + 400000000 }

Reach-IsValid_example : IsValid (put later (reap_expired_leases later.clock later.table).0)
Reach-IsValid_example =
    Reach-IsValid sample_lib by_claims_first by_claims_first-IsOrderBy middle default_frontier (
      Reach.next
        (Reach.next
          (Reach.next
            (Reach.next Reach.begin
              (Step.add start source (found ∷ []) none false 0 one_url 1 first_add))
            (Step.claim (put start one_url) (λ id. false) "w1" 10 none none))
          (Step.tick claimed 400000000))
        (Step.reap later))
