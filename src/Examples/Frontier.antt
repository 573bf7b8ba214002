-- ===== src/Examples/Frontier.antt =====
-- The frontier's theorems on a table of two URLs.
use news_crawl_intelligence.Prelude.{
  ◌+◌, ◌*◌, ◌/◌, ◌≤◌, ◌≡◌, inl, inr, refl, true, false, not, ◌&&◌, leb, String, List, [], ◌∷◌, none,
  some, All, count_if, length, arith, str_eq, eq_iff, sym, Bool-cases, if◌then◌else◌,
}
use news_crawl_intelligence.Prelude.Int.{pos}
use news_crawl_intelligence.Prelude.Sorting.{sort, count_if-sort, sort-IsSorted}
use news_crawl_intelligence.Contracts.{UrlStatus, UrlType, FailureCategory}
use news_crawl_intelligence.Backoff.{second, Uniform, IsUniform}
use news_crawl_intelligence.Frontier.Rows.{CrawlUrl, Table, default_frontier, is_claimable}
use news_crawl_intelligence.Frontier.Discovery.{Candidate, inserted}
use news_crawl_intelligence.Frontier.Claims.{
  claims_first, claim_batch, chosen, has_id, reap_expired_leases, lease_to,
}
use news_crawl_intelligence.Frontier.Outcomes.{Fetched}
use news_crawl_intelligence.Frontier.Keys.{IsKeyed}
use news_crawl_intelligence.Frontier.Picking.{IsOrderBy, is_open}
use news_crawl_intelligence.Frontier.Leases.{claim_batch_leases, claim_batch_disjoint}
use news_crawl_intelligence.Frontier.Ranking.{chosen_first}
use news_crawl_intelligence.Frontier.Retries.{Failure, fail_all, fail_all_budget}

claims_first_total : (a b : CrawlUrl) → claims_first a b ≡ false → claims_first b a ≡ true
unfolding claims_first
claims_first_total a b h = ground arith

claims_first_trans :
    (a b c : CrawlUrl) → claims_first a b ≡ true → claims_first b c ≡ true → claims_first a c ≡ true
unfolding claims_first
claims_first_trans a b c h k = ground arith

abbrev pub by_claims_first : List CrawlUrl → List CrawlUrl
by_claims_first rows = sort claims_first rows

pub by_claims_first-IsOrderBy : IsOrderBy by_claims_first
by_claims_first-IsOrderBy = record {
  counts = λ p rows. count_if-sort p claims_first rows;
  sorted = λ rows. sort-IsSorted claims_first claims_first_total claims_first_trans rows;
}

-- The draw that leaves every delay as it is.
abbrev pub middle : Uniform
middle width = width / 2

pub middle-IsUniform : IsUniform middle
middle-IsUniform width = omega arith

abbrev page_of : String → UrlType → Candidate
page_of hash kind = record {
  url = "https://example.org/news";
  normalized_url = "https://example.org/news";
  url_hash = hash;
  domain = "example.org";
  source_id = 1;
  discovered_from = none;
  depth = 0;
  priority = pos 5;
  url_type = kind;
  crawl_job_id = none;
}

abbrev pub article_row : CrawlUrl
article_row = inserted 10 0 (page_of "a" UrlType.article)

abbrev section_row : CrawlUrl
section_row = inserted 10 1 (page_of "b" UrlType.section)

abbrev pub two_urls : Table
two_urls = record { rows = article_row ∷ section_row ∷ []; next_id = 2 }

pub two_urls-IsKeyed : IsKeyed two_urls
unfolding inserted count_if
two_urls-IsKeyed = record {
  fresh = (omega arith, (omega arith, tt));
  one_id = λ i. ground arith;
  one_hash = λ h. elim (Bool-cases (str_eq "a" h)) [
    | inl e ↦ rw (sym ((eq_iff "a" h).0 e)) (omega arith)
    | inr e ↦ rw (e) (ground arith)
  ];
}

claim_batch_leases_example :
    (length
        (claim_batch by_claims_first default_frontier 20 (λ id. false) "w1" 1 none none two_urls).1
      ≤ 1)
    × All
        (λ r.
          (r.status ≡ UrlStatus.leased)
          × (r.lease_owner ≡ some "w1")
          × (r.lease_expires_at ≡ some (20 + default_frontier.lease_seconds * second))
          × (is_claimable r.status ≡ false))
        (claim_batch by_claims_first default_frontier 20 (λ id. false) "w1" 1 none none two_urls).1
    × All
        (λ r.
          (has_id r.id
              (claim_batch by_claims_first default_frontier 20
                (λ id. false)
                "w1"
                1
                none
                none
                two_urls).1
            && not (is_open 20 (λ id. false) none none r))
          ≡ false)
        two_urls.rows
claim_batch_leases_example =
    claim_batch_leases by_claims_first by_claims_first-IsOrderBy default_frontier 20 (λ id. false)
      "w1" 1 none none two_urls two_urls-IsKeyed

claim_batch_disjoint_example :
    All
      (λ r.
        has_id r.id
          (claim_batch by_claims_first default_frontier 30
            (λ id. false)
            "w2"
            5
            none
            none
            (claim_batch by_claims_first default_frontier 20
              (λ id. false)
              "w1"
              1
              none
              none
              two_urls).0).1
        ≡ false)
      (claim_batch by_claims_first default_frontier 20 (λ id. false) "w1" 1 none none two_urls).1
claim_batch_disjoint_example =
    claim_batch_disjoint by_claims_first by_claims_first-IsOrderBy default_frontier 20 30
      (λ id. false) (λ id. false) "w1" "w2" 1 5 none none none none two_urls two_urls-IsKeyed

abbrev leased_table : Table
leased_table = record {
  rows = lease_to default_frontier 20 "w1" article_row ∷ section_row ∷ [];
  next_id = 2;
}

-- The reaper takes one of the two back.
reaped_one : (reap_expired_leases 400000000 leased_table).1 ≡ 1
unfolding reap_expired_leases lease_to inserted count_if
reaped_one = refl

abbrev timeout : Failure
timeout = record {
  at = 50;
  category = FailureCategory.connection_timeout;
  error = "timed out";
  http_status = none;
}

abbrev forbidden : Failure
forbidden = record {
  at = 60;
  category = FailureCategory.http_403;
  error = "forbidden";
  http_status = some 403;
}

abbrev disallowed : Failure
disallowed = record {
  at = 70;
  category = FailureCategory.robots_restricted;
  error = "robots.txt";
  http_status = none;
}

fail_all_budget_example :
    ((fail_all middle default_frontier (timeout ∷ forbidden ∷ []) article_row).retry_count
      ≡ article_row.retry_count + length (timeout ∷ forbidden ∷ []))
    × ((fail_all middle default_frontier (timeout ∷ forbidden ∷ []) article_row).status ≡ (
        if leb default_frontier.max_retries
          (article_row.retry_count + length (timeout ∷ forbidden ∷ []))
        then UrlStatus.failed
        else UrlStatus.retry_pending))
fail_all_budget_example =
    fail_all_budget middle default_frontier timeout (forbidden ∷ []) article_row (refl, (refl, tt))

abbrev page_with : String → Fetched
page_with hash = record {
  http_status = 200;
  content_hash = some hash;
  etag = none;
  last_modified = none;
  canonical_url = none;
}

chosen_first_example :
    All
      (λ p.
        All
          (λ r.
            (is_open 20 (λ id. false) none none r
              && not
                  (has_id r.id (chosen by_claims_first 20 (λ id. false) 1 none none two_urls.rows))
              && not (claims_first p r))
            ≡ false)
          two_urls.rows)
      (chosen by_claims_first 20 (λ id. false) 1 none none two_urls.rows)
chosen_first_example =
    chosen_first by_claims_first by_claims_first-IsOrderBy 20 (λ id. false) 1 none none
      two_urls.rows
