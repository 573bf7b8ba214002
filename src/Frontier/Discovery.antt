-- ===== src/Frontier/Discovery.antt =====
-- `add_urls`: the URLs that a page or a job brings into the frontier.
use news_crawl_intelligence.Prelude.{
  ℕ, ◌+◌, ◌&&◌, ◌||◌, not, Bool, true, false, String, List, [], ◌∷◌, ◌++◌, Option, none, some, map,
  filter, any, length, count_if, str_eq, ◌==◌, if◌then◌else◌,
}
use news_crawl_intelligence.Prelude.Int.{ℤ}
use news_crawl_intelligence.Prelude.Text.{ends_with_dotted}
use news_crawl_intelligence.Contracts.{UrlStatus, UrlType}
use news_crawl_intelligence.Priority.{default_config, compute_priority}
use news_crawl_intelligence.UrlNorm.{
  UrlLib, NormalizationConfig, Normalized, ok, normalization_error, value_error, normalize_url,
  url_hash, url_domain,
}
use news_crawl_intelligence.Frontier.Rows.{CrawlUrl, Table, is_held, update_table}

pub record DiscoveredUrl : Type 0 where
  pub url : String
  pub url_type : UrlType
  pub discovered_from : Option String
  pub depth : ℕ
  pub published_at : Option ℕ

-- What `add_urls` reads of a source.
pub record SourceLike : Type 0 where
  pub id : ℕ
  pub base_url : String
  pub source_weight : ℕ
  pub allowed_domains : List String
  pub url_normalization : NormalizationConfig

-- The values of one row of the INSERT.
pub record Candidate : Type 0 where
  pub url : String
  pub normalized_url : String
  pub url_hash : String
  pub domain : String
  pub source_id : ℕ
  pub discovered_from : Option String
  pub depth : ℕ
  pub priority : ℤ
  pub url_type : UrlType
  pub crawl_job_id : Option ℕ

-- `domain == d or domain.endswith("." + d)`, for one of the allowed domains; every domain is allowed
-- if none is listed.
unfoldable pub is_allowed_domain : List String → String → Bool
unfolding any
is_allowed_domain [] domain = true
is_allowed_domain (d ∷ ds) domain = any (λ a. str_eq domain a || ends_with_dotted domain a) (d ∷ ds)

-- `rows.setdefault(digest, …)`: the first candidate with a hash stays.
unfoldable pub set_default : Candidate → List Candidate → List Candidate
unfolding any
set_default c rows = if any (λ r. str_eq r.url_hash c.url_hash) rows then rows else rows ++ c ∷ []

module _ (lib : UrlLib) (source : SourceLike) (crawl_job_id : Option ℕ) (now : ℕ) where
  unfoldable pub candidate : DiscoveredUrl → String → String → Candidate
  unfolding compute_priority
  candidate item normalized domain = record {
    url = item.url;
    normalized_url = normalized;
    url_hash = url_hash lib normalized;
    domain = domain;
    source_id = source.id;
    discovered_from = item.discovered_from;
    depth = item.depth;
    priority =
        compute_priority default_config now source.source_weight item.url_type item.depth
          item.published_at none false;
    url_type = item.url_type;
    crawl_job_id = crawl_job_id;
  }

  -- One round of the loop over a URL that `normalize_url` has answered about. `none` is an
  -- exception that leaves `add_urls`: a ValueError of `normalize_url`, or an error of `url_domain`.
  unfoldable pub with_normalized :
      DiscoveredUrl → Normalized → List Candidate → Option (List Candidate)
  unfolding candidate set_default is_allowed_domain url_domain
  with_normalized item normalization_error rows = some rows
  with_normalized item value_error rows = none
  with_normalized item (ok normalized) rows = elim (url_domain lib normalized) [
    | none ↦ none
    | some domain ↦
        if is_allowed_domain source.allowed_domains domain
        then some (set_default (candidate item normalized domain) rows)
        else some rows
  ]

  abbrev add_candidate : DiscoveredUrl → List Candidate → Option (List Candidate)
  add_candidate item rows =
      with_normalized item
        (normalize_url lib item.url (some source.base_url) source.url_normalization) rows

  unfoldable pub candidates : List DiscoveredUrl → List Candidate → Option (List Candidate)
  unfolding with_normalized
  candidates [] rows = some rows
  candidates (item ∷ discovered) rows = elim (add_candidate item rows) [
    | none ↦ none
    | some rows' ↦ candidates discovered rows'
  ]

-- The row that INSERT makes: the other columns have their defaults. `server_now` is the server's
-- `now()`, the start of the transaction.
unfoldable pub inserted : ℕ → ℕ → Candidate → CrawlUrl
inserted server_now id c = record {
  id = id;
  url = c.url;
  canonical_url = none;
  normalized_url = c.normalized_url;
  url_hash = c.url_hash;
  domain = c.domain;
  source_id = c.source_id;
  discovered_from = c.discovered_from;
  depth = c.depth;
  priority = c.priority;
  url_type = c.url_type;
  status = UrlStatus.queued;
  first_seen_at = server_now;
  last_seen_at = server_now;
  last_crawled_at = none;
  next_crawl_at = some server_now;
  retry_count = 0;
  last_http_status = none;
  last_error = none;
  failure_category = none;
  content_hash = none;
  etag = none;
  last_modified = none;
  lease_owner = none;
  lease_expires_at = none;
  crawl_job_id = c.crawl_job_id;
}

abbrev pub same_hash : Candidate → CrawlUrl → Bool
same_hash c r = str_eq r.url_hash c.url_hash

abbrev pub is_hit : (CrawlUrl → Bool) → Candidate → CrawlUrl → Bool
is_hit test c r = same_hash c r && test r

unfoldable pub insert_row : ℕ → Candidate → Table → Table × List CrawlUrl
unfolding inserted
insert_row server_now c t =
    let row = inserted server_now t.next_id c in
    (record { rows = t.rows ++ row ∷ []; next_id = t.next_id + 1 }, row ∷ [])

unfoldable pub update_hits :
    (Candidate → CrawlUrl → CrawlUrl)
    → (CrawlUrl → Bool)
    → Candidate
    → Table
    → Table × List CrawlUrl
unfolding filter update_table
update_hits change test c t =
    (update_table (is_hit test c) (change c) t, map (change c) (filter (is_hit test c) t.rows))

-- INSERT ... ON CONFLICT (url_hash) DO UPDATE SET `change` WHERE `test` RETURNING, for one row of
-- the values: the new table, and the row if it was inserted or updated.
unfoldable pub upsert :
    (Candidate → CrawlUrl → CrawlUrl)
    → (CrawlUrl → Bool)
    → ℕ
    → Candidate
    → Table
    → Table × List CrawlUrl
unfolding any insert_row update_hits
upsert change test server_now c t =
    if any (same_hash c) t.rows then update_hits change test c t else insert_row server_now c t

unfoldable pub upsert_all :
    (Candidate → CrawlUrl → CrawlUrl)
    → (CrawlUrl → Bool)
    → ℕ
    → List Candidate
    → Table
    → Table × List CrawlUrl
unfolding upsert
upsert_all change test server_now [] t = (t, [])
upsert_all change test server_now (c ∷ cs) t =
    let (t', rows) = upsert change test server_now c t in
    let (t'', rest) = upsert_all change test server_now cs t' in (t'', rows ++ rest)

-- With `requeue_existing`: a known URL that no worker holds is adopted by the job and due at once.
unfoldable pub adopted : ℕ → Candidate → CrawlUrl → CrawlUrl
adopted now c r = record r {
  last_seen_at = now;
  crawl_job_id = c.crawl_job_id;
  status = UrlStatus.queued;
  next_crawl_at = some now;
  retry_count = 0;
}

abbrev pub is_free : CrawlUrl → Bool
is_free r = not (is_held r.status)

unfoldable pub seen : ℕ → Candidate → CrawlUrl → CrawlUrl
seen now c r = record r { last_seen_at = now }

-- The number of rows whose two instants agree, which are those that were inserted.
abbrev pub count_new : List CrawlUrl → ℕ
count_new rows = count_if (λ r. r.first_seen_at == r.last_seen_at) rows

-- The new table, and the number of URLs that were added or requeued.
unfoldable pub insert_candidates : ℕ → ℕ → Bool → List Candidate → Table → Table × ℕ
unfolding upsert_all adopted seen count_if
insert_candidates now server_now true cs t =
    let (t', rows) = upsert_all (adopted now) is_free server_now cs t in (t', length rows)
insert_candidates now server_now false cs t =
    let (t', rows) = upsert_all (seen now) (λ _. true) server_now cs t in (t', count_new rows)

-- `if not rows: return 0`, and the statement otherwise; `none` if an exception left the loop.
unfoldable pub store : ℕ → ℕ → Bool → Option (List Candidate) → Table → Option (Table × ℕ)
unfolding insert_candidates
store now server_now requeue_existing none t = none
store now server_now requeue_existing (some []) t = some (t, 0)
store now server_now requeue_existing (some (c ∷ cs)) t =
    some (insert_candidates now server_now requeue_existing (c ∷ cs) t)

unfoldable pub add_urls :
    UrlLib → SourceLike → List DiscoveredUrl → Option ℕ → Bool → ℕ → ℕ → Table → Option (Table × ℕ)
unfolding candidates store
add_urls lib source discovered crawl_job_id requeue_existing now server_now t =
    store now server_now requeue_existing (candidates lib source crawl_job_id now discovered []) t
