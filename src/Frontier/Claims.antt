-- ===== src/Frontier/Claims.antt =====
-- Leases: `claim_batch`, `extend_lease`, `release` and `reap_expired_leases`. Each is one SQL
-- statement, and so one step on the table.
use news_crawl_intelligence.Prelude.{
  ℕ, ◌+◌, ◌*◌, ◌&&◌, not, ltb, Bool, true, false, String, List, Option, none, some, map, filter,
  any, count_if, take, ◌==◌, leb, if◌then◌else◌,
}
use news_crawl_intelligence.Prelude.Int.{ltb_ℤ}
use news_crawl_intelligence.Contracts.{UrlStatus}
use news_crawl_intelligence.Backoff.{second}
use news_crawl_intelligence.Frontier.Rows.{
  CrawlUrl, Table, FrontierConfig, is_claimable, is_held, text_is, number_is, is_at_most,
  update_table,
}

-- `column == value` if a value is given.
abbrev matches_source : Option ℕ → CrawlUrl → Bool
matches_source none r = true
matches_source (some s) r = r.source_id == s

abbrev matches_job : Option ℕ → CrawlUrl → Bool
matches_job none r = true
matches_job (some j) r = number_is r.crawl_job_id j

unfoldable pub is_due : ℕ → CrawlUrl → Bool
is_due now r = is_claimable r.status && is_at_most r.next_crawl_at now

-- The rows of the WHERE clauses of `candidates`.
unfoldable pub is_candidate : ℕ → Option ℕ → Option ℕ → CrawlUrl → Bool
unfolding is_due
is_candidate now source_id crawl_job_id r =
    is_due now r && matches_source source_id r && matches_job crawl_job_id r

-- ORDER BY priority DESC, next_crawl_at: `a` may stand before `b`. Due rows have a `next_crawl_at`.
abbrev earlier : Option ℕ → Option ℕ → Bool
earlier (some m) (some n) = leb m n
earlier (some m) none = true
earlier none (some n) = false
earlier none none = true

unfoldable pub claims_first : CrawlUrl → CrawlUrl → Bool
claims_first a b =
    if ltb_ℤ b.priority a.priority
    then true
    else if ltb_ℤ a.priority b.priority
    then false
    else earlier a.next_crawl_at b.next_crawl_at

unfoldable pub has_id : ℕ → List CrawlUrl → Bool
unfolding any
has_id id rows = any (λ r. r.id == id) rows

unfoldable pub lease_to : FrontierConfig → ℕ → String → CrawlUrl → CrawlUrl
lease_to cfg now worker_id r = record r {
  status = UrlStatus.leased;
  lease_owner = some worker_id;
  lease_expires_at = some (now + cfg.lease_seconds * second);
}

-- `order_by` is the database's sort by `claims_first`, which leaves the order of equals open.
-- `locked` tells the rows that another transaction has locked: SKIP LOCKED passes over them.
module _ (order_by : List CrawlUrl → List CrawlUrl) where
  -- The candidates that the subquery selects and locks.
  unfoldable pub chosen : ℕ → (ℕ → Bool) → ℕ → Option ℕ → Option ℕ → List CrawlUrl → List CrawlUrl
  unfolding is_candidate filter
  chosen now locked limit source_id crawl_job_id rows =
      take limit (
        order_by
          (filter (λ r. is_candidate now source_id crawl_job_id r && not (locked r.id)) rows))

  -- The new table, and the claimed rows as RETURNING gives them.
  unfoldable pub claim_batch :
      FrontierConfig
      → ℕ
      → (ℕ → Bool)
      → String
      → ℕ
      → Option ℕ
      → Option ℕ
      → Table
      → Table × List CrawlUrl
  unfolding chosen has_id lease_to update_table
  claim_batch cfg now locked worker_id limit source_id crawl_job_id t =
      let picked = chosen now locked limit source_id crawl_job_id t.rows in
      let is_picked = λ (r : CrawlUrl). has_id r.id picked in
      (
        update_table is_picked (lease_to cfg now worker_id) t,
        map (lease_to cfg now worker_id) (filter is_picked t.rows),
      )

-- WHERE id = `url_id` AND lease_owner = `worker_id`
abbrev pub is_owned : ℕ → String → CrawlUrl → Bool
is_owned url_id worker_id r = r.id == url_id && text_is r.lease_owner worker_id

unfoldable pub extend_lease : FrontierConfig → ℕ → ℕ → String → Table → Table × Bool
unfolding update_table any
extend_lease cfg now url_id worker_id t = (
  update_table (is_owned url_id worker_id)
      (λ r. record r { lease_expires_at = some (now + cfg.lease_seconds * second) }) t,
  any (is_owned url_id worker_id) t.rows,
)

-- Back to the queue, with no lease.
unfoldable pub requeued : CrawlUrl → CrawlUrl
requeued r = record r { status = UrlStatus.queued; lease_owner = none; lease_expires_at = none }

unfoldable pub release : ℕ → String → Table → Table
unfolding update_table requeued
release url_id worker_id t = update_table (is_owned url_id worker_id) requeued t

abbrev expired_before : Option ℕ → ℕ → Bool
expired_before none now = false
expired_before (some expires) now = ltb expires now

unfoldable pub is_abandoned : ℕ → CrawlUrl → Bool
is_abandoned now r = is_held r.status && expired_before r.lease_expires_at now

-- The new table and the number of rows that were requeued.
unfoldable pub reap_expired_leases : ℕ → Table → Table × ℕ
unfolding update_table requeued is_abandoned count_if
reap_expired_leases now t =
    (update_table (is_abandoned now) requeued t, count_if (is_abandoned now) t.rows)
