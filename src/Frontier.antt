-- ===== src/Frontier.antt =====
-- apps/api/newscrawl_api/services/frontier.py over the table `crawl_urls` of
-- apps/api/newscrawl_api/models/crawl.py.
pub mod Rows
pub mod Discovery
pub mod Aborted
pub mod Claims
pub mod Outcomes
pub mod Invariant
pub mod Keys
pub mod Picking
pub mod Steps
pub mod Validity
pub mod Leases
pub mod Retries
pub mod Recovery
pub mod Ranking
