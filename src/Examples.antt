-- ===== src/Examples.antt =====
-- The theorems at concrete inputs, and tests of the definitions.
mod Frontier
mod Urls
mod Jobs
mod Articles
mod Queues
mod Pipeline
mod Limits
mod Spider
mod Analysis
mod Access
