-- ===== src/Articles.antt =====
-- Articles in the processing plane: deduplication and versions.
pub mod Rows
pub mod Stored
pub mod Dedup
pub mod Nearest
pub mod Recall
pub mod Persist
pub mod Versions
pub mod History
pub mod Again
