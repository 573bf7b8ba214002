-- ===== src/Frontier/Recovery.antt =====
-- Crash recovery: the reaper gives every abandoned URL back to the queue, where it is due at once.
