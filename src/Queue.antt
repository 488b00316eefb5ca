-- ===== src/Queue.antt =====
-- The producer's client, toro/queue.py, and what it relies on in toro/limits.py and toro/keys.py.
pub mod Limits
pub mod Names
pub mod Pending
pub mod Listing
pub mod Batch
pub mod Percentile
pub mod Schedules
pub mod Tree
