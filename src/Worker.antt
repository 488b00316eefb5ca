-- ===== src/Worker.antt =====
-- toro/worker.py: what a worker does around the scripts.
pub mod Commit
pub mod Schedules
pub mod Signals
