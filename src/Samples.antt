-- ===== src/Samples.antt =====
-- Concrete runs of the scripts over the list-backed Redis, and the theorems at them.
pub mod Queues
pub mod Scripts
pub mod Rest
pub mod Calls
pub mod Checks
