-- ===== src/Scripts.antt =====
-- toro/scripts.py: the Lua routines of `_LIB` and the scripts made of them.
pub mod Order
pub mod Keyed
pub mod Run
pub mod Claim
pub mod Metrics
pub mod Retention
pub mod Flow
pub mod Enqueue
pub mod Finish
pub mod Admin
pub mod Remove
pub mod Cancel
pub mod Stalled
pub mod Roots
