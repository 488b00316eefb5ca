-- ===== src/Listing.antt =====
-- LIST_ROOTS and ROOTS_COUNTS of toro/scripts.py, against a filter of the whole state.
pub mod Count
pub mod Page
pub mod Roots
