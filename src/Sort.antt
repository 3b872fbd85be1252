-- ===== src/Sort.antt =====
-- The sort utilities of forkscan-changed/util.c.
pub mod Defs
pub mod AvlSort
pub mod Compact
pub mod Distinct
mod Tests
