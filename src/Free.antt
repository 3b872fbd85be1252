-- ===== src/Free.antt =====
-- The freeing of retired addresses by the threads, `forkscan_util_free_ptrs` of forkscan-changed/util.c.
pub mod Defs
pub mod View
pub mod Invariant
pub mod Steps
pub mod Once
mod Tests
