-- ===== src/Frontend.antt =====
-- The reclaimer's collection of the retired pointers, forkscan-changed/frontend.c.
pub mod Defs
pub mod Gather
pub mod Whole
mod Tests
