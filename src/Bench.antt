-- ===== src/Bench.antt =====
-- The array of nodes of the benchmark forkscan_test/main.c.
pub mod Defs
pub mod Places
pub mod Moves
pub mod Retired
mod Tests
