-- ===== src/Collector.antt =====
-- The collector thread, forkscan-changed/forkscan.c.
pub mod Defs
pub mod Minimap
pub mod Survivors
pub mod Gather
pub mod Contents
pub mod Kept
pub mod Same
pub mod Ready
pub mod Aggregate
mod Tests
