-- ===== src/Handoff.antt =====
-- The buffers on their way to the collector thread, in forkscan-changed/forkscan.c.
pub mod Defs
pub mod Invariant
pub mod Safety
pub mod Progress
mod Tests
