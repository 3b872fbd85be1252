-- ===== src/Ranges.antt =====
-- The table of the memory ranges that the child scans, forkscan-changed/child.c.
pub mod Defs
pub mod Pieces
pub mod Split
pub mod Collect
pub mod Handler
pub mod Stacks
mod Tests
