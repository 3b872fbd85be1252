-- ===== src/Scan.antt =====
-- The scan for references in the child process: forkscan-changed/child.c.
pub mod Defs
pub mod Binary
pub mod Find
pub mod Mark
pub mod Step
pub mod Trace
mod Tests
