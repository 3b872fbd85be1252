-- ===== src/Lookup.antt =====
-- The lookaside list of the child process: `addr_find_hint` and `lookup_lookaside_list` of
-- forkscan-changed/child.c.
pub mod Defs
pub mod Hint
pub mod Marked
pub mod Found
pub mod Loop
pub mod Compacted
pub mod Whole
mod Tests
