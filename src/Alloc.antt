-- ===== src/Alloc.antt =====
-- The memory that the library keeps for itself, forkscan-changed/alloc.c.
pub mod Defs
pub mod Order
pub mod Advance
pub mod Subrange
pub mod Map
mod RoundTrip
mod Tests
