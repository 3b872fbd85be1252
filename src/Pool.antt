-- ===== src/Pool.antt =====
-- The pools of equal blocks that forkscan-changed/metautil.h defines.
pub mod Defs
mod Disjoint
mod Tests
