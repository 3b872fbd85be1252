-- ===== src/Buffer.antt =====
-- The address buffers of forkscan-changed/buffer.c and buffer.h.
pub mod Defs
pub mod Lists
pub mod Chain
mod Retire
mod Dead
mod DeadList
mod DeadRefs
pub mod Aggregate
mod Tests
