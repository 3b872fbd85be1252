-- ===== src/Queue.antt =====
-- The private queues of retired pointers, forkscan-changed/queue.c.
pub mod Defs
pub mod Fifo
pub mod PushBulk
pub mod CopyOut
pub mod PopBulk
mod Tests
