-- ===== src/Threads.antt =====
-- The records of the threads: the thread list and the list of exited threads of forkscan-changed/util.c,
-- registration and signals of proc.c, and the end of a thread in thread.c.
pub mod Defs
pub mod Chain
pub mod Registry
pub mod Remove
pub mod Exit
pub mod Signal
mod Tests
