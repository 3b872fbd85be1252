-- ===== src/Lock.antt =====
-- The lock of the reclaimer: forkscan-changed/thread.c and the wait of forkscan-changed/proc.c.
mod Defs
mod Run
mod Invariant
mod Moves
mod Safety
mod Progress
mod Tests
