-- ===== src/Quick.antt =====
-- Quicksort and the shuffle of forkscan-changed/util.c.
mod Defs
mod Exchange
mod Partition
mod Insertion
mod Quicksort
mod Shuffle
mod Tests
