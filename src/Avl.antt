-- ===== src/Avl.antt =====
-- The AVL tree of forkscan-changed/avl.c and avl.h (the same code stands in sort_test.c). A node is
-- owned by one pointer, so a tree is a value and an update returns the new tree. `malloc` is a
-- parameter: `mem` says whether the one call that an insertion may make returns memory.
pub mod Defs
pub mod Entries
pub mod Balance
pub mod Insert
pub mod Lookup
pub mod Build
mod Tests
