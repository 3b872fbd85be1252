-- ===== src/Pool/Tests.antt =====
-- The pool of stacks of forkscan-changed/buffer.c.
use pp_final_project.Prelude.{◌≡◌, refl, [], ◌∷◌, ◌++◌, inr, arith}
use pp_final_project.Pool.Defs.{
  Pool, carve, pool_alloc, pool_free, buffer_makestack, buffer_freestack,
}
use pp_final_project.Pool.Disjoint.{AllClear, pool_alloc-AllClear}

abbrev empty : Pool
empty = record { nodes = [] }

-- Three blocks of 16 bytes at 1000, while the block at 500 is in use.
first_blocks : pool_alloc 16 3 1000 empty ≡ (1000, record { nodes = 1032 ∷ 1016 ∷ [] })
unfolding pool_alloc carve
first_blocks = refl

next_block :
    pool_alloc 16 3 2000 (pool_alloc 16 3 1000 empty).1 ≡ (1032, record { nodes = 1016 ∷ [] })
unfolding pool_alloc carve
next_block = refl

stack_again : buffer_makestack 0 (buffer_freestack 4096 empty) ≡ (4096, 2097152, empty)
unfolding buffer_makestack buffer_freestack pool_alloc pool_free
stack_again = refl

pool_alloc-AllClear_example :
    AllClear 16
      ((pool_alloc 16 3 1000 empty).0 ∷ ((pool_alloc 16 3 1000 empty).1.nodes ++ 500 ∷ []))
pool_alloc-AllClear_example =
    pool_alloc-AllClear 16 3 1000 empty (500 ∷ []) (omega arith) (tt, tt) (inr (omega arith), tt)
