-- ===== src/Pool/Defs.antt =====
-- `DEFINE_POOL_ALLOC` of forkscan-changed/metautil.h, and the pool of stacks in buffer.c. A block is known
-- by its address. What the call of `mmap` returns is a parameter.
use pp_final_project.Prelude.{ℕ, zero, suc, ◌+◌, ◌-◌, ◌*◌, List, [], ◌∷◌}

-- `g_##pool##_pool`, from the first node on.
pub record Pool : Type 0 where
  pub nodes : List ℕ

-- The `for` of `pool_alloc`: the blocks of the batch but the first, with `rounds` to go.
unfoldable pub carve : ℕ → ℕ → ℕ → ℕ → List ℕ → List ℕ
carve dtsize arr zero i nodes = nodes
carve dtsize arr (suc rounds) i nodes = carve dtsize arr rounds (suc i) ((arr + i * dtsize) ∷ nodes)

-- A block and the pool after it; `arr` is the memory that `mmap` returns if it is called.
unfoldable pub pool_alloc : ℕ → ℕ → ℕ → Pool → ℕ × Pool
pool_alloc dtsize batch_sz arr pool = elim (pool.nodes) [
  | ret ∷ rest ↦ (ret, record { nodes = rest })
  | [] ↦ (arr, record { nodes = carve dtsize arr (batch_sz - 1) 1 [] })
]

unfoldable pub pool_free : ℕ → Pool → Pool
pool_free p pool = record { nodes = p ∷ pool.nodes }

abbrev pub stack_size : ℕ
stack_size = 2 * 1024 * 1024

abbrev pub n_stacks : ℕ
n_stacks = 16

-- The stack, with its size, and the pool after it.
unfoldable pub buffer_makestack : ℕ → Pool → ℕ × ℕ × Pool
buffer_makestack arr pool =
    let r = pool_alloc stack_size n_stacks arr pool in (r.0, stack_size, r.1)

unfoldable pub buffer_freestack : ℕ → Pool → Pool
buffer_freestack p pool = pool_free p pool
