-- ===== src/Alloc/Map.antt =====
-- The mapping and unmapping of memory in forkscan-changed/alloc.c. What the calls of `mmap` return, by
-- their number, and whether `munmap` succeeds are parameters. The nodes of the free list differ in
-- nothing that matters, so the list is their number.
use pp_final_project.Prelude.{
  ℕ, zero, suc, ◌-◌, ◌/◌, ◌%◌, Bool, true, false, not, List, [], ◌∷◌, ◌==◌, Option, none, some, Run,
  done, fail, assertion, null_deref, fatal, out_of_fuel, ◌>>=◌, ◌>>◌, assert,
}
use pp_final_project.Alloc.Defs.{Metadata, metadata_do_insert}

-- `alloc_list`: the circular list from the first node on, or the last node that was removed, which has
-- no neighbours any more.
pub data AllocList : Type 0 where
  chained : List Metadata → AllocList
  dangling : AllocList

pub record Heap : Type 0 where
  pub alloc_list : AllocList
  pub free_nodes : ℕ
  -- the number of calls of `mmap` so far
  pub calls : ℕ

-- `ALLOC_BLOCKSIZE` and `sizeof(memory_metadata_t)`
abbrev pub alloc_blocksize : ℕ
alloc_blocksize = 4096

abbrev pub metadata_size : ℕ
metadata_size = 40

-- The nodes that the `for` of `metadata_new` makes.
abbrev pub nodes_in_block : ℕ
nodes_in_block = (alloc_blocksize - metadata_size - 1) / metadata_size

-- With its neighbours gone, the node that `alloc_list` points to leads to NULL.
unfoldable pub metadata_insert : Metadata → Heap → Run Heap
metadata_insert meta h = elim (h.alloc_list) [
  | dangling ↦ fail null_deref
  | chained l ↦ do l' ← metadata_do_insert meta l; done (record h { alloc_list = chained l' })
]

-- The `for` of `metadata_remove`: the nodes but the one with the address, and that one. It goes around
-- the circle forever if there is none.
unfoldable pub find_node : ℕ → List Metadata → Run (List Metadata × Metadata)
find_node addr [] = fail out_of_fuel
find_node addr (curr ∷ rest) = elim (curr.addr == addr) [
  | true ↦ done (rest, curr)
  | false ↦ do found ← find_node addr rest; done (curr ∷ found.0, found.1)
]

abbrev pub relinked : List Metadata → AllocList
relinked [] = dangling
relinked (m ∷ l) = chained (m ∷ l)

unfoldable pub remove_from : ℕ → AllocList → Run (AllocList × Metadata)
remove_from addr dangling = fail null_deref
remove_from addr (chained []) = fail assertion
remove_from addr (chained (m ∷ l)) = do
  found ← find_node addr (m ∷ l)
  done (relinked found.0, found.1)

unfoldable pub metadata_remove : ℕ → Heap → Run (Heap × Metadata)
metadata_remove addr h = do
  found ← remove_from addr h.alloc_list
  done (record h { alloc_list = found.0 }, found.1)

module _ (mmap : ℕ → Option ℕ) (munmap : ℕ → ℕ → Bool) where
  unfoldable pub mapped_at : Option ℕ → Run ℕ
  mapped_at none = fail fatal
  mapped_at (some ptr) = do assert (not (ptr == 0)); done ptr

  unfoldable pub mmap_wrap : Heap → Run (Heap × ℕ)
  mmap_wrap h = do ptr ← mapped_at (mmap h.calls); done (record h { calls = suc h.calls }, ptr)

  -- `metadata_new` where the free list is empty: a block of nodes, which is its own first entry.
  unfoldable pub more_nodes : Heap → Run Heap
  more_nodes h = do
    mapped ← mmap_wrap h
    h' ← metadata_insert (record { addr = mapped.1; length = alloc_blocksize }) mapped.0
    done (record h' { free_nodes = nodes_in_block })

  unfoldable pub take_node : ℕ → Heap → Run Heap
  take_node zero h = fail assertion
  take_node (suc nodes) h = done (record h { free_nodes = nodes })

  unfoldable pub metadata_new : ℕ → Heap → Run Heap
  metadata_new zero h = do h' ← more_nodes h; take_node h'.free_nodes h'
  metadata_new (suc nodes) h = take_node (suc nodes) h

  unfoldable pub metadata_free : Heap → Heap
  metadata_free h = record h { free_nodes = suc h.free_nodes }

  -- `alloc_mmap`; the call of `mprotect` sets the protection that the memory has.
  unfoldable pub alloc_mmap : ℕ → Heap → Run (Heap × ℕ)
  alloc_mmap size h = do
    taken ← metadata_new h.free_nodes h
    assert (size % 4096 == 0)
    mapped ← mmap_wrap taken
    h' ← metadata_insert (record { addr = mapped.1; length = size }) mapped.0
    done (h', mapped.1)

  unfoldable pub unmapped : Heap × Metadata → Run Heap
  unmapped (h, meta) = elim (munmap meta.addr meta.length) [
    | true ↦ done (metadata_free h)
    | false ↦ fail fatal
  ]

  unfoldable pub alloc_munmap : ℕ → Heap → Run Heap
  alloc_munmap ptr h = do assert (not (ptr == 0)); removed ← metadata_remove ptr h; unmapped removed
