-- ===== src/Sort/Defs.antt =====
-- `write_to_array`, `forkscan_util_avl_sort` and `forkscan_util_compact` of forkscan-changed/util.c.
-- An array is a list, and an access outside it faults. A length is an `int` that the callers keep
-- non-negative.
use pp_final_project.Prelude.{
  ℕ, zero, suc, ◌-◌, Bool, true, false, List, length, get_elem?, set, ltb, leb, ◌==◌, if◌then◌else◌,
  Run, done, fail, null_deref, out_of_bounds, ◌>>=◌, read,
}
use pp_final_project.Avl.Defs.{Tree, null, node, avl_build_from_array, avl_inorder, avl_destroy}

-- The state is the array behind `data` and the global `sorted_index`.
unfoldable pub write_to_array : Tree → List ℕ × ℕ → Run (List ℕ × ℕ)
write_to_array null s = fail null_deref
write_to_array (node key h m l r) (sorted_array, sorted_index) =
    if ltb sorted_index (length sorted_array)
    then done (set sorted_array sorted_index key, suc sorted_index)
    else fail out_of_bounds

-- Also the keys of the nodes that `avl_destroy` frees.
unfoldable pub avl_sort : Bool → (ℕ → Bool) → List ℕ → ℕ → Run (List ℕ × List ℕ)
avl_sort root_mem mem a len = if leb len 1 then done (a, List.[]) else do
  tree ← avl_build_from_array root_mem mem a len
  (sorted, sorted_index) ← avl_inorder tree write_to_array (a, 0)
  done (sorted, avl_destroy tree)

-- The loop of `forkscan_util_compact`, with `rounds` rounds to go.
unfoldable pub compact_loop : ℕ → List ℕ → ℕ → ℕ → Run (List ℕ × ℕ)
compact_loop zero a search write = done (a, write)
compact_loop (suc rounds) a search write = do
  found ← read (get_elem? a search)
  kept ← read (get_elem? a write)
  elim (found == kept) [
    | true ↦ compact_loop rounds a (suc search) write
    | false ↦
        compact_loop rounds (if ltb (suc write) search then set a (suc write) found else a)
          (suc search) (suc write)
  ]

-- The array, and the savings that the function returns.
unfoldable pub compact : List ℕ → ℕ → Run (List ℕ × ℕ)
compact a len =
    if ltb len 2
    then done (a, 0)
    else do (a', write) ← compact_loop (len - 1) a 1 0; done (a', len - suc write)
