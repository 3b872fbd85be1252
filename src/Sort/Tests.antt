-- ===== src/Sort/Tests.antt =====
-- Runs of the sort utilities of forkscan-changed/util.c, and the theorems about them at concrete
-- inputs.
use mathlib.Core.List.{Perm}
use pp_final_project.Prelude.{
  ℕ, ◌-◌, ◌≡◌, refl, Bool, true, List, [], ◌∷◌, ◌++◌, length, get_elem?, take, drop, done, Returns,
  arith,
}
use pp_final_project.Avl.Defs.{
  avl_build_from_array, build_loop, avl_create, avl_insert, insert_node, rebalance, new_node,
  right_rotate, left_rotate, balance_node, max_int, avl_inorder, inorder_traverse, avl_destroy,
  destroy_node,
}
use pp_final_project.Sort.Defs.{avl_sort, write_to_array, compact, compact_loop}
use pp_final_project.Sort.Compact.{dedup, compact_lem}
use pp_final_project.Sort.AvlSort.{sorted_keys, avl_sort_lem}
use pp_final_project.Sort.Distinct.{avl_sort_duplicate, avl_sort_distinct, IsIncreasing, IsDistinct}

abbrev always : ℕ → Bool
always i = true

-- The last cell holds 1 before and after, so the result is not in order and has lost a 3.
stale_tail : avl_sort true always (3 ∷ 3 ∷ 1 ∷ []) 3 ≡ done (1 ∷ 3 ∷ 1 ∷ [], 1 ∷ 3 ∷ [])
unfolding avl_sort avl_build_from_array build_loop avl_create avl_insert insert_node rebalance
    new_node right_rotate left_rotate balance_node max_int avl_inorder inorder_traverse avl_destroy
    destroy_node write_to_array
stale_tail = refl

compacts :
    compact (4 ∷ 4 ∷ 8 ∷ 8 ∷ 8 ∷ 12 ∷ 99 ∷ []) 6 ≡ done (4 ∷ 8 ∷ 12 ∷ 8 ∷ 8 ∷ 12 ∷ 99 ∷ [], 3)
unfolding compact compact_loop
compacts = refl

compact_lem_example :
    let kept = dedup (4 ∷ 4 ∷ 8 ∷ []) in
    compact (4 ∷ 4 ∷ 8 ∷ 1 ∷ []) 3
    ≡ done (kept ++ drop (length kept) (4 ∷ 4 ∷ 8 ∷ 1 ∷ []), 3 - length kept)
compact_lem_example = compact_lem (4 ∷ 4 ∷ 8 ∷ 1 ∷ []) 3 (omega arith)

avl_sort_lem_example : Returns (avl_sort true always (3 ∷ 3 ∷ 1 ∷ []) 3) (λ r.
    r.0
    ≡ sorted_keys (3 ∷ 3 ∷ 1 ∷ []) ++ drop (length (sorted_keys (3 ∷ 3 ∷ 1 ∷ []))) (3 ∷ 3 ∷ 1 ∷ []))
avl_sort_lem_example = avl_sort_lem always (3 ∷ 3 ∷ 1 ∷ []) 3 (λ j. refl) (omega arith)

abbrev three : List ℕ
three = 9 ∷ 2 ∷ 5 ∷ 7 ∷ []

three-IsDistinct : IsDistinct (take 3 three)
three-IsDistinct = omega arith

avl_sort_distinct_example :
    Returns
      (avl_sort true always three 3)
      (λ r. (s : List ℕ) × (r.0 ≡ s ++ drop 3 three) × IsIncreasing s × Perm s (take 3 three))
avl_sort_distinct_example =
    avl_sort_distinct always three 3 (λ j. refl) (omega arith) three-IsDistinct

avl_sort_duplicate_example :
    Returns
      (avl_sort true always (3 ∷ 3 ∷ 1 ∷ []) 3)
      (λ r. get_elem? r.0 (3 - 1) ≡ get_elem? (3 ∷ 3 ∷ 1 ∷ []) (3 - 1))
avl_sort_duplicate_example =
    avl_sort_duplicate always (3 ∷ 3 ∷ 1 ∷ []) 3 3 [] [] (1 ∷ []) (λ j. refl) (omega arith) refl
