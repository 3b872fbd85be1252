-- ===== src/Avl/Tests.antt =====
-- Runs of the tree of forkscan-changed/avl.c, and the theorems about it at concrete inputs.
use pp_final_project.Prelude.{
  ◌⊎◌, ℕ, ◌≡◌, refl, Bool, true, false, [], ◌∷◌, done, fail, exit_1, Returns, arith,
}
use pp_final_project.Avl.Defs.{
  Tree, null, node, insert_node, rebalance, new_node, right_rotate, left_rotate, rotate_left_right,
  balance_node, max_int, contains_node, avl_contains, avl_build_from_array, build_loop, avl_create,
  avl_insert, avl_destroy, destroy_node,
}
use pp_final_project.Avl.Entries.{entries, IsAscending}
use pp_final_project.Avl.Balance.{IsAvl}
use pp_final_project.Avl.Insert.{Inserted, insert_node-Inserted}
use pp_final_project.Avl.Lookup.{has, avl_contains-has, insert_node-exit}

abbrev leaf : ℕ → Tree
leaf k = node k 1 false null null

-- Three keys in a left chain of two levels: the next smaller key forces a rotation.
abbrev chain : Tree
chain = node 30 2 false (leaf 20) null

abbrev full : Tree
full = node 20 2 false (leaf 10) (leaf 30)

abbrev always : ℕ → Bool
always i = true

rotates_right : insert_node true chain 10 ≡ done (full, true)
unfolding insert_node rebalance new_node right_rotate balance_node max_int
rotates_right = refl

rotates_twice : insert_node true chain 25 ≡ done (node 25 2 false (leaf 20) (leaf 30), true)
unfolding insert_node rebalance new_node rotate_left_right left_rotate right_rotate balance_node
    max_int
rotates_twice = refl

builds : avl_build_from_array true always (30 ∷ 20 ∷ 10 ∷ 20 ∷ []) 4 ≡ done full
unfolding avl_build_from_array build_loop avl_create avl_insert insert_node rebalance new_node
    right_rotate balance_node max_int
builds = refl

destroys : avl_destroy full ≡ 10 ∷ 30 ∷ 20 ∷ []
unfolding avl_destroy destroy_node
destroys = refl

full-IsAvl : IsAvl full
unfolding max_int
full-IsAvl = omega arith

full-IsAscending : IsAscending (entries full)
full-IsAscending = omega arith

insert_node-Inserted_example : Returns (insert_node true full 25) (Inserted 25 full)
insert_node-Inserted_example = insert_node-Inserted full 25 full-IsAvl full-IsAscending

avl_contains-has_example : avl_contains full 30 ≡ has 30 (entries full)
avl_contains-has_example = avl_contains-has full 30 full-IsAscending

misses : contains_node full 15 ≡ false
unfolding contains_node
misses = refl

insert_node-exit_example :
    (contains_node full 15 ≡ false) × (insert_node false full 15 ≡ fail exit_1)
    ⊎ (contains_node full 15 ≡ true)
      × (insert_node false full 15 ≡ insert_node true full 15)
      × Returns (insert_node false full 15) (Inserted 15 full)
insert_node-exit_example = insert_node-exit full 15 full-IsAvl full-IsAscending
