-- ===== src/Bench/Tests.antt =====
-- A run of forkscan_test/main.c: a node is added, and two threads try to remove it.
use pp_final_project.Prelude.{ℕ, ◌≡◌, refl, false, true, [], ◌∷◌, All, some}
use pp_final_project.Buffer.Chain.{NotIn, Distinct}
use pp_final_project.Bench.Defs.{
  Bench, add, remove_node, removing, step, is_present, add_load, add_allocate, add_swap,
  remove_exchange, remove_collect, remove_retire, begin, resume,
}
use pp_final_project.Bench.Places.{init, Reach, start, later}
use pp_final_project.Bench.Retired.{Reach-Single}

abbrev one_added : Bench
one_added = step 0 (add 5) (step 0 (add 5) (step 0 (add 5) init))

added : is_present one_added 5 ≡ true
unfolding is_present begin resume add_load add_allocate add_swap
added = refl

-- Threads 1 and 2 both try; thread 1 retires the node.
abbrev removed : Bench
removed =
    step 1 (remove_node 5)
      (step 1 (remove_node 5) (step 2 (remove_node 5) (step 1 (remove_node 5) one_added)))

retires_one : removed.retired ≡ 0 ∷ []
unfolding begin resume add_load add_allocate add_swap remove_exchange remove_collect remove_retire
retires_one = refl

removed-Reach : Reach removed
removed-Reach = later 1 (remove_node 5) (
    later 1 (remove_node 5) (
      later 2 (remove_node 5)
        (later 1 (remove_node 5) (later 0 (add 5) (later 0 (add 5) (later 0 (add 5) start))))))

Reach-Single_example :
    Distinct removed.retired
    × Distinct removed.freed
    × All (λ n. NotIn n removed.freed) removed.retired
    × ((k n : ℕ)
        → removed.array k ≡ some n
        → NotIn n removed.retired
          × NotIn n removed.freed
          × (removed.collected n ≡ false)
          × ((j : ℕ) → removed.array j ≡ some n → j ≡ k))
    × ((i n : ℕ) → removed.pc i ≡ removing n → removed.collected n ≡ false)
Reach-Single_example = Reach-Single removed-Reach
