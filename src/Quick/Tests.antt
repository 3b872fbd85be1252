-- ===== src/Quick/Tests.antt =====
-- The sorts of forkscan-changed/util.c on small arrays.
use pp_final_project.Prelude.{ℕ, ◌≤◌, ◌≡◌, refl, List, [], ◌∷◌, done, Returns, arith}
use pp_final_project.Scan.Binary.{◌!◌}
use pp_final_project.Quick.Defs.{
  swap, partition_cell, partition_loop, place_pivot, partition, insert_cell, insert_down,
  insertion_loop, insertion_sort, quicksort, util_sort, randomize_loop, randomize,
}
use pp_final_project.Quick.Exchange.{count}
use pp_final_project.Quick.Insertion.{InOrder}
use pp_final_project.Quick.Quicksort.{util_sort_lem}
use pp_final_project.Quick.Shuffle.{randomize_lem}

abbrev addresses : List ℕ
addresses = 40 ∷ 8 ∷ 24 ∷ 8 ∷ 96 ∷ 0 ∷ []

sorted_addresses : util_sort addresses 5 ≡ done (8 ∷ 8 ∷ 24 ∷ 40 ∷ 96 ∷ 0 ∷ [])
unfolding util_sort quicksort insertion_sort insertion_loop insert_down insert_cell swap
sorted_addresses = refl

-- Long enough for a partition.
abbrev many : List ℕ
many = 7 ∷ 3 ∷ 9 ∷ 1 ∷ 20 ∷ 4 ∷ 18 ∷ 2 ∷ 11 ∷ 5 ∷ 16 ∷ 8 ∷ 14 ∷ 6 ∷ 12 ∷ 10 ∷ 19 ∷ 13 ∷ 17 ∷ 15 ∷ []

sorted_many :
    util_sort many 20
    ≡ done (
        1 ∷ 2 ∷ 3 ∷ 4 ∷ 5 ∷ 6 ∷ 7 ∷ 8 ∷ 9 ∷ 10 ∷ 11 ∷ 12 ∷ 13 ∷ 14 ∷ 15 ∷ 16 ∷ 17 ∷ 18 ∷ 19 ∷ 20
        ∷ [])
unfolding util_sort quicksort partition partition_loop partition_cell place_pivot insertion_sort
    insertion_loop insert_down insert_cell swap
sorted_many = refl

-- The insertion sort alone carries a cell below its range.
escapes : insertion_sort (9 ∷ 5 ∷ 3 ∷ []) 1 3 ≡ done (3 ∷ 9 ∷ 5 ∷ [])
unfolding insertion_sort insertion_loop insert_down insert_cell swap
escapes = refl

util_sort_lem_example : Returns (util_sort many 20) (λ b.
    InOrder b 0 20 × ((v : ℕ) → count v b ≡ count v many) × ((k : ℕ) → 20 ≤ k → b ! k ≡ many ! k))
util_sort_lem_example = util_sort_lem many 20 (omega arith)

randomize_lem_example :
    Returns
      (randomize addresses 6)
      (λ b. ((v : ℕ) → count v b ≡ count v addresses) × ((k : ℕ) → 6 ≤ k → b ! k ≡ addresses ! k))
randomize_lem_example = randomize_lem addresses 6 (omega arith)

shuffled : randomize addresses 6 ≡ done (96 ∷ 8 ∷ 24 ∷ 8 ∷ 40 ∷ 0 ∷ [])
unfolding randomize randomize_loop swap
shuffled = refl
