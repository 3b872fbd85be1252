-- ===== src/Scan/Tests.antt =====
-- Runs of forkscan-changed/child.c, and the theorems about it at concrete inputs.
use pp_final_project.Prelude.{
  ℕ, zero, suc, ◌+◌, ◌*◌, ◌%◌, ◌⊎◌, ◌<◌, ◌≡◌, refl, false, List, [], ◌∷◌, done, Returns, none, inl,
  inr, arith, if◌then◌else◌, ◌==◌,
}
use pp_final_project.Buffer.Defs.{AddrBuffer}
use pp_final_project.Scan.Defs.{
  addr_find, binary_search, binary_loop, iterative_search, iterative_loop, TraceStats,
  recursive_mark, mark_loop, mark_found, is_ref, ptr_mask,
}
use pp_final_project.Scan.Binary.{◌!◌, IsSorted}
use pp_final_project.Scan.Find.{Tracked}
use pp_final_project.Scan.Mark.{unmarked}
use pp_final_project.Scan.Trace.{recursive_mark-Traced, Traced, Spans}

-- Three tracked addresses, the second with a mark.
abbrev three : AddrBuffer
three = record {
  next = none;
  addrs = 1600 ∷ 2401 ∷ 3200 ∷ 0 ∷ [];
  minimap = 1600 ∷ [];
  is_aggregate = false;
  n_addrs = 3;
  n_minimap = 1;
  capacity = 4;
  root_counter = 0;
  roots_completed = 0;
  ref_count = 1;
  free_idx = 0;
}

abbrev orig : List ℕ
orig = 1600 ∷ 2400 ∷ 3200 ∷ []

-- A block of two words at 800, with a reference to the first tracked address; and the block at 1600
-- has a reference to the third.
abbrev memory : ℕ → ℕ
memory a = if a == 808 then 1600 else (if a == 1600 then 3200 else 7)

abbrev two_words : ℕ → ℕ
two_words a = 16

abbrev range : TraceStats
range = record { least = 1600; greatest = 3200 }

finds : addr_find 3200 three ≡ done 2
unfolding addr_find binary_search binary_loop iterative_search iterative_loop
finds = refl

-- An address that bears a mark is not found: the index returned holds another.
passes_over : addr_find 2400 three ≡ done 0
unfolding addr_find binary_search binary_loop iterative_search iterative_loop
passes_over = refl

-- The first address is marked; the third, which only the block at 1600 refers to, is not.
not_transitive :
    recursive_mark memory two_words range 4 800 three
    ≡ done (record three { addrs = 1601 ∷ 2401 ∷ 3200 ∷ 0 ∷ [] })
unfolding recursive_mark mark_loop mark_found is_ref addr_find binary_search binary_loop
    iterative_search iterative_loop
not_transitive = refl

by_cases : (P : ℕ → Type 0) → P 0 → P 1 → P 2 → (i : ℕ) → i < 3 → P i
by_cases P a b c zero p = a
by_cases P a b c (suc zero) p = b
by_cases P a b c (suc (suc zero)) p = c
by_cases P a b c (suc (suc (suc i))) p = absurd (omega arith)

orig-IsSorted : IsSorted orig 0 3
orig-IsSorted i j p q r =
    by_cases (λ i. i < j → orig ! i < orig ! j)
      (by_cases (λ j. 0 < j → 1600 < orig ! j) (λ h. absurd (omega arith)) (λ h. omega arith)
        (λ h. omega arith) j r)
      (by_cases (λ j. 1 < j → 2400 < orig ! j) (λ h. absurd (omega arith))
        (λ h. absurd (omega arith)) (λ h. omega arith) j r)
      (λ h. absurd (omega arith)) i (omega arith) q

three-Tracked : Tracked three orig
three-Tracked = record {
  some_addr = omega arith;
  room = omega arith;
  sorted = orig-IsSorted;
  aligned = aligned;
  cells = cells;
  map_room = omega arith;
  last_page = omega arith;
  all_pages = omega arith;
  map_cells = map_cells;
}
  where
    aligned : (i : ℕ) → i < 3 → (orig ! i) % 4 ≡ 0
    aligned = by_cases (λ i. (orig ! i) % 4 ≡ 0) refl refl refl

    cells : (i : ℕ) → i < 3 → (three.addrs ! i ≡ orig ! i) ⊎ (three.addrs ! i ≡ orig ! i + 1)
    cells = by_cases _ (inl refl) (inr refl) (inl refl)

    map_cells : (k : ℕ) → k < 1 → three.minimap ! k ≡ orig ! (k * 512)
    map_cells zero p = refl
    map_cells (suc k) p = absurd (omega arith)

three-Spans : Spans memory two_words range three orig
three-Spans =
    by_cases _ (omega arith, omega arith) (omega arith, omega arith) (omega arith, omega arith)

few : unmarked three.addrs 3 < 4
unfolding unmarked
few = omega arith

recursive_mark-Traced_example :
    Returns
      (recursive_mark memory two_words range 4 800 three)
      (Traced memory two_words range (ptr_mask 800) three)
recursive_mark-Traced_example =
    recursive_mark-Traced memory two_words range orig 4 800 three three-Tracked three-Spans few
