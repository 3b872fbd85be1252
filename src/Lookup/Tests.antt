-- ===== src/Lookup/Tests.antt =====
-- The lookaside list {2400, 1600, 2400} against a buffer of three addresses.
use pp_final_project.Prelude.{
  ℕ, zero, suc, ◌*◌, ◌%◌, ◌<◌, ◌≡◌, inl, refl, true, List, [], ◌∷◌, Returns, none, arith, ◌==◌,
  if◌then◌else◌, take,
}
use pp_final_project.Buffer.Defs.{AddrBuffer}
use pp_final_project.Scan.Defs.{TraceStats}
use pp_final_project.Scan.Binary.{◌!◌, IsSorted}
use pp_final_project.Scan.Find.{Tracked}
use pp_final_project.Scan.Trace.{Spans}
use pp_final_project.Lookup.Defs.{lookup_lookaside_list}
use pp_final_project.Lookup.Loop.{LookedUp}
use pp_final_project.Lookup.Whole.{lookup_lookaside_list-LookedUp}

abbrev orig : List ℕ
orig = 1600 ∷ 2400 ∷ 3200 ∷ []

abbrev three : AddrBuffer
three = record {
  next = none;
  addrs = 1600 ∷ 2400 ∷ 3200 ∷ [];
  minimap = 1600 ∷ [];
  is_aggregate = true;
  n_addrs = 3;
  n_minimap = 1;
  capacity = 3;
  root_counter = 0;
  roots_completed = 0;
  ref_count = 0;
  free_idx = 0;
}

-- The block at 1600 refers to that at 3200.
abbrev memory : ℕ → ℕ
memory a = if a == 1600 then 3200 else 0

abbrev one_word : ℕ → ℕ
one_word a = 8

abbrev range : TraceStats
range = record { least = 1600; greatest = 3200 }

by_cases : (P : ℕ → Type 0) → P 0 → P 1 → P 2 → (i : ℕ) → i < 3 → P i
by_cases P a b c zero p = a
by_cases P a b c (suc zero) p = b
by_cases P a b c (suc (suc zero)) p = c
by_cases P a b c (suc (suc (suc i))) p = absurd (omega arith)

orig-IsSorted : IsSorted orig 0 3
orig-IsSorted i j p q r =
    by_cases (λ i. i < j → orig ! i < orig ! j)
      (by_cases (λ j. 0 < j → 1600 < orig ! j) (λ h. absurd (omega arith)) (λ h. omega arith)
        (λ h. omega arith) j r)
      (by_cases (λ j. 1 < j → 2400 < orig ! j) (λ h. absurd (omega arith))
        (λ h. absurd (omega arith)) (λ h. omega arith) j r)
      (λ h. absurd (omega arith)) i (omega arith) q

three-Tracked : Tracked three orig
three-Tracked = record {
  some_addr = omega arith;
  room = omega arith;
  sorted = orig-IsSorted;
  aligned = by_cases (λ i. (orig ! i) % 4 ≡ 0) refl refl refl;
  cells = by_cases _ (inl refl) (inl refl) (inl refl);
  map_room = omega arith;
  last_page = omega arith;
  all_pages = omega arith;
  map_cells = λ k p. at k p;
}
  where
    at : (k : ℕ) → k < 1 → three.minimap ! k ≡ orig ! (k * 512)
    at zero p = refl
    at (suc k) p = absurd (omega arith)

three-Spans : Spans memory one_word range three orig
three-Spans =
    by_cases _ (omega arith, omega arith) (omega arith, omega arith) (omega arith, omega arith)

abbrev lookaside : List ℕ
lookaside = 2400 ∷ 1600 ∷ 2400 ∷ 0 ∷ []

lookup_lookaside_list-LookedUp_example :
    Returns
      (lookup_lookaside_list memory one_word range 0 (λ j. true) lookaside 3 three)
      (λ r. (r.1 ≡ 0) × LookedUp memory one_word range 0 (take 3 lookaside) three r.2)
lookup_lookaside_list-LookedUp_example =
    lookup_lookaside_list-LookedUp memory one_word range 0 orig (λ j. true) lookaside 3 three
      (λ j. refl) (omega arith) three-Tracked three-Spans (omega arith) (omega arith)
