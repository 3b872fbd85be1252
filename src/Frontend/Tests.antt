-- ===== src/Frontend/Tests.antt =====
-- `generate_working_pointers_list` of forkscan-changed/frontend.c on the queues of two threads.
use pp_final_project.Prelude.{
  ℕ, zero, suc, ◌+◌, ◌%◌, ◌<◌, ◌≡◌, ◌≢◌, refl, [], ◌∷◌, true, Returns, arith,
}
use pp_final_project.Buffer.Defs.{AddrBuffer}
use pp_final_project.Buffer.Lists.{mapped}
use pp_final_project.Buffer.Aggregate.{length-replicate}
use pp_final_project.Queue.Defs.{Queue}
use pp_final_project.Queue.Fifo.{◌!◌}
use pp_final_project.Frontend.Defs.{generate_working_pointers_list}
use pp_final_project.Frontend.Gather.{Retired, Working}
use pp_final_project.Frontend.Whole.{generate_working_pointers_list_lem}

-- One pointer, and two of which the second has wrapped around.
abbrev first : Queue
first = record { e = 16 ∷ 0 ∷ []; capacity = 2; idx_head = 1; idx_tail = 2 }

abbrev second : Queue
second = record { e = 8 ∷ 0 ∷ 0 ∷ 24 ∷ []; capacity = 4; idx_head = 5; idx_tail = 7 }

abbrev working : AddrBuffer
working = mapped true 1024 1024 2

first-Retired : Retired 1024 first (16 ∷ [])
first-Retired = record {
  holds = record {
    log_capacity = 1;
    power = refl;
    buffer = omega arith;
    fits = omega arith;
    started = omega arith;
    count = refl;
    no_wrap = omega arith;
    cells = cells;
  };
  nonzero = nonzero;
  no_wrap = omega arith;
  room = omega arith;
}
  where
    cells : (j : ℕ) → j < 1 → first.e ! ((2 + j) % 2) ≡ (16 ∷ []) ! j
    cells zero p = refl
    cells (suc j) p = absurd (omega arith)

    nonzero : (j : ℕ) → j < 1 → (16 ∷ []) ! j ≢ 0
    nonzero zero p = omega arith
    nonzero (suc j) p = absurd (omega arith)

second-Retired : Retired 1024 second (24 ∷ 8 ∷ [])
second-Retired = record {
  holds = record {
    log_capacity = 2;
    power = refl;
    buffer = omega arith;
    fits = omega arith;
    started = omega arith;
    count = refl;
    no_wrap = omega arith;
    cells = cells;
  };
  nonzero = nonzero;
  no_wrap = omega arith;
  room = omega arith;
}
  where
    cells : (j : ℕ) → j < 2 → second.e ! ((7 + j) % 4) ≡ (24 ∷ 8 ∷ []) ! j
    cells zero p = refl
    cells (suc zero) p = refl
    cells (suc (suc j)) p = absurd (omega arith)

    nonzero : (j : ℕ) → j < 2 → (24 ∷ 8 ∷ []) ! j ≢ 0
    nonzero zero p = omega arith
    nonzero (suc zero) p = omega arith
    nonzero (suc (suc j)) p = absurd (omega arith)

generate_working_pointers_list_lem_example :
    Returns
      (generate_working_pointers_list 1024 1 (first ∷ second ∷ []) working)
      (Working working (16 ∷ 24 ∷ 8 ∷ []) (first ∷ second ∷ []))
generate_working_pointers_list_lem_example =
    generate_working_pointers_list_lem 4 1 (first ∷ second ∷ []) ((16 ∷ []) ∷ (24 ∷ 8 ∷ []) ∷ [])
      working (omega (arith, length-replicate 1024 0)) (omega arith)
      (first-Retired, (second-Retired, tt)) (omega arith, (omega arith, tt)) (omega arith)
      (omega arith)
