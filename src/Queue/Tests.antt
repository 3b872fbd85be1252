-- ===== src/Queue/Tests.antt =====
-- Runs of forkscan-changed/queue.c, and the theorems about it at concrete inputs.
use pp_final_project.Prelude.{
  ℕ, zero, suc, ◌+◌, ◌%◌, ◌<◌, ◌≡◌, ◌≢◌, refl, List, [], ◌∷◌, ◌++◌, length, take, drop, min, done,
  Returns, arith, blit,
}
use pp_final_project.Queue.Defs.{
  Queue, wrap, indexify, memcpy, copy_in, push_bulk, sub_64, check_values, copy_some, copy_out,
  pop_count, pop_bulk,
}
use pp_final_project.Queue.Fifo.{◌!◌, Represents}
use pp_final_project.Queue.PushBulk.{push_bulk-Represents}
use pp_final_project.Queue.PopBulk.{pop_bulk-Represents}

-- Two values, of which the second has wrapped around to the first cell.
abbrev wrapped : Queue
wrapped = record { e = 8 ∷ 0 ∷ 0 ∷ 7 ∷ []; capacity = 4; idx_head = 5; idx_tail = 7 }

pops_both :
    pop_bulk (0 ∷ 0 ∷ 5 ∷ []) 3 wrapped ≡ done (7 ∷ 8 ∷ 5 ∷ [], 2, record wrapped { idx_tail = 9 })
unfolding pop_bulk pop_count copy_out copy_some memcpy check_values sub_64 wrap indexify blit
pops_both = refl

pushes_one :
    push_bulk wrapped (9 ∷ []) 1 ≡ done (record wrapped { e = 8 ∷ 9 ∷ 0 ∷ 7 ∷ []; idx_head = 6 })
unfolding push_bulk copy_in memcpy wrap indexify blit
pushes_one = refl

abbrev held : List ℕ
held = 7 ∷ 8 ∷ []

wrapped-Represents : Represents wrapped held
wrapped-Represents = record {
  log_capacity = 2;
  power = refl;
  buffer = omega arith;
  fits = omega arith;
  started = omega arith;
  count = refl;
  no_wrap = omega arith;
  cells = cells;
}
  where
    cells : (j : ℕ) → j < 2 → wrapped.e ! ((7 + j) % 4) ≡ held ! j
    cells zero p = refl
    cells (suc zero) p = refl
    cells (suc (suc j)) p = absurd (omega arith)

values-nonzero : (j : ℕ) → j < 2 → held ! j ≢ 0
values-nonzero zero p = omega arith
values-nonzero (suc zero) p = omega arith
values-nonzero (suc (suc j)) p = absurd (omega arith)

push_bulk-Represents_example :
    Returns (push_bulk wrapped (9 ∷ 10 ∷ []) 1) (λ q'. Represents q' (held ++ take 1 (9 ∷ 10 ∷ [])))
push_bulk-Represents_example =
    push_bulk-Represents wrapped held wrapped-Represents (9 ∷ 10 ∷ []) 1 (omega arith) (omega arith)

pop_bulk-Represents_example : Returns (pop_bulk (0 ∷ 0 ∷ 5 ∷ []) 3 wrapped) (λ p.
    let n = min 3 (length held) in
    (p.0 ≡ take n held ++ drop n (0 ∷ 0 ∷ 5 ∷ []))
    × (p.1 ≡ n)
    × Represents p.2 (drop n held)
    × (p.2.capacity ≡ 4))
pop_bulk-Represents_example =
    pop_bulk-Represents wrapped held wrapped-Represents (0 ∷ 0 ∷ 5 ∷ []) 3 (omega arith)
      (omega arith) (omega arith) values-nonzero
