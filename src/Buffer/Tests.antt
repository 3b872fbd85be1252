-- ===== src/Buffer/Tests.antt =====
-- The lists of forkscan-changed/buffer.c on a store of five buffers.
use mathlib.Core.Path.{subst}
use pp_final_project.Prelude.{
  ℕ, ◌≤◌, ◌≡◌, refl, true, false, List, [], ◌∷◌, length, get_elem?, get_elem?-of_le, ◌+◌, Option,
  none, some, Returns, arith, inl,
}
use pp_final_project.Buffer.Defs.{AddrBuffer}
use pp_final_project.Buffer.Lists.{
  Store, store, mapped, make_aggregate_buffer, push_back, pop_retiree_buffer, get_retiree_buffer,
  increment,
}
use pp_final_project.Buffer.Chain.{some_inj, Retirees}
use pp_final_project.Buffer.Retire.{
  push_back-Retirees, pop_retiree_buffer-Retirees, get_retiree_buffer-Retirees,
}
use pp_final_project.Buffer.Aggregate.{Made, make_aggregate_buffer-Roomy}
use pp_final_project.Buffer.Dead.{get_dead_references}
use pp_final_project.Buffer.DeadList.{dead_list}
use pp_final_project.Buffer.DeadRefs.{all_dead, dead_of, First, get_dead_references-First}

-- A retiree buffer: the first address is marked, the second freed.
abbrev retiree : Option ℕ → ℕ → AddrBuffer
retiree next base = record (mapped true 4 4 1) {
  next = next;
  addrs = (base + 1) ∷ 2 ∷ (base + 16) ∷ (base + 24) ∷ [];
  n_addrs = 4;
}

-- Retirees 0 and 1, an available aggregate 2, the static buffer 3, and a buffer 4 in no list.
abbrev buffer_list : List AddrBuffer
buffer_list =
    retiree (some 1) 64
    ∷ retiree none 128
    ∷ mapped true 4 4 1
    ∷ mapped false 3 3 0
    ∷ retiree none 256
    ∷ []

abbrev buffers : ℕ → Option AddrBuffer
buffers j = get_elem? buffer_list j

abbrev example : Store
example = record {
  bufs = buffers;
  fresh = 5;
  default_capacity = 3;
  reclaimer_list = none;
  first_retiree = some 0;
  last_retiree = some 1;
  available_aggregates = some 2;
  dead_references = some 3;
}

unused_numbers : (j : ℕ) → 5 ≤ j → buffers j ≡ none
unused_numbers j h = get_elem?-of_le buffer_list j h

example-Retirees : Retirees example (0 ∷ 1 ∷ [])
example-Retirees = record {
  chain = (refl, retiree (some 1) 64, refl, (refl, retiree none 128, refl, refl));
  last = refl;
  distinct = ((λ e. absurd (omega arith), tt), (tt, tt));
  unused = unused_numbers;
}

push_back-Retirees_example : Returns (push_back 4 example) (λ s'.
    Retirees s' (0 ∷ 1 ∷ 4 ∷ [])
    × (s'.bufs 4 ≡ some (record (retiree none 256) { ref_count = 1; free_idx = 0; next = none })))
push_back-Retirees_example =
    push_back-Retirees example (0 ∷ 1 ∷ []) 4 (retiree none 256) example-Retirees refl
      (λ e. absurd (omega arith), (λ e. absurd (omega arith), tt))

pop_retiree_buffer-Retirees_example :
    Returns (pop_retiree_buffer 0 example) (λ s'. Retirees s' (1 ∷ []) × (s'.bufs ≡ buffers))
pop_retiree_buffer-Retirees_example =
    pop_retiree_buffer-Retirees example 0 (1 ∷ []) (inl example-Retirees)

get_retiree_buffer-Retirees_example : Returns (get_retiree_buffer example) (λ r.
    Retirees r.0 (0 ∷ 1 ∷ [])
    × (r.1 ≡ some 0)
    × ((i : ℕ) (b : AddrBuffer)
        → r.1 ≡ some i
        → buffers i ≡ some b
        → r.0.bufs i ≡ some (record b { ref_count = increment b.ref_count })))
get_retiree_buffer-Retirees_example =
    get_retiree_buffer-Retirees example (0 ∷ 1 ∷ []) example-Retirees

make_aggregate_buffer-Roomy_example : Returns (make_aggregate_buffer 3 example) (Made 3)
make_aggregate_buffer-Roomy_example =
    make_aggregate_buffer-Roomy 3 example (2 ∷ []) unused_numbers (record {
      chain = (refl, mapped true 4 4 1, refl, refl);
      distinct = (tt, tt);
      free = ((mapped true 4 4 1, refl, (omega arith, omega arith), refl), tt);
    })

whole :
    (next : Option ℕ) (base : ℕ) (b : AddrBuffer)
    → some (retiree next base) ≡ some b
    → b.n_addrs ≤ length b.addrs
whole next base b e = subst (λ x. x.n_addrs ≤ length x.addrs) (some_inj e) (omega arith)

get_dead_references-First_example : Returns (get_dead_references example) (λ r.
    (r.1 ≡ 3)
    × (r' : AddrBuffer) × (r.0 ≡ store example 3 r')
    × First 3 3 (all_dead buffers (0 ∷ 1 ∷ [])) r')
get_dead_references-First_example =
    get_dead_references-First example (0 ∷ 1 ∷ []) 3 (mapped false 3 3 0) example-Retirees
      (λ b e. whole (some 1) 64 b e, (λ b e. whole none 128 b e, tt)) refl refl (omega arith)
      (omega arith)

dead_example : all_dead buffers (0 ∷ 1 ∷ []) ≡ 80 ∷ 88 ∷ 144 ∷ 152 ∷ []
unfolding all_dead dead_of dead_list
dead_example = refl
