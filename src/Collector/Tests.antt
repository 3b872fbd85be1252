-- ===== src/Collector/Tests.antt =====
-- Runs of forkscan-changed/forkscan.c, and the theorems about it at concrete inputs.
use mathlib.Core.Path.{subst}
use pp_final_project.Prelude.{
  ℕ, zero, suc, ◌%◌, ◌<◌, ◌≤◌, ◌≡◌, refl, true, false, length, get_elem?, get_elem?-of_le, some,
  List, [], ◌∷◌, take, done, Returns, none, arith,
}
use pp_final_project.Buffer.Defs.{AddrBuffer}
use pp_final_project.Buffer.Lists.{Store}
use pp_final_project.Buffer.Chain.{some_inj}
use pp_final_project.Collector.Gather.{aggregate_addrs}
use pp_final_project.Collector.Aggregate.{all_addrs, Aggregated, aggregate_addrs_lem}
use pp_final_project.Scan.Binary.{◌!◌, IsSorted}
use pp_final_project.Scan.Find.{Tracked}
use pp_final_project.Collector.Defs.{
  generate_minimap, minimap_loop, keep_referenced, keep_loop, keep_addr,
}
use pp_final_project.Collector.Minimap.{generate_minimap-Tracked}
use pp_final_project.Collector.Survivors.{marked_of, keep_referenced_lem}

abbrev buffer : List ℕ → List ℕ → ℕ → AddrBuffer
buffer addrs minimap n_addrs = record {
  next = none;
  addrs = addrs;
  minimap = minimap;
  is_aggregate = false;
  n_addrs = n_addrs;
  n_minimap = 0;
  capacity = 4;
  root_counter = 0;
  roots_completed = 0;
  ref_count = 0;
  free_idx = 0;
}

abbrev two_addresses : AddrBuffer
two_addresses = buffer (16 ∷ 32 ∷ []) (0 ∷ []) 2

one_page :
    generate_minimap two_addresses
    ≡ done (record two_addresses { minimap = 16 ∷ []; n_minimap = 1 })
unfolding generate_minimap minimap_loop
one_page = refl

abbrev scanned : AddrBuffer
scanned = buffer (17 ∷ 32 ∷ 49 ∷ []) [] 3

abbrev empty : AddrBuffer
empty = buffer (0 ∷ 0 ∷ 0 ∷ []) [] 0

keeps_two :
    keep_referenced scanned empty ≡ done (record empty { addrs = 16 ∷ 48 ∷ 0 ∷ []; n_addrs = 2 })
unfolding keep_referenced keep_loop keep_addr
keeps_two = refl

two-IsSorted : IsSorted (16 ∷ 32 ∷ []) 0 2
two-IsSorted zero (suc zero) p q r = omega arith
two-IsSorted i zero p q r = absurd (omega arith)
two-IsSorted (suc i) (suc zero) p q r = absurd (omega arith)
two-IsSorted i (suc (suc j)) p q r = absurd (omega arith)

two_aligned : (i : ℕ) → i < 2 → ((16 ∷ 32 ∷ []) ! i) % 4 ≡ 0
two_aligned zero p = refl
two_aligned (suc zero) p = refl
two_aligned (suc (suc i)) p = absurd (omega arith)

generate_minimap-Tracked_example :
    Returns
      (generate_minimap two_addresses)
      (λ ab. Tracked ab (16 ∷ 32 ∷ []) × (ab.addrs ≡ (16 ∷ 32 ∷ [])) × (ab.n_addrs ≡ 2))
generate_minimap-Tracked_example =
    generate_minimap-Tracked two_addresses (omega arith) (omega arith) (omega arith) two-IsSorted
      two_aligned

keep_referenced_lem_example :
    Returns
      (keep_referenced scanned empty)
      (λ kept'. take kept'.n_addrs kept'.addrs ≡ marked_of (take 3 (17 ∷ 32 ∷ 49 ∷ [])))
keep_referenced_lem_example = keep_referenced_lem scanned empty refl (omega arith) (omega arith)

-- The old buffer 0 with the address 8, too small for more, and the list of the buffers 1 and 2.
abbrev gathered_list : List AddrBuffer
gathered_list =
    record (buffer (8 ∷ []) [] 1) { is_aggregate = true; capacity = 1 }
    ∷ record (buffer (16 ∷ 32 ∷ 0 ∷ 0 ∷ []) [] 2) { next = some 2 }
    ∷ buffer (24 ∷ 0 ∷ 0 ∷ 0 ∷ []) [] 1
    ∷ []

abbrev before : Store
before = record {
  bufs = λ j. get_elem? gathered_list j;
  fresh = 3;
  default_capacity = 4;
  reclaimer_list = none;
  first_retiree = none;
  last_retiree = none;
  available_aggregates = none;
  dead_references = none;
}

room_in :
    (c b : AddrBuffer) → c.n_addrs ≤ length c.addrs → some c ≡ some b → b.n_addrs ≤ length b.addrs
room_in c b h e = subst (λ x. x.n_addrs ≤ length x.addrs) (some_inj e) h

aggregate_addrs_lem_example :
    Returns (aggregate_addrs (some 0) 1 before) (Aggregated before (some 0) (1 ∷ 2 ∷ []))
aggregate_addrs_lem_example =
    aggregate_addrs_lem before (some 0) 1 (2 ∷ []) [] (λ j h. get_elem?-of_le gathered_list j h)
      (record { chain = refl; distinct = tt; free = tt })
      (
        refl,
        record (buffer (16 ∷ 32 ∷ 0 ∷ 0 ∷ []) [] 2) { next = some 2 },
        refl,
        (refl, buffer (24 ∷ 0 ∷ 0 ∷ 0 ∷ []) [] 1, refl, refl),
      )
      ((λ e. absurd (omega arith), tt), (tt, tt))
      (
        λ b e.
            room_in (record (buffer (16 ∷ 32 ∷ 0 ∷ 0 ∷ []) [] 2) { next = some 2 }) b (omega arith)
              e,
        (λ b e. room_in (buffer (24 ∷ 0 ∷ 0 ∷ 0 ∷ []) [] 1) b (omega arith) e, tt),
      )
      (tt, (tt, tt))
      (record {
        buffer = record (buffer (8 ∷ []) [] 1) { is_aggregate = true; capacity = 1 };
        at = refl;
        aggregate = refl;
        fits = omega arith;
        roomy = omega arith;
        unlisted = tt;
        other = (λ e. absurd (omega arith), (λ e. absurd (omega arith), tt));
        not_first = refl;
        not_last = refl;
      })
      (omega arith)

all_example : all_addrs before (some 0) (1 ∷ 2 ∷ []) ≡ 8 ∷ 16 ∷ 32 ∷ 24 ∷ []
all_example = refl
