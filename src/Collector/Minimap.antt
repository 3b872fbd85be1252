-- ===== src/Collector/Minimap.antt =====
-- `generate_minimap` of forkscan-changed/forkscan.c makes the buffer that the child's search relies on.
use native.Mathlib.Decide.{ℕ_discrete}
use pp_final_project.Prelude.{
  ℕ, zero, suc, ◌+◌, ◌*◌, ◌%◌, ◌≤◌, ◌<◌, ◌≡◌, refl, ◌∙◌, inl, inr, false, List, length, set, ltb,
  done, Returns, Returns-imp, Bool-cases, arith, get_elem?-eq-get_or, length-set, get_or-set_self,
  get_or-set_ne, lt→ltb, ltb→lt,
}
use pp_final_project.Buffer.Defs.{AddrBuffer}
use pp_final_project.Scan.Defs.{page_addrs}
use pp_final_project.Scan.Binary.{◌!◌, IsSorted}
use pp_final_project.Scan.Find.{Tracked}
use pp_final_project.Collector.Defs.{minimap_loop, generate_minimap}

-- `minimap` is the minimap of `start` with its first `n` cells filled.
record Mapped (start : AddrBuffer) (minimap : List ℕ) (n : ℕ) : Type 0 where
  size : length minimap ≡ length start.minimap
  cells : (k : ℕ) → k < n → minimap ! k ≡ start.addrs ! (k * page_addrs)
  last_page : n * page_addrs < start.n_addrs + page_addrs

-- One round.
abbrev with_page : AddrBuffer → ℕ → AddrBuffer
with_page ab i = record ab {
  minimap = set ab.minimap ab.n_minimap (ab.addrs ! i);
  n_minimap = suc ab.n_minimap;
}

minimap_loop-next :
    (fuel : ℕ) (ab : AddrBuffer) (i : ℕ)
    → i < ab.n_addrs
    → i < length ab.addrs
    → ab.n_minimap < length ab.minimap
    → minimap_loop (suc fuel) ab i ≡ minimap_loop fuel (with_page ab i) (i + page_addrs)
unfolding minimap_loop
minimap_loop-next fuel ab i p q r =
    rw (lt→ltb i ab.n_addrs p, minimap_loop)
      (rw (get_elem?-eq-get_or ab.addrs i 0 q) (rw (lt→ltb ab.n_minimap (length ab.minimap) r)))

minimap_loop-end :
    (fuel : ℕ) (ab : AddrBuffer) (i : ℕ)
    → ltb i ab.n_addrs ≡ false
    → minimap_loop (suc fuel) ab i ≡ done ab
unfolding minimap_loop
minimap_loop-end fuel ab i e = rw (e, minimap_loop)

module _ (start : AddrBuffer) (room : start.n_addrs ≤ length start.addrs)
    (map_room : start.n_addrs ≤ length start.minimap * page_addrs) where
  abbrev filled : List ℕ → ℕ → AddrBuffer
  filled minimap n = record start { minimap = minimap; n_minimap = n }

  set-Mapped :
      (minimap : List ℕ) (n : ℕ)
      → Mapped start minimap n
      → n * page_addrs < start.n_addrs
      → Mapped start (set minimap n (start.addrs ! (n * page_addrs))) (suc n)
  set-Mapped minimap n m p = record {
    size = length-set minimap n v ∙ m.size;
    cells = λ k q. elim (ℕ_discrete n k) [
      | yes here ↦ rw (← here) (get_or-set_self minimap n v 0 (omega (arith, m.size)))
      | no other ↦ get_or-set_ne minimap n k v 0 other ∙ m.cells k (omega arith)
    ];
    last_page = omega arith;
  }
    where
      v : ℕ
      v = start.addrs ! (n * page_addrs)

  minimap_loop-Mapped :
      (fuel : ℕ) (minimap : List ℕ) (n : ℕ)
      → Mapped start minimap n
      → start.n_addrs + page_addrs ≤ n * page_addrs + fuel * page_addrs
      → Returns (minimap_loop fuel (filled minimap n) (n * page_addrs)) (λ ab.
        (minimap : List ℕ) × (n : ℕ) × (ab ≡ filled minimap n)
        × Mapped start minimap n
        × (start.n_addrs ≤ n * page_addrs))
  minimap_loop-Mapped zero minimap n m few = absurd (omega (arith, m.last_page))
  minimap_loop-Mapped (suc fuel) minimap n m few =
      elim (Bool-cases (ltb (n * page_addrs) start.n_addrs)) [
        | inr end ↦
            rw (minimap_loop-end fuel (filled minimap n) (n * page_addrs) end)
              (minimap, n, refl, m, ground arith)
        | inl more ↦
            let p : n * page_addrs < start.n_addrs = ltb→lt _ _ more in
            let next : n * page_addrs + page_addrs ≡ suc n * page_addrs = omega arith in
            rw
              (
                minimap_loop-next fuel (filled minimap n) (n * page_addrs) p (omega (arith, room))
                    (omega (arith, m.size, map_room)),
                next,
              )
              (minimap_loop-Mapped fuel (set minimap n (start.addrs ! (n * page_addrs))) (suc n)
                (set-Mapped minimap n m p) (omega arith))
      ]

  -- On a buffer with at least one address, whose addresses are aligned and strictly increasing, and
  -- whose minimap has a cell for each page of addresses, `generate_minimap` returns the buffer that the
  -- child's search relies on, with the same addresses.
  pub generate_minimap-Tracked :
      0 < start.n_addrs
      → IsSorted start.addrs 0 start.n_addrs
      → ((i : ℕ) → i < start.n_addrs → (start.addrs ! i) % 4 ≡ 0)
      → Returns
          (generate_minimap start)
          (λ ab. Tracked ab start.addrs × (ab.addrs ≡ start.addrs) × (ab.n_addrs ≡ start.n_addrs))
  unfolding generate_minimap
  generate_minimap-Tracked some sorted aligned =
      Returns-imp (minimap_loop (suc start.n_addrs) (filled start.minimap 0) 0)
        (λ ab h. rw h.2 (
          record {
            some_addr = some;
            room = room;
            sorted = sorted;
            aligned = aligned;
            cells = λ i p. inl refl;
            map_room = omega (arith, h.3.size, h.3.last_page, map_room);
            last_page = h.3.last_page;
            all_pages = h.4;
            map_cells = h.3.cells;
          },
          refl,
          refl,
        ))
        (minimap_loop-Mapped (suc start.n_addrs) start.minimap 0
          (record { size = refl; cells = λ k p. absurd (omega arith); last_page = omega (arith) })
          (omega arith))
