-- ===== src/Lookup/Hint.antt =====
-- `addr_find_hint` of forkscan-changed/child.c finds what `addr_find` finds, and an index from which the
-- next search can begin.
use native.Mathlib.Decide.{dec_lt}
use pp_final_project.Prelude.{
  ℕ, zero, suc, ◌+◌, ◌-◌, ◌*◌, ◌%◌, ◌≤◌, ◌<◌, ◌≡◌, List, Run, done, fail, Returns, Returns-imp,
  Returns-bind, arith, inl, inr, lt_eq_gt, get_elem?-eq-get_or, leb, min, Bool-cases,
}
use pp_final_project.Buffer.Defs.{AddrBuffer}
use pp_final_project.Scan.Defs.{addr_find, binary_search, page_addrs}
use pp_final_project.Scan.Binary.{◌!◌, binary_search-Floor}
use pp_final_project.Scan.Find.{
  Tracked, addrs-IsSorted, orig_mono, minimap-IsSorted, page_end, page_end_le, addr_find_unmarked,
}
use pp_final_project.Lookup.Defs.{hint_loop, addr_find_hint, remaining_line}

module _ (ab : AddrBuffer) (orig : List ℕ) (t : Tracked ab orig) (val : ℕ) where
  -- `addr_find` does not go beyond the value.
  addr_find_floor :
      orig ! 0 ≤ val → Returns (addr_find val ab) (λ loc. (loc < ab.n_addrs) × (orig ! loc ≤ val))
  unfolding addr_find
  addr_find_floor first =
      Returns-bind _ (binary_search val ab.minimap 0 ab.n_minimap) _
        (binary_search-Floor val ab.minimap 0 ab.n_minimap (minimap-IsSorted ab orig t) t.map_room
          (omega (arith, t.all_pages, t.some_addr)))
        λ v f.
          let (start, end) = page_end_le ab orig t v f.below_hi in
          let at_page : orig ! (v * page_addrs) ≤ val = omega (
            arith,
            f.at_most (omega (arith, t.map_cells 0 (omega (arith, f.below_hi)))),
            t.map_cells v f.below_hi,
          ) in
          Returns-imp (binary_search val ab.addrs (v * page_addrs) (page_end ab orig t v))
            (λ r g. (
              omega (arith, g.below_hi, end),
              elim (dec_lt val (ab.addrs ! (v * page_addrs))) [
                | yes above ↦ rw (g.first above) at_page
                | no below ↦
                    omega
                      (arith, g.at_most (omega arith), t.cells r (omega (arith, g.below_hi, end)))
              ],
            ))
            (binary_search-Floor val ab.addrs (v * page_addrs) (page_end ab orig t v)
              (addrs-IsSorted ab orig t (v * page_addrs) (page_end ab orig t v) end)
              (omega (arith, t.room, end)) start)

  -- Each address before index `loc` is below the value.
  abbrev pub Before : ℕ → Type 0
  Before loc = (j : ℕ) → j < loc → orig ! j < val

  -- The value stands unmarked at no other index.
  abbrev pub Only : ℕ → Type 0
  Only loc = (j : ℕ) → j < ab.n_addrs → ab.addrs ! j ≡ val → loc ≡ j

  abbrev pub Hinted : ℕ → ℕ → Type 0
  Hinted hint loc = (loc < ab.n_addrs) × (Before hint → Only loc × Before loc)

  -- The first index whose cell is not below the value.
  stops_here :
      (loc : ℕ) → val % 4 ≡ 0 → loc < ab.n_addrs → val ≤ ab.addrs ! loc → Before loc → Only loc
  stops_here loc low p above b j q e = elim (lt_eq_gt loc j) [
    | inl lt ↦ absurd (
        omega (arith, addrs-IsSorted ab orig t 0 ab.n_addrs (omega arith) loc j (omega arith) lt q))
    | inr (inl same) ↦ same
    | inr (inr gt) ↦ absurd (omega (arith, b j gt, t.cells j q, t.aligned j q))
  ]

  addr_find-Hinted :
      (hint : ℕ) → val % 4 ≡ 0 → orig ! 0 ≤ val → Returns (addr_find val ab) (Hinted hint)
  addr_find-Hinted hint low first =
      go (addr_find val ab) (addr_find_floor first)
        (λ j q e. addr_find_unmarked ab orig t val j q low e)
    where
      go :
          (m : Run ℕ)
          → Returns m (λ loc. (loc < ab.n_addrs) × (orig ! loc ≤ val))
          → ((j : ℕ) → j < ab.n_addrs → ab.addrs ! j ≡ val → Returns m (λ loc. loc ≡ j))
          → Returns m (Hinted hint)
      go (done loc) h only =
          (h.0, λ b. (only, λ j q. omega (arith, t.sorted j loc (omega arith) q h.0, h.1)))
      go (fail x) h only = elim h [ ]

  module _ (low : val % 4 ≡ 0) (first : orig ! 0 ≤ val) (last : val ≤ orig ! (ab.n_addrs - 1)) where
    hint_loop-Hinted :
        (rounds hint : ℕ)
        → hint < ab.n_addrs
        → ab.addrs ! hint < val
        → Returns (hint_loop rounds val ab hint) (Hinted hint)
    unfolding hint_loop
    hint_loop-Hinted zero hint p below = addr_find-Hinted hint low first
    hint_loop-Hinted (suc rounds) hint p below =
        let o = t.cells hint p in
        let inner : hint + 1 < ab.n_addrs = before_last (omega (arith, o)) in
        let ahead : min ab.n_addrs (hint + 1) ≡ hint + 1 = omega arith in
        rw (ahead, get_elem?-eq-get_or ab.addrs (hint + 1) 0 (omega (arith, t.room)))
          (elim (Bool-cases (leb val (ab.addrs ! (hint + 1)))) [
            | inl found ↦
                rw (found, Returns)
                  (rw (ahead, Hinted)
                    (
                      inner,
                      λ b.
                          let b' : Before (hint + 1) =
                            λ j q. omega (arith, o, orig_mono ab orig t j hint (omega arith) p) in
                          (stops_here (hint + 1) low inner (ground arith) b', b'),
                    ))
            | inr past ↦
                rw (past, Returns)
                  (rw ahead (
                    Returns-imp (hint_loop rounds val ab (hint + 1))
                      (λ loc h. (
                        h.0,
                        λ b.
                            h.1
                              (λ j q. omega (arith, o, orig_mono ab orig t j hint (omega arith) p)),
                      ))
                      (hint_loop-Hinted rounds (hint + 1) inner (ground arith))))
          ])
      where
        before_last : orig ! hint < val → hint + 1 < ab.n_addrs
        before_last lt = elim (dec_lt (hint + 1) ab.n_addrs) [
          | yes q ↦ q
          | no q ↦ let e : hint ≡ ab.n_addrs - 1 = omega arith in absurd (omega (arith, rw e at lt))
        ]

    -- The hint is an index of the buffer and the value lies between the first and the last address:
    -- `addr_find_hint` returns an index of the buffer. If all addresses before the hint are below the
    -- value, then no other index holds the value unmarked, and all addresses before it are below the value.
    pub addr_find_hint-Hinted :
        (base hint : ℕ)
        → hint < ab.n_addrs
        → Returns (addr_find_hint base val ab hint) (Hinted hint)
    unfolding addr_find_hint
    addr_find_hint-Hinted base hint p =
        rw (get_elem?-eq-get_or ab.addrs hint 0 (omega (arith, t.room)))
          (elim (Bool-cases (leb val (ab.addrs ! hint))) [
            | inl found ↦ rw (found, Returns) (p, λ b. (stops_here hint low p (ground arith) b, b))
            | inr past ↦
                rw (past, Returns)
                  (hint_loop-Hinted (remaining_line base hint) hint p (ground arith))
          ])
