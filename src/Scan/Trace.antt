-- ===== src/Scan/Trace.antt =====
-- The loop and the recursion of `recursive_mark` in forkscan-changed/child.c.
use mathlib.Core.Path.{subst}
use pp_final_project.Prelude.{
  ℕ, zero, suc, ◌+◌, ◌*◌, ◌%◌, ◌≤◌, ◌<◌, ◌≡◌, ◌≢◌, refl, ap, ◌∙◌, Bool, true, false, List,
  get_elem?, set, ltb, ◌==◌, ◌||◌, Run, done, Returns, Returns-imp, Returns-bind, arith,
  get_elem?-eq-get_or, some, Bool-cases, inl, inr, ◌⊎◌, ◌>>=◌,
}
use pp_final_project.Buffer.Defs.{AddrBuffer}
use pp_final_project.Scan.Defs.{
  addr_find, ptr_mask, is_marked, with_mark, TraceStats, mark_loop, recursive_mark,
}
use pp_final_project.Scan.Binary.{◌!◌}
use pp_final_project.Scan.Find.{Tracked}
use pp_final_project.Scan.Mark.{
  unmarked, addr_find_lem, ref, n_words, Marks, Covered, Marks-refl, Marks-trans, Marks-Tracked,
  Marks-unmarked, unmarked-set,
}
use pp_final_project.Scan.Step.{
  mark_loop-out, mark_loop-miss, mark_loop-old, mark_loop-new, Covered-suc, set_mark-Marks,
  in_range,
}

module _ (mem : ℕ → ℕ) (usable_size : ℕ → ℕ) (ts : TraceStats) where
  abbrev loop : (AddrBuffer → Run AddrBuffer) → ℕ → ℕ → ℕ → AddrBuffer → Run AddrBuffer
  loop = mark_loop mem usable_size ts

  abbrev reference : ℕ → ℕ → ℕ
  reference = ref mem usable_size

  -- The range of the trace holds every tracked address.
  abbrev pub Spans : AddrBuffer → List ℕ → Type 0
  Spans ab orig = (j : ℕ) → j < ab.n_addrs → (ts.least ≤ orig ! j) × (orig ! j ≤ ts.greatest)

  -- What a scan of the block at `ptr` does to a buffer.
  abbrev pub Traced : ℕ → AddrBuffer → AddrBuffer → Type 0
  Traced ptr ab ab' =
      Marks mem usable_size ptr ab ab'
      × Covered mem usable_size ptr (n_words mem usable_size ptr) ab'

  module _ (orig : List ℕ) (again : AddrBuffer → Run AddrBuffer) (ptr fuel n : ℕ)
      (again-Traced : (ab : AddrBuffer)
        → Tracked ab orig
        → ab.n_addrs ≡ n
        → unmarked ab.addrs n < fuel
        → Returns (again ab) (Traced ptr ab))
      (spans : (j : ℕ) → j < n → (ts.least ≤ orig ! j) × (orig ! j ≤ ts.greatest)) where
    -- What the loop needs of the buffer before word `i`.
    abbrev Ready : ℕ → AddrBuffer → Type 0
    Ready i ab =
        Tracked ab orig
        × (ab.n_addrs ≡ n)
        × (unmarked ab.addrs n < suc fuel)
        × Covered mem usable_size ptr i ab

    -- One round, before the rest of the loop.
    module _ (rounds i : ℕ) (within : i < n_words mem usable_size ptr)
        (rest : (ab : AddrBuffer)
          → Ready (suc i) ab
          → Returns (loop again ptr rounds (suc i) ab) (Traced ptr ab))
        (ab : AddrBuffer) (ready : Ready i ab) where
      round_skip :
          loop again ptr (suc rounds) i ab ≡ loop again ptr rounds (suc i) ab
          → ((j : ℕ) → j < ab.n_addrs → ab.addrs ! j ≢ reference ptr i)
          → Returns (loop again ptr (suc rounds) i ab) (Traced ptr ab)
      round_skip e none = rw e (
          rest ab (ready.0, ready.1, ready.2, Covered-suc mem usable_size ts ptr i ab ready.3 none))

      round_mark :
          (loc : ℕ)
          → loc < ab.n_addrs
          → ab.addrs ! loc ≡ reference ptr i
          → is_marked (ab.addrs ! loc) ≡ false
          → ((j : ℕ) → j < ab.n_addrs → ab.addrs ! j ≡ reference ptr i → loc ≡ j)
          → Returns
              (again (record ab { addrs = set ab.addrs loc (with_mark (ab.addrs ! loc)) })
                >>= λ ab'. loop again ptr rounds (suc i) ab')
              (Traced ptr ab)
      round_mark loc p e new only =
          Returns-bind (Traced ptr ab) (again ab1) (λ ab'. loop again ptr rounds (suc i) ab')
            (again-Traced ab1 t1 ready.1 fewer)
            (λ ab2 tr.
              Returns-imp (loop again ptr rounds (suc i) ab2)
                (λ ab3 tr'. (
                  Marks-trans mem usable_size ptr m1 (Marks-trans mem usable_size ptr tr.0 tr'.0),
                  tr'.1,
                ))
                (rest ab2 (
                  Marks-Tracked mem usable_size ptr orig tr.0 t1,
                  ap (λ x. x.n_addrs) tr.0.same ∙ ready.1,
                  omega (arith, fewer, Marks-unmarked mem usable_size ptr n tr.0),
                  λ k j h q. tr.1 k j (omega arith) q,
                )))
        where
          ab1 : AddrBuffer
          ab1 = record ab { addrs = set ab.addrs loc (with_mark (ab.addrs ! loc)) }

          m1 : Marks mem usable_size ptr ab ab1
          m1 = set_mark-Marks mem usable_size ts ptr i ab loc within (omega (arith, ready.0.room)) e

          t1 : Tracked ab1 orig
          t1 = Marks-Tracked mem usable_size ptr orig m1 ready.0

          fewer : unmarked ab1.addrs n < fuel
          fewer =
              let d =
                unmarked-set ab.addrs n loc (with_mark (ab.addrs ! loc)) (omega (arith, ready.1))
                  (omega (arith, ready.1, ready.0.room)) new (ground arith) in
              omega (arith, ready.2)

      round-Traced : Returns (loop again ptr (suc rounds) i ab) (Traced ptr ab)
      round-Traced =
          elim (Bool-cases (ltb (reference ptr i) ts.least || ltb ts.greatest (reference ptr i))) [
            | inl out ↦
                round_skip (mark_loop-out mem usable_size ts again ptr rounds i ab out)
                  (λ j p f. elim (out_in out (span j p f)) [ ])
            | inr inside ↦
                with_loc inside (addr_find_lem ab orig (reference ptr i) ready.0 (omega arith))
          ]
        where
          out_in : {b : Bool} → b ≡ true → b ≡ false → ⊥
          out_in {b} e f = ground arith

          span :
              (j : ℕ)
              → j < ab.n_addrs
              → ab.addrs ! j ≡ reference ptr i
              → (ltb (reference ptr i) ts.least || ltb ts.greatest (reference ptr i)) ≡ false
          span j p f =
              let s = spans j (omega (arith, ready.1)) in
              in_range mem usable_size ts (orig ! j) (ab.addrs ! j) (mem (ptr + 8 * i)) ts.least
                ts.greatest (ready.0.aligned j p) (ready.0.cells j p) f s.0 s.1

          with_loc :
              (ltb (reference ptr i) ts.least || ltb ts.greatest (reference ptr i)) ≡ false
              → (loc : ℕ) × (addr_find (reference ptr i) ab ≡ done loc)
                × (loc < ab.n_addrs)
                × ((j : ℕ) → j < ab.n_addrs → ab.addrs ! j ≡ reference ptr i → loc ≡ j)
              → Returns (loop again ptr (suc rounds) i ab) (Traced ptr ab)
          with_loc inside (loc, found, p, only) =
              let at : get_elem? ab.addrs loc ≡ some (ab.addrs ! loc) =
                get_elem?-eq-get_or ab.addrs loc 0 (omega (arith, ready.0.room)) in
              elim (Bool-cases (ptr_mask (ab.addrs ! loc) == reference ptr i)) [
                | inr miss ↦
                    round_skip
                      (mark_loop-miss mem usable_size ts again ptr rounds i ab inside loc found
                        (ab.addrs ! loc) at miss)
                      (λ j q f.
                        not_here (ab.addrs ! loc) (mem (ptr + 8 * i)) (inl miss)
                          (rw (only j q f) f))
                | inl hit ↦ elim (Bool-cases (is_marked (ab.addrs ! loc))) [
                  | inl old ↦
                      round_skip
                        (mark_loop-old mem usable_size ts again ptr rounds i ab inside loc found
                          (ab.addrs ! loc) at hit old)
                        (λ j q f.
                          not_here (ab.addrs ! loc) (mem (ptr + 8 * i)) (inr old)
                            (rw (only j q f) f))
                  | inr new ↦
                      rw
                        (mark_loop-new mem usable_size ts again ptr rounds i ab inside loc found
                          (ab.addrs ! loc) at hit new)
                        (round_mark loc p
                          (exact (orig ! loc) (ab.addrs ! loc) (mem (ptr + 8 * i))
                            (ready.0.aligned loc p) (ready.0.cells loc p) hit new)
                          new only)
                ]
              ]
            where
              not_here :
                  (v w : ℕ)
                  → ((ptr_mask v == ptr_mask w) ≡ false) ⊎ (is_marked v ≡ true)
                  → v ≡ ptr_mask w
                  → ⊥
              not_here v w (inl miss) e = ground arith
              not_here v w (inr old) e = ground arith

              exact :
                  (o v w : ℕ)
                  → o % 4 ≡ 0
                  → (v ≡ o) ⊎ (v ≡ o + 1)
                  → (ptr_mask v == ptr_mask w) ≡ true
                  → is_marked v ≡ false
                  → v ≡ ptr_mask w
              exact o v w low (inl e) hit new = ground arith
              exact o v w low (inr e) hit new = absurd (ground arith)

    pub mark_loop-Traced :
        (rounds i : ℕ) (ab : AddrBuffer)
        → i + rounds ≡ n_words mem usable_size ptr
        → Ready i ab
        → Returns (loop again ptr rounds i ab) (Traced ptr ab)
    mark_loop-Traced zero i ab e ready =
        unfold mark_loop in
        (Marks-refl mem usable_size ptr ab, λ k j p q. ready.3 k j (omega arith) q)
    mark_loop-Traced (suc rounds) i ab e ready =
        round-Traced rounds i (omega arith)
          (λ ab' r. mark_loop-Traced rounds (suc i) ab' (omega arith) r) ab ready

  ptr_mask_twice : (v : ℕ) → ptr_mask (ptr_mask v) ≡ ptr_mask v
  ptr_mask_twice v = omega arith

  -- The induction on the fuel, for buffers with `n` addresses.
  recursive_mark-go :
      (orig : List ℕ) (n : ℕ)
      → ((j : ℕ) → j < n → (ts.least ≤ orig ! j) × (orig ! j ≤ ts.greatest))
      → (fuel addr : ℕ) (ab : AddrBuffer) → Tracked ab orig
      → ab.n_addrs ≡ n
      → unmarked ab.addrs n < fuel
      → Returns (recursive_mark mem usable_size ts fuel addr ab) (Traced (ptr_mask addr) ab)
  unfolding recursive_mark
  recursive_mark-go orig n spans zero addr ab t size few = absurd (omega arith)
  recursive_mark-go orig n spans (suc fuel) addr ab t size few =
      mark_loop-Traced orig (λ ab'. recursive_mark mem usable_size ts fuel (ptr_mask addr) ab')
        (ptr_mask addr) fuel n
        (λ ab' t' size' few'.
          subst
            (λ p.
              Returns (recursive_mark mem usable_size ts fuel (ptr_mask addr) ab') (Traced p ab'))
            (ptr_mask_twice addr)
            (recursive_mark-go orig n spans fuel (ptr_mask addr) ab' t' size' few'))
        spans (n_words mem usable_size (ptr_mask addr)) 0 ab (omega arith)
        (t, size, few, λ k j p q. absurd (omega arith))

  -- On a tracked buffer whose addresses lie in the range of the trace, with fuel above the number of
  -- unmarked addresses, `recursive_mark` returns. The buffer it returns is the given one but for
  -- marks, each on an address that a word of the block at `addr` refers to; and no address that a
  -- word of that block refers to is left without a mark.
  pub recursive_mark-Traced :
      (orig : List ℕ) (fuel addr : ℕ) (ab : AddrBuffer)
      → Tracked ab orig
      → Spans ab orig
      → unmarked ab.addrs ab.n_addrs < fuel
      → Returns (recursive_mark mem usable_size ts fuel addr ab) (Traced (ptr_mask addr) ab)
  recursive_mark-Traced orig fuel addr ab t spans few =
      recursive_mark-go orig ab.n_addrs spans fuel addr ab t refl few
