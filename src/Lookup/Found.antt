-- ===== src/Lookup/Found.antt =====
-- One value of the lookaside list, in the loop of `lookup_lookaside_list` of forkscan-changed/child.c.
use native.Mathlib.Decide.{ℕ_discrete}
use mathlib.Core.Path.{subst}
use pp_final_project.Prelude.{
  ℕ, some, zero, suc, ◌+◌, ◌%◌, ◌≤◌, ◌<◌, ◌≡◌, ◌≢◌, ◌⊎◌, inl, inr, refl, sym, ◌∙◌, true, false,
  List, set, ◌==◌, Returns, Returns-imp, Returns-bind, ◌>>=◌, arith, Bool-cases, get_elem?,
  get_elem?-eq-get_or, get_or-set_self, get_or-set_ne, length-set,
}
use pp_final_project.Buffer.Defs.{AddrBuffer}
use pp_final_project.Scan.Defs.{
  TraceStats, is_ref, is_marked, with_mark, ptr_mask, recursive_mark, binary_search,
}
use pp_final_project.Scan.Binary.{◌!◌, binary_search-Floor}
use pp_final_project.Scan.Find.{Tracked, addrs-IsSorted}
use pp_final_project.Scan.Mark.{ref, n_words, Refers, Marks, unmarked}
use pp_final_project.Scan.Trace.{Spans, Traced, recursive_mark-Traced}
use pp_final_project.Lookup.Defs.{lookup_hit, lookup_miss, lookup_at}
use pp_final_project.Lookup.Hint.{Only}
use pp_final_project.Lookup.Marked.{
  MarkedBy, MarkedBy-refl, MarkedBy-trans, MarkedBy-Tracked, MarkedBy-Absent, Absent,
}

unmarked-le : (a : List ℕ) (n : ℕ) → unmarked a n ≤ n
unfolding unmarked
unmarked-le a zero = omega arith
unmarked-le a (suc n) = ground (arith, unmarked-le a n)

module _ (mem : ℕ → ℕ) (usable_size : ℕ → ℕ) (ts : TraceStats) (base : ℕ) where
  -- The value itself, or an address that a word of its block refers to.
  abbrev pub Named : ℕ → ℕ → Type 0
  Named x v = (v ≡ x) ⊎ Refers mem usable_size x v

  -- No word of the block at `x` refers to an address without a mark.
  abbrev pub Scanned : ℕ → AddrBuffer → Type 0
  Scanned x ab = (i : ℕ) → i < n_words mem usable_size x → Absent ab (ref mem usable_size x i)

  -- What the lookup of `x` does to a buffer: `x` has its mark, and if it had none, its block is scanned.
  abbrev pub Looked : ℕ → AddrBuffer → AddrBuffer → Type 0
  Looked x ab ab' =
      MarkedBy (Named x) ab ab'
      × Absent ab' x
      × ((j : ℕ) → j < ab.n_addrs → ab.addrs ! j ≡ x → Scanned x ab')

  Marks-MarkedBy :
      (x : ℕ) {ab ab' : AddrBuffer} → Marks mem usable_size x ab ab' → MarkedBy (Named x) ab ab'
  Marks-MarkedBy x {ab} {ab'} m = record {
    same = m.same;
    size = m.size;
    cells = λ j. elim (m.cells j) [
      | inl e ↦ inl e
      | inr h ↦ inr (h.0, aligned (ab.addrs ! j) h.1, inr (h.1))
    ];
  }
    where
      aligned : (v : ℕ) → Refers mem usable_size x v → v % 4 ≡ 0
      aligned v (i, p, e) = omega arith

  module _ (ab : AddrBuffer) (orig : List ℕ) (t : Tracked ab orig)
      (spans : Spans mem usable_size ts ab orig) (x loc : ℕ) (low : x % 4 ≡ 0)
      (p : loc < ab.n_addrs) (only : Only ab orig t x loc) where
    cell : get_elem? ab.addrs loc ≡ some (ab.addrs ! loc)
    cell = get_elem?-eq-get_or ab.addrs loc 0 (omega (arith, t.room))

    -- It is nowhere without a mark.
    nothing-Looked : Absent ab x → Looked x ab ab
    nothing-Looked a = (MarkedBy-refl (Named x) ab, a, λ j q e. absurd (a j q e))

    elsewhere : ab.addrs ! loc ≢ x → Absent ab x
    elsewhere n j q e = n (rw (only j q e) e)

    abbrev marked_buffer : AddrBuffer
    marked_buffer = record ab { addrs = set ab.addrs loc (with_mark (ab.addrs ! loc)) }

    module _ (here : ab.addrs ! loc ≡ x) where
      set-MarkedBy : MarkedBy (Named x) ab marked_buffer
      set-MarkedBy = record {
        same = refl;
        size = length-set ab.addrs loc (with_mark (ab.addrs ! loc));
        cells = λ j. elim (ℕ_discrete loc j) [
          | no other ↦ inl (get_or-set_ne ab.addrs loc j (with_mark (ab.addrs ! loc)) 0 other)
          | yes e ↦ rw (← e) (
              inr (
                get_or-set_self ab.addrs loc (with_mark (ab.addrs ! loc)) 0 (omega (arith, t.room))
                    ∙ omega arith,
                omega arith,
                inl here,
              ))
        ];
      }

      set-Absent : Absent marked_buffer x
      set-Absent j q e = elim (ℕ_discrete loc j) [
        | yes h ↦
            let self =
              get_or-set_self ab.addrs loc (with_mark (ab.addrs ! loc)) 0 (omega (arith, t.room)) in
            absurd (omega (arith, self, rw (← h) at e))
        | no other ↦
            other (
              only j q
                (sym (get_or-set_ne ab.addrs loc j (with_mark (ab.addrs ! loc)) 0 other) ∙ e))
      ]

    lookup_hit-Looked :
        (ptr_mask (ab.addrs ! loc) ≡ x)
        → Returns (lookup_hit mem usable_size ts base loc ab) (Looked x ab)
    unfolding lookup_hit
    lookup_hit-Looked hit = rw cell (elim (Bool-cases (is_marked (ab.addrs ! loc))) [
      | inl old ↦ rw (old, Returns) (nothing-Looked (elsewhere (λ e. odd (ab.addrs ! loc) old e)))
      | inr new ↦ rw (new, Returns) (marks (is_here (t.aligned loc p) (t.cells loc p) new))
    ])
      where
        odd : (v : ℕ) → is_marked v ≡ true → v ≡ x → ⊥
        odd v old e = ground arith

        is_here :
            orig ! loc % 4 ≡ 0
            → (ab.addrs ! loc ≡ orig ! loc) ⊎ (ab.addrs ! loc ≡ orig ! loc + 1)
            → is_marked (ab.addrs ! loc) ≡ false
            → ab.addrs ! loc ≡ x
        is_here a (inl e) new = omega arith
        is_here a (inr e) new = absurd (ground arith)

        marks :
            ab.addrs ! loc ≡ x
            → Returns
                (recursive_mark mem usable_size ts (suc ab.n_addrs) (ab.addrs ! loc) marked_buffer)
                (Looked x ab)
        marks here =
            Returns-imp
              (recursive_mark mem usable_size ts (suc ab.n_addrs) (ab.addrs ! loc) marked_buffer)
              (λ ab' tr.
                let tr' = subst (λ ptr. Traced mem usable_size ts ptr marked_buffer ab') hit tr in
                let m = Marks-MarkedBy x tr'.0 in
                (
                  MarkedBy-trans (Named x) (set-MarkedBy here) m,
                  MarkedBy-Absent (Named x) x low m (set-Absent here),
                  λ j q e i w k r f. tr'.1 i k w r f,
                ))
              (recursive_mark-Traced mem usable_size ts orig (suc ab.n_addrs) (ab.addrs ! loc)
                marked_buffer (MarkedBy-Tracked (Named x) orig (set-MarkedBy here) t) spans
                (omega (arith, unmarked-le marked_buffer.addrs ab.n_addrs)))

    lookup_miss-Looked :
        (ptr_mask (ab.addrs ! loc) ≢ x)
        → Returns (lookup_miss mem usable_size ts base x ab) (Looked x ab)
    unfolding lookup_miss
    lookup_miss-Looked miss =
        Returns-bind _ (binary_search x ab.addrs 0 ab.n_addrs) _
          (binary_search-Floor x ab.addrs 0 ab.n_addrs
            (addrs-IsSorted ab orig t 0 ab.n_addrs (omega arith)) t.room t.some_addr)
          (λ loc2 f.
            let away : Absent ab x = elsewhere (λ e. miss (omega arith)) in
            let differs : (ab.addrs ! loc2 == x) ≡ false =
              let n = away loc2 f.below_hi in ground arith in
            rw (get_elem?-eq-get_or ab.addrs loc2 0 (omega (arith, f.below_hi, t.room)), differs)
              (nothing-Looked away))

    pub lookup_at-Looked :
        Returns
          (is_ref ab loc x >>= λ hit. lookup_at mem usable_size ts base hit x loc ab)
          (Looked x ab)
    unfolding is_ref lookup_at
    lookup_at-Looked = rw (cell) (elim (Bool-cases (ptr_mask (ab.addrs ! loc) == x)) [
      | inl hit ↦ rw (hit, Returns) (lookup_hit-Looked (ground arith))
      | inr miss ↦ rw (miss, Returns) (lookup_miss-Looked (ground arith))
    ])
