-- ===== src/Scan/Step.antt =====
-- One round of the loop of `recursive_mark` in forkscan-changed/child.c, and what it leaves alone.
use pp_final_project.Prelude.{
  ℕ, suc, ◌+◌, ◌%◌, ◌≤◌, ◌<◌, ◌≡◌, ◌≢◌, refl, sym, ap, ◌∙◌, true, false, length, get_elem?, set,
  ltb, ◌==◌, ◌||◌, Run, done, arith, some, inl, inr, ◌⊎◌, get_or-set_self, get_or-set_ne,
  length-set, ◌>>=◌,
}
use native.Mathlib.Decide.{ℕ_discrete}
use pp_final_project.Buffer.Defs.{AddrBuffer}
use pp_final_project.Scan.Defs.{
  addr_find, is_ref, ptr_mask, is_marked, with_mark, TraceStats, mark_found, mark_loop,
}
use pp_final_project.Scan.Binary.{◌!◌}
use pp_final_project.Scan.Mark.{ref, n_words, Marks, Covered}

module _ (again : AddrBuffer → Run AddrBuffer) (next : AddrBuffer → Run AddrBuffer) where
  mark_found_old :
      (ab : AddrBuffer) (loc target : ℕ)
      → is_marked target ≡ true
      → mark_found again next ab loc target ≡ next ab
  unfolding mark_found
  mark_found_old ab loc target old = rw (old, mark_found)

  mark_found_new :
      (ab : AddrBuffer) (loc target : ℕ)
      → is_marked target ≡ false
      → mark_found again next ab loc target
        ≡ (again (record ab { addrs = set ab.addrs loc (with_mark target) }) >>= next)
  unfolding mark_found
  mark_found_new ab loc target new = rw (new, mark_found)

module _ (mem : ℕ → ℕ) (usable_size : ℕ → ℕ) (ts : TraceStats) where
  -- The value is out of the range of the tracked addresses.
  pub mark_loop-out :
      (again : AddrBuffer → Run AddrBuffer) (ptr rounds i : ℕ) (ab : AddrBuffer)
      → (ltb (ref mem usable_size ptr i) ts.least || ltb ts.greatest (ref mem usable_size ptr i))
        ≡ true
      → mark_loop mem usable_size ts again ptr (suc rounds) i ab
        ≡ mark_loop mem usable_size ts again ptr rounds (suc i) ab
  unfolding mark_loop
  mark_loop-out again ptr rounds i ab out = rw (out, mark_loop)

  module _ (again : AddrBuffer → Run AddrBuffer) (ptr rounds i : ℕ) (ab : AddrBuffer)
      (inside : (ltb (ref mem usable_size ptr i) ts.least
          || ltb ts.greatest (ref mem usable_size ptr i))
        ≡ false)
      (loc : ℕ) (found : addr_find (ref mem usable_size ptr i) ab ≡ done loc) (target : ℕ)
      (at : get_elem? ab.addrs loc ≡ some target) where
    -- No tracked address.
    pub mark_loop-miss :
        (ptr_mask target == ref mem usable_size ptr i) ≡ false
        → mark_loop mem usable_size ts again ptr (suc rounds) i ab
          ≡ mark_loop mem usable_size ts again ptr rounds (suc i) ab
    unfolding mark_loop is_ref
    mark_loop-miss miss = rw (inside, mark_loop) (rw found (rw at (rw (miss))))

    -- An address that bears a mark.
    pub mark_loop-old :
        (ptr_mask target == ref mem usable_size ptr i) ≡ true
        → is_marked target ≡ true
        → mark_loop mem usable_size ts again ptr (suc rounds) i ab
          ≡ mark_loop mem usable_size ts again ptr rounds (suc i) ab
    unfolding mark_loop is_ref
    mark_loop-old hit old =
        rw (inside, mark_loop)
          (rw found (rw at (rw hit (rw at (rw (mark_found_old again _ ab loc target old))))))

    -- An address without a mark.
    pub mark_loop-new :
        (ptr_mask target == ref mem usable_size ptr i) ≡ true
        → is_marked target ≡ false
        → mark_loop mem usable_size ts again ptr (suc rounds) i ab ≡ (
            again (record ab { addrs = set ab.addrs loc (with_mark target) }) >>= λ ab'.
            mark_loop mem usable_size ts again ptr rounds (suc i) ab')
    unfolding mark_loop is_ref
    mark_loop-new hit new =
        rw (inside, mark_loop)
          (rw found (rw at (rw hit (rw at (rw (mark_found_new again _ ab loc target new))))))

  -- A word that no unmarked cell holds needs no work.
  pub Covered-suc :
      (ptr i : ℕ) (ab : AddrBuffer)
      → Covered mem usable_size ptr i ab
      → ((j : ℕ) → j < ab.n_addrs → ab.addrs ! j ≢ ref mem usable_size ptr i)
      → Covered mem usable_size ptr (suc i) ab
  Covered-suc ptr i ab c none k j p q = elim (ℕ_discrete k i) [
    | yes e ↦ λ f. none j q (f ∙ ap (ref mem usable_size ptr) e)
    | no n ↦ c k j (omega arith) q
  ]

  -- The mark that the loop sets.
  pub set_mark-Marks :
      (ptr i : ℕ) (ab : AddrBuffer) (loc : ℕ)
      → i < n_words mem usable_size ptr
      → loc < length ab.addrs
      → ab.addrs ! loc ≡ ref mem usable_size ptr i
      → Marks mem usable_size ptr ab
          (record ab { addrs = set ab.addrs loc (with_mark (ab.addrs ! loc)) })
  set_mark-Marks ptr i ab loc p room e = record {
    same = refl;
    size = length-set ab.addrs loc (with_mark (ab.addrs ! loc));
    cells = λ j. elim (ℕ_discrete loc j) [
      | yes same ↦ rw (← same) (
          inr (
            get_or-set_self ab.addrs loc (with_mark (ab.addrs ! loc)) 0 room ∙ omega arith,
            (i, p, sym e),
          ))
      | no other ↦ inl (get_or-set_ne ab.addrs loc j (with_mark (ab.addrs ! loc)) 0 other)
    ];
  }

  -- An address that some cell holds is in the range.
  pub in_range :
      (o v w lo hi : ℕ)
      → o % 4 ≡ 0
      → (v ≡ o) ⊎ (v ≡ o + 1)
      → v ≡ ptr_mask w
      → lo ≤ o
      → o ≤ hi
      → (ltb (ptr_mask w) lo || ltb hi (ptr_mask w)) ≡ false
  in_range o v w lo hi low (inl e) f p q = ground arith
  in_range o v w lo hi low (inr e) f p q = absurd (omega arith)
