-- ===== src/Collector/Survivors.antt =====
-- What `reclaim_iteration` of forkscan-changed/forkscan.c carries over to the next round.
use pp_final_project.Prelude.{
  ℕ, zero, suc, ◌+◌, ◌≤◌, ◌<◌, ◌≡◌, refl, sym, ap, ◌∙◌, true, false, List, [], ◌∷◌, ◌++◌, length,
  get_elem?, set, take, drop, Returns, Returns-imp, some, Bool-cases, inl, inr, arith,
  get_elem?-drop, length-set, lt→ltb, append-nil, append_assoc,
}
use pp_final_project.Buffer.Defs.{AddrBuffer}
use pp_final_project.Scan.Defs.{is_marked, ptr_mask}
use pp_final_project.Collector.Defs.{keep_addr, keep_loop, keep_referenced}

-- The addresses with a mark, without it.
unfoldable pub marked_of : List ℕ → List ℕ
marked_of [] = []
marked_of (a ∷ l) = elim (is_marked a) [ true ↦ ptr_mask a ∷ marked_of l | false ↦ marked_of l ]

take-set : (a : List ℕ) (n v : ℕ) → n < length a → take (suc n) (set a n v) ≡ take n a ++ v ∷ []
take-set [] n v h = absurd (omega arith)
take-set (x ∷ a) zero v h = refl
take-set (x ∷ a) (suc n) v h = ap (λ l. x ∷ l) (take-set a n v (omega arith))

marked_of-marked :
    (a : ℕ) (l : List ℕ) → is_marked a ≡ true → marked_of (a ∷ l) ≡ ptr_mask a ∷ marked_of l
unfolding marked_of
marked_of-marked a l e = rw (e, marked_of)

marked_of-other : (a : ℕ) (l : List ℕ) → is_marked a ≡ false → marked_of (a ∷ l) ≡ marked_of l
unfolding marked_of
marked_of-other a l e = rw (e, marked_of)

module _ (working : AddrBuffer) where
  abbrev with_addr : AddrBuffer → ℕ → AddrBuffer
  with_addr kept a = record kept {
    addrs = set kept.addrs kept.n_addrs (ptr_mask a);
    n_addrs = suc kept.n_addrs;
  }

  keep_loop-marked :
      (rounds i a : ℕ) (kept : AddrBuffer)
      → get_elem? working.addrs i ≡ some a
      → is_marked a ≡ true
      → kept.n_addrs < length kept.addrs
      → keep_loop (suc rounds) i working kept ≡ keep_loop rounds (suc i) working (with_addr kept a)
  unfolding keep_loop keep_addr
  keep_loop-marked rounds i a kept e f h =
      rw (e, keep_loop) (rw (f, keep_addr) (rw (lt→ltb kept.n_addrs (length kept.addrs) h)))

  keep_loop-other :
      (rounds i a : ℕ) (kept : AddrBuffer)
      → get_elem? working.addrs i ≡ some a
      → is_marked a ≡ false
      → keep_loop (suc rounds) i working kept ≡ keep_loop rounds (suc i) working kept
  unfolding keep_loop keep_addr
  keep_loop-other rounds i a kept e f = rw (e, keep_loop) (rw (f, keep_addr))

  keep_loop_lem :
      (rounds i : ℕ) (kept : AddrBuffer)
      → i + rounds ≤ length working.addrs
      → kept.n_addrs + rounds ≤ length kept.addrs
      → Returns (keep_loop rounds i working kept) (λ kept'.
        (take kept'.n_addrs kept'.addrs
          ≡ take kept.n_addrs kept.addrs ++ marked_of (take rounds (drop i working.addrs)))
        × (length kept'.addrs ≡ length kept.addrs)
        × (kept'.n_addrs ≤ kept.n_addrs + rounds))
  keep_loop_lem zero i kept h room =
      unfold keep_loop marked_of in
      (sym (append-nil (take kept.n_addrs kept.addrs)), refl, omega arith)
  keep_loop_lem (suc rounds) i kept h room =
      let (a, at, from) = get_elem?-drop working.addrs i (omega arith) in
      elim (Bool-cases (is_marked a)) [
        | inl marked ↦
            rw
              (
                keep_loop-marked rounds i a kept at marked (omega arith),
                from,
                marked_of-marked a (take rounds (drop (suc i) working.addrs)) marked,
              )
              (Returns-imp (keep_loop rounds (suc i) working (with_addr kept a))
                (λ kept' r. (
                  r.0
                      ∙ ap (λ l. l ++ marked_of (take rounds (drop (suc i) working.addrs)))
                          (take-set kept.addrs kept.n_addrs (ptr_mask a) (omega arith))
                      ∙ append_assoc (take kept.n_addrs kept.addrs) (ptr_mask a ∷ [])
                          (marked_of (take rounds (drop (suc i) working.addrs))),
                  r.1 ∙ length-set kept.addrs kept.n_addrs (ptr_mask a),
                  omega (arith, r.2),
                ))
                (keep_loop_lem rounds (suc i) (with_addr kept a) (omega arith)
                  (omega (arith, length-set kept.addrs kept.n_addrs (ptr_mask a)))))
        | inr other ↦
            rw
              (
                keep_loop-other rounds i a kept at other,
                from,
                marked_of-other a (take rounds (drop (suc i) working.addrs)) other,
              )
              (Returns-imp (keep_loop rounds (suc i) working kept)
                (λ kept' r. (r.0, r.1, omega (arith, r.2)))
                (keep_loop_lem rounds (suc i) kept (omega arith) (omega arith)))
      ]

  -- On an empty buffer with room for the addresses of the working buffer, the last loop of
  -- `reclaim_iteration` returns, and the buffer then holds the marked addresses of the working buffer,
  -- in their order and without their marks, and no others.
  pub keep_referenced_lem :
      (kept : AddrBuffer)
      → kept.n_addrs ≡ 0
      → working.n_addrs ≤ length working.addrs
      → working.n_addrs ≤ length kept.addrs
      → Returns
          (keep_referenced working kept)
          (λ kept'. take kept'.n_addrs kept'.addrs ≡ marked_of (take working.n_addrs working.addrs))
  unfolding keep_referenced
  keep_referenced_lem kept empty room given =
      Returns-imp (keep_loop working.n_addrs 0 working kept) (λ kept' r. r.0 ∙ rw empty refl)
        (keep_loop_lem working.n_addrs 0 kept (omega arith) (omega arith))
