-- ===== src/Free/Once.antt =====
-- Threads that run `forkscan_util_free_ptrs` at the same time free each retired address at most once.
use mathlib.Core.Path.{subst}
use pp_final_project.Prelude.{
  ℕ, Bool, suc, ◌+◌, ◌%◌, ◌≤◌, ◌<◌, ◌≡◌, ◌⊎◌, inl, inr, refl, sym, ap, ◌∙◌, true, false, List, [],
  ◌∷◌, length, min, Option, none, some, arith, ◌==◌, done, Bool-cases, ltb, leb, get_elem?,
  get_elem?-eq-get_or, Returns, ◌>>=◌,
}
use pp_final_project.Buffer.Defs.{AddrBuffer}
use pp_final_project.Buffer.Lists.{
  Store, load, get_retiree_buffer, pop_retiree_buffer, unref_buffer,
}
use pp_final_project.Buffer.Chain.{load_at, some_inj}
use pp_final_project.Scan.Defs.{is_marked}
use pp_final_project.Scan.Binary.{◌!◌}
use pp_final_project.Free.Defs.{
  Place, outside, looping, holding, tested, claiming, freeing, FreeCall, World, with_td,
  free_range_sz, free_step, free_at, free_cell, read_free_idx, swap_free_idx, use_buffer,
  leave_buffer, got_buffer, Reach, start, next,
}
use pp_final_project.Free.View.{
  Cells, view, cells_of, SameCells, Ensures, Ensures-bind, get_retiree_buffer-SameCells,
  pop_retiree_buffer-SameCells, unref_buffer-SameCells, load_lem, Ensures-assert-if,
}
use pp_final_project.Free.Invariant.{Freed, Once, Fits, Inv, Sound}
use pp_final_project.Free.Steps.{
  td-Inv, place-Inv, claim-Inv, pass-Inv, free-Inv, here-Owns, here-Sound,
}

module _ (frees_required : ℕ) (limit : ℕ → ℕ) (orig : ℕ → ℕ → ℕ) (w : World)
    (inv : Inv limit orig w) (i : ℕ) where
  got_buffer-Inv :
      (round : ℕ) (p : Store × Option ℕ)
      → SameCells w.buffers p.0
      → ((k : ℕ) → p.1 ≡ some k → (c : Cells) × (cells_of p.0 k ≡ some c))
      → Inv limit orig (got_buffer w i round p)
  unfolding got_buffer
  got_buffer-Inv round (s, none) same there =
      td-Inv limit orig w inv i s _ same (λ k e. cc) (λ j n k e f. cc)
  got_buffer-Inv round (s, some k) same there =
      td-Inv limit orig w inv i s _ same
        (λ k' e.
          let (c, f) = there k' e in
          (
            c,
            sym (same k') ∙ f,
            record {
              range = inl (omega arith);
              below = omega arith;
              within = omega arith;
              kept = λ j g. inr (omega arith);
              fits = tt;
            },
          ))
        (λ j n k' e f. inl (omega arith))

  leave_buffer-Inv : (round k : ℕ) → Ensures (leave_buffer w i round k) (Inv limit orig)
  unfolding leave_buffer
  leave_buffer-Inv round k =
      Ensures-bind _ (pop_retiree_buffer k w.buffers) _ (pop_retiree_buffer-SameCells k w.buffers)
        (λ s1 same1. Ensures-bind _ (unref_buffer k s1) _ (unref_buffer-SameCells k s1) (λ s2 same2.
          td-Inv limit orig w inv i s2 _ (λ j. same2 j ∙ same1 j) (λ k' e. cc) (λ j n k' e f. cc)))

  module _ (round k : ℕ) (held : (w.tds i).retiree_buffer ≡ some k) (ab : AddrBuffer)
      (at : w.buffers.bufs k ≡ some ab) where
    use_buffer-Inv : Ensures (use_buffer w i round k ab) (Inv limit orig)
    unfolding use_buffer
    use_buffer-Inv = elim (Bool-cases ((w.tds i).begin_retiree_idx == (w.tds i).end_retiree_idx)) [
      | inr more ↦
          rw (more, use_buffer)
            (place-Inv limit orig w inv i (freeing round) (λ k' c e f.
              let same : k ≡ k' = let h = held in cc in
              let n_e : c.n_addrs ≡ ab.n_addrs =
                let q = ap view at in let r = ap (cells_of w.buffers) same in cc in
              elim (here-Owns limit orig w inv i k held ab at).range [
                | inl r ↦ inl (ground arith)
                | inr r ↦ inr (omega arith)
              ]))
      | inl empty ↦
          rw (empty, use_buffer)
            (elim (Bool-cases (leb ab.n_addrs ab.free_idx)) [
              | inl over ↦ rw (over, use_buffer) (leave_buffer-Inv round k)
              | inr left ↦
                  rw (left, use_buffer)
                    (place-Inv limit orig w inv i (tested round) (λ k' c e f. tt))
            ])
    ]

    read_free_idx-Inv : Inv limit orig (read_free_idx w i round ab)
    unfolding read_free_idx
    read_free_idx-Inv =
        place-Inv limit orig w inv i
          (claiming round ab.free_idx (min ab.n_addrs (ab.free_idx + free_range_sz)))
          (λ k' c e f.
            let same : k ≡ k' = let h = held in cc in
            let n_e : ab.n_addrs ≡ c.n_addrs =
              let q = ap view at in let r = ap (cells_of w.buffers) same in cc in
            ap (λ n. min n (ab.free_idx + free_range_sz)) n_e)

    swap_free_idx-Inv :
        (begin_idx end_idx : ℕ)
        → end_idx ≡ min ab.n_addrs (begin_idx + free_range_sz)
        → Inv limit orig (swap_free_idx w i round begin_idx end_idx k ab)
    unfolding swap_free_idx
    swap_free_idx-Inv begin_idx end_idx e = elim (Bool-cases (ab.free_idx == begin_idx)) [
      | inl won ↦
          rw (won, swap_free_idx)
            (claim-Inv limit orig w inv i k held ab at begin_idx end_idx round (ground arith) e)
      | inr lost ↦
          rw (lost, swap_free_idx)
            (place-Inv limit orig w inv i (looping (suc round)) (λ k' c e f. tt))
    ]

    -- The thread is inside its range, or past the last address.
    free_cell-Inv :
        ((w.tds i).begin_retiree_idx < (w.tds i).end_retiree_idx)
          ⊎ (ab.n_addrs ≤ (w.tds i).begin_retiree_idx)
        → Ensures (free_cell w i round k ab) (Inv limit orig)
    unfolding free_cell
    free_cell-Inv some_left = at_cell (get_elem? ab.addrs idx) refl
      where
        idx : ℕ
        idx = (w.tds i).begin_retiree_idx

        here : (v : ℕ) → get_elem? ab.addrs idx ≡ some v → idx < ab.n_addrs → ab.addrs ! idx ≡ v
        here v e inside =
            let sd = here-Sound limit orig w inv i k held ab at in
            some_inj (sym (get_elem?-eq-get_or ab.addrs idx 0 (omega (arith, sd.sized))) ∙ e)

        at_cell :
            (o : Option ℕ)
            → get_elem? ab.addrs idx ≡ o
            → Ensures (free_cell w i round k ab) (Inv limit orig)
        at_cell none e = rw (e, Ensures) tt
        at_cell (some v) e = rw e (elim (Bool-cases (is_marked v)) [
          | inl marked ↦
              rw (marked, Ensures) (pass-Inv limit orig w inv i k held ab at round some_left)
          | inr clear ↦
              rw (clear, Ensures)
                (Ensures-assert-if _ (v % 4 == 0) _ (λ test.
                  free-Inv limit orig w inv i k held ab at round v some_left (here v e)
                    (ground arith)))
        ])

    -- Inside its range, the read is inside the array, and the assertion holds.
    free_cell-Returns :
        (w.tds i).begin_retiree_idx < (w.tds i).end_retiree_idx
        → Returns (free_cell w i round k ab) (λ _. Unit)
    unfolding free_cell
    free_cell-Returns some_left =
        let o = here-Owns limit orig w inv i k held ab at in
        let sd = here-Sound limit orig w inv i k held ab at in
        let idx = (w.tds i).begin_retiree_idx in
        rw (get_elem?-eq-get_or ab.addrs idx 0 (omega (arith, o.within, sd.sized)))
          (elim (Bool-cases (is_marked (ab.addrs ! idx))) [
            | inl marked ↦ rw (marked, Returns) tt
            | inr clear ↦
                let aligned : ab.addrs ! idx % 4 ≡ 0 =
                  elim (sd.cells idx (omega (arith, o.within))) [
                    | inl e ↦ elim (sd.clean idx (omega (arith, o.within))) [
                      | inl m ↦ absurd (clash (ap is_marked e ∙ m) clear)
                      | inr a ↦ ap (λ v. v % 4) e ∙ a
                    ]
                    | inr f ↦ elim (o.kept idx f) [
                      | inl p ↦ absurd (omega arith)
                      | inr p ↦ absurd (omega arith)
                    ]
                  ] in
                let test : (ab.addrs ! idx % 4 == 0) ≡ true = ground arith in
                rw (clear, Returns) (rw (test, Returns) tt)
          ])
      where
        clash : {b : Bool} → b ≡ true → b ≡ false → ⊥
        clash {b} p q = cc

  free_at-Inv :
      (p : Place) (b : Option ℕ)
      → (w.tds i).place ≡ p
      → (w.tds i).retiree_buffer ≡ b
      → Ensures (free_at frees_required w i p b) (Inv limit orig)
  unfolding free_at
  free_at-Inv outside none e h = place-Inv limit orig w inv i (looping 0) (λ k c g f. tt)
  free_at-Inv outside (some k) e h = place-Inv limit orig w inv i (looping 0) (λ k c g f. tt)
  free_at-Inv (looping round) b e h = elim (Bool-cases (ltb round frees_required)) [
    | inr last ↦ rw (last, free_at) (place-Inv limit orig w inv i outside (λ k c g f. tt))
    | inl more ↦ rw (more, free_at) (loop_head b)
  ]
    where
      loop_head :
          (b : Option ℕ)
          → Ensures
              (elim b [
                | none ↦ get_retiree_buffer w.buffers >>= λ p. done (got_buffer w i round p)
                | some k ↦ done (with_td w i (record (w.tds i) { place = holding round }))
              ])
              (Inv limit orig)
      loop_head none =
          Ensures-bind _ (get_retiree_buffer w.buffers) _ (get_retiree_buffer-SameCells w.buffers)
            (λ p h. got_buffer-Inv round p h.0 h.1)
      loop_head (some k) = place-Inv limit orig w inv i (holding round) (λ k c g f. tt)
  free_at-Inv (holding round) none e h = inv
  free_at-Inv (tested round) none e h = inv
  free_at-Inv (claiming round b' e') none e h = inv
  free_at-Inv (freeing round) none e h = inv
  free_at-Inv (holding round) (some k) e h =
      Ensures-bind _ (load w.buffers k) _ (load_lem w.buffers k)
        (λ ab at. use_buffer-Inv round k h ab at)
  free_at-Inv (tested round) (some k) e h =
      Ensures-bind _ (load w.buffers k) _ (load_lem w.buffers k)
        (λ ab at. read_free_idx-Inv round k h ab at)
  free_at-Inv (claiming round begin_idx end_idx) (some k) e h =
      Ensures-bind _ (load w.buffers k) _ (load_lem w.buffers k) (λ ab at.
        let o = here-Owns limit orig w inv i k h ab at in
        let f = subst (λ p. Fits p (w.tds i) ab.n_addrs) e o.fits in
        swap_free_idx-Inv round k h ab at begin_idx end_idx f)
  free_at-Inv (freeing round) (some k) e h =
      Ensures-bind _ (load w.buffers k) _ (load_lem w.buffers k) (λ ab at.
        let o = here-Owns limit orig w inv i k h ab at in
        free_cell-Inv round k h ab at (subst (λ p. Fits p (w.tds i) ab.n_addrs) e o.fits))

  -- A thread that is about to read an address of its range does not fault.
  free_at-Returns :
      (round : ℕ) (b : Option ℕ)
      → (w.tds i).place ≡ freeing round
      → (w.tds i).retiree_buffer ≡ b
      → (w.tds i).begin_retiree_idx < (w.tds i).end_retiree_idx
      → Returns (free_at frees_required w i (freeing round) b) (λ _. Unit)
  unfolding free_at
  free_at-Returns round none e h some_left = tt
  free_at-Returns round (some k) e h some_left = at_buffer (w.buffers.bufs k) refl
    where
      at_buffer :
          (o : Option AddrBuffer)
          → w.buffers.bufs k ≡ o
          → Returns (load w.buffers k >>= λ ab. free_cell w i round k ab) (λ _. Unit)
      at_buffer none g =
          absurd (let (c, f, o) = inv.mine i k h in let q = ap view g in some_none (sym f ∙ q))
        where
          some_none : {c : Cells} → some c ≡ none → ⊥
          some_none {c} e = cc
      at_buffer (some ab) g =
          rw (load_at w.buffers k ab g) (free_cell-Returns round k h ab g some_left)

-- The address in a cell of a buffer.
abbrev pub address_at : World → ℕ → ℕ → ℕ
address_at w k j = elim (w.buffers.bufs k) [ none ↦ 0 | some b ↦ b.addrs ! j ]

-- The number of addresses of a buffer.
abbrev pub count_at : World → ℕ → ℕ
count_at w k = elim (w.buffers.bufs k) [ none ↦ 0 | some b ↦ b.n_addrs ]

-- No thread has begun, and the buffers hold addresses that are aligned or bear a mark.
pub record Fresh (w : World) : Type 0 where
  pub idle : (i : ℕ) → (w.tds i).retiree_buffer ≡ none
  pub none_freed : w.freed ≡ []
  pub sized : (k : ℕ) (b : AddrBuffer) → w.buffers.bufs k ≡ some b → b.n_addrs ≤ length b.addrs
  pub clean :
      (k : ℕ) (b : AddrBuffer) (j : ℕ)
      → w.buffers.bufs k ≡ some b
      → j < b.n_addrs
      → (is_marked (b.addrs ! j) ≡ true) ⊎ (b.addrs ! j % 4 ≡ 0)

Fresh-Inv : (w : World) → Fresh w → Inv (count_at w) (address_at w) w
Fresh-Inv w f = record {
  mine = λ i k e. let h = f.idle i in cc;
  apart = λ i j n k e g. let h = f.idle i in cc;
  sound = λ k c e. sound_at k c (w.buffers.bufs k) refl e;
  once = rw (f.none_freed) tt;
}
  where
    not_freed : (k j : ℕ) (l : List FreeCall) → l ≡ [] → Freed k j l → ⊥
    not_freed k j [] e h = h
    not_freed k j (x ∷ l) e h = cc

    sound_at :
        (k : ℕ) (c : Cells) (o : Option AddrBuffer)
        → w.buffers.bufs k ≡ o
        → view o ≡ some c
        → Sound (count_at w) (address_at w) w.freed k c
    sound_at k c none g e = cc
    sound_at k c (some b) g e =
        let same : record { addrs = b.addrs; n_addrs = b.n_addrs; free_idx = b.free_idx } ≡ c =
          cc in
        let at : (j : ℕ) → address_at w k j ≡ b.addrs ! j = λ j. rw (g, address_at) refl in
        subst (Sound (count_at w) (address_at w) w.freed k) same (record {
          sized = f.sized k b g;
          cells = λ j p. inl (sym (at j));
          clean = λ j p. rw (at j) (f.clean k b j g p);
          passed = λ j h. absurd (not_freed k j w.freed f.none_freed h);
          count = rw (g, count_at) refl;
        })

Reach-Inv : (n : ℕ) (w w' : World) → Fresh w → Reach n w w' → Inv (count_at w) (address_at w) w'
unfolding free_step
Reach-Inv n w w' f start = Fresh-Inv w f
Reach-Inv n w w' f (next {w1} {w2} i r e) =
    subst (λ m. Ensures m (Inv (count_at w) (address_at w))) e
      (free_at-Inv n (count_at w) (address_at w) w1 (Reach-Inv n w w1 f r) i (w1.tds i).place
        (w1.tds i).retiree_buffer refl refl)

-- Any number of threads run `forkscan_util_free_ptrs` at the same time, from a state where none holds a
-- buffer and each buffer's addresses are aligned or bear a mark. However their steps interleave, none of the
-- cells that hold a buffer's `n_addrs` addresses is freed twice, what is freed of them is the address that
-- the cell held at first, and no address that is freed anywhere bears a mark. And a thread whose range is
-- not empty reads its next address inside the array and meets the assertion that follows. Of cells past
-- `n_addrs`, to which a thread comes when another swaps `free_idx` between its two reads, nothing is said.
pub Reach-Once :
    (frees_required : ℕ) (w w' : World)
    → Fresh w
    → Reach frees_required w w'
    → Once (count_at w) (address_at w) w'.freed
      × ((i round : ℕ)
          → (w'.tds i).place ≡ freeing round
          → (w'.tds i).begin_retiree_idx < (w'.tds i).end_retiree_idx
          → Returns (free_step frees_required w' i) (λ _. Unit))
unfolding free_step
Reach-Once n w w' f r =
    let inv = Reach-Inv n w w' f r in
    (
      inv.once,
      λ i round e some_left. rw e (
          free_at-Returns n (count_at w) (address_at w) w' inv i round (w'.tds i).retiree_buffer e
            refl some_left),
    )
