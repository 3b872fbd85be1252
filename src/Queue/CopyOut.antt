-- ===== src/Queue/CopyOut.antt =====
-- The copies of `copy_out`, forkscan-changed/queue.c: cells of the circular buffer, one or two runs.
use pp_final_project.Prelude.{
  ℕ, zero, suc, ◌+◌, ◌-◌, ◌%◌, ◌≤◌, ◌<◌, ◌≡◌, refl, sym, ap, ◌∙◌, ◌⊎◌, inl, inr, List, ◌++◌, length,
  take, drop, blit, done, arith, lt→ltb, le→not_ltb, length-append, length-blit, length-take,
  length-drop, get_or-append_left, get_or-append_right, get_or-blit_before, get_or-blit_after,
  get_or-blit_in, get_or-take, get_or-drop, cells_ext,
}
use native.Mathlib.Decide.{dec_lt}
use pp_final_project.Queue.Defs.{Queue, copy_some, copy_out}
use pp_final_project.Queue.Fifo.{◌!◌, Represents, memcpy-done, slot-cases}

copy_some-done :
    (dst : List ℕ) (to : ℕ) (src : List ℕ) (from n : ℕ)
    → from + n ≤ length src
    → to + n ≤ length dst
    → copy_some dst to src from n ≡ done (blit dst to (take n (drop from src)))
unfolding copy_some blit
copy_some-done dst to src from zero h k = refl
copy_some-done dst to src from (suc n) h k =
    rw (lt→ltb 0 (suc n) (omega arith)) (memcpy-done dst to src from (suc n) h k)

module _ (q : Queue) (l : List ℕ) (r : Represents q l) where
  abbrev pub cell : ℕ → ℕ
  cell k = (q.idx_tail + k) % q.capacity

  cell_zero : cell 0 < q.capacity
  cell_zero = omega (arith, slot-cases q l r 0 (omega (arith, r.fits)))

  cell-cases :
      (k : ℕ)
      → k ≤ length l
      → (cell 0 + k < q.capacity) × (cell k ≡ cell 0 + k)
        ⊎ (q.capacity ≤ cell 0 + k) × (cell k ≡ cell 0 + k - q.capacity)
  cell-cases k h = elim (dec_lt (cell 0 + k) q.capacity) [
    | yes p ↦ inl (
      p,
      omega (
        arith,
        slot-cases q l r 0 (omega (arith, r.fits)),
        slot-cases q l r k (omega (arith, r.fits)),
      ),
    )
    | no n ↦ inr (
      omega arith,
      omega (
        arith,
        slot-cases q l r 0 (omega (arith, r.fits)),
        slot-cases q l r k (omega (arith, r.fits)),
      ),
    )
  ]

  -- The values in cells of the buffer that do not wrap around.
  run_of_cells :
      (start n : ℕ) (i : ℕ)
      → i < n
      → (drop_e : ℕ) → drop_e ≡ start + i
      → take n (drop start q.e) ! i ≡ q.e ! drop_e
  run_of_cells start n i p at e =
      get_or-take n (drop start q.e) i 0 p ∙ get_or-drop start q.e i 0 ∙ ap (λ k. q.e ! k) (sym e)

  length-run : (start n : ℕ) → start + n ≤ q.capacity → length (take n (drop start q.e)) ≡ n
  length-run start n h =
      omega (arith, length-take n (drop start q.e), length-drop start q.e, r.buffer)

  abbrev pub popped_list : List ℕ → ℕ → List ℕ
  popped_list values n = take n l ++ drop n values

  pub popped-new :
      (values : List ℕ) (n i : ℕ) → n ≤ length l → i < n → popped_list values n ! i ≡ q.e ! cell i
  popped-new values n i h p =
      get_or-append_left (take n l) (drop n values) i 0 (omega (arith, length-take n l))
      ∙ get_or-take n l i 0 p
      ∙ sym (r.cells i (omega arith))

  popped-old :
      (values : List ℕ) (n i : ℕ) → n ≤ length l → n ≤ i → popped_list values n ! i ≡ values ! i
  popped-old values n i h p =
      let size : length (take n l) ≡ n = omega (arith, length-take n l) in
      get_or-append_right (take n l) (drop n values) i 0 (omega arith)
      ∙ get_or-drop n values (i - length (take n l)) 0
      ∙ ap (λ k. values ! k) {x = n + (i - length (take n l))} {y = i} (omega arith)

  pub length-popped :
      (values : List ℕ) (n : ℕ)
      → n ≤ length l
      → n ≤ length values
      → length (popped_list values n) ≡ length values
  length-popped values n h room =
      omega (arith, length-append (take n l) (drop n values), length-take n l, length-drop n values)

  at_front :
      (xs a : List ℕ) (i : ℕ) → i < length xs → length xs ≤ length a → blit a 0 xs ! i ≡ xs ! i
  at_front xs a i p h =
      ap (λ k. blit a 0 xs ! k) {x = i} {y = 0 + i} (omega arith)
      ∙ get_or-blit_in a 0 xs i 0 p (omega arith)

  -- One copy is enough.
  one_copy :
      (values : List ℕ) (n : ℕ)
      → n ≤ length l
      → n ≤ length values
      → cell 0 ≤ cell n
      → blit values 0 (take (cell n - cell 0) (drop (cell 0) q.e)) ≡ popped_list values n
  one_copy values n h room flat =
      cells_ext 0 _ _ (length-blit values 0 xs ∙ sym (length-popped values n h room)) (λ i p.
        elim (dec_lt i n) [
          | yes new ↦
              at_front xs values i (omega (arith, size, count)) (omega (arith, size, count))
              ∙ run_of_cells (cell 0) (cell n - cell 0) i (omega (arith, count)) (cell i)
                  (omega (arith, cell-cases i (omega arith), cell-cases n h, count))
              ∙ sym (popped-new values n i h new)
          | no old ↦
              get_or-blit_after values 0 xs i 0 (omega (arith, size, count))
              ∙ sym (popped-old values n i h (omega arith))
        ])
    where
      xs : List ℕ
      xs = take (cell n - cell 0) (drop (cell 0) q.e)

      count : cell n ≡ cell 0 + n
      count = omega (arith, cell-cases n h, cell_zero, r.fits)

      size : length xs ≡ cell n - cell 0
      size = length-run (cell 0) (cell n - cell 0) (omega (arith, cell-cases n h))

  two_copies :
      (values : List ℕ) (n : ℕ)
      → n ≤ length l
      → n ≤ length values
      → cell n < cell 0
      → blit
          (blit values 0 (take (q.capacity - cell 0) (drop (cell 0) q.e)))
          (q.capacity - cell 0)
          (take (cell n) (drop 0 q.e))
        ≡ popped_list values n
  two_copies values n h room wraps =
      cells_ext 0 _ _
        (length-blit (blit values 0 xs) (q.capacity - cell 0) ys
          ∙ length-blit values 0 xs
          ∙ sym (length-popped values n h room))
        (λ i p. elim (dec_lt i (q.capacity - cell 0)) [
          | yes end ↦
              get_or-blit_before (blit values 0 xs) (q.capacity - cell 0) ys i 0 end
              ∙ at_front xs values i (omega (arith, size)) (omega (arith, size, count))
              ∙ run_of_cells (cell 0) (q.capacity - cell 0) i end (cell i)
                  (omega (arith, cell-cases i (omega (arith, count)), count))
              ∙ sym (popped-new values n i h (omega (arith, count)))
          | no beyond ↦ elim (dec_lt i n) [
            | yes new ↦
                ap (λ k. blit (blit values 0 xs) (q.capacity - cell 0) ys ! k) {x = i}
                  {y = q.capacity - cell 0 + (i - (q.capacity - cell 0))} (omega arith)
                ∙ get_or-blit_in (blit values 0 xs) (q.capacity - cell 0) ys
                    (i - (q.capacity - cell 0)) 0 (omega (arith, size_ys, count))
                    (omega (arith, size_ys, count, length-blit values 0 xs))
                ∙ run_of_cells 0 (cell n) (i - (q.capacity - cell 0)) (omega (arith, count))
                    (cell i) (omega (arith, cell-cases i (omega arith), count, cell_zero))
                ∙ sym (popped-new values n i h new)
            | no old ↦
                get_or-blit_after (blit values 0 xs) (q.capacity - cell 0) ys i 0
                  (omega (arith, size_ys, count))
                ∙ get_or-blit_after values 0 xs i 0 (omega (arith, size, count))
                ∙ sym (popped-old values n i h (omega arith))
          ]
        ])
    where
      xs : List ℕ
      xs = take (q.capacity - cell 0) (drop (cell 0) q.e)

      ys : List ℕ
      ys = take (cell n) (drop 0 q.e)

      count : (cell n + q.capacity ≡ cell 0 + n) × (cell 0 < q.capacity)
      count = (omega (arith, cell-cases n h, cell_zero), cell_zero)

      size : length xs ≡ q.capacity - cell 0
      size = length-run (cell 0) (q.capacity - cell 0) (omega (arith, cell_zero))

      size_ys : length ys ≡ cell n
      size_ys = length-run 0 (cell n) (omega (arith, wraps, cell_zero))

  -- Both cases.
  pub copy_out-done :
      (values : List ℕ) (n : ℕ)
      → n ≤ length l
      → n ≤ length values
      → copy_out q values (cell n) (cell 0) ≡ done (popped_list values n)
  unfolding copy_out
  copy_out-done values n h room = elim (dec_lt (cell n) (cell 0)) [
    | yes wraps ↦
        rw
          (
            lt→ltb (cell n) (cell 0) wraps,
            memcpy-done values 0 q.e (cell 0) (q.capacity - cell 0)
                (omega (arith, cell_zero, r.buffer)) (omega (arith, cell-cases n h, cell_zero)),
            copy_some-done (blit values 0 (take (q.capacity - cell 0) (drop (cell 0) q.e)))
                (q.capacity - cell 0) q.e 0 (cell n) (omega (arith, cell_zero, r.buffer))
                (omega (
                  arith,
                  cell-cases n h,
                  cell_zero,
                  length-blit values 0 (take (q.capacity - cell 0) (drop (cell 0) q.e)),
                )),
          )
          (ap done (two_copies values n h room wraps))
    | no flat ↦
        rw
          (
            le→not_ltb (cell n) (cell 0) (omega arith),
            copy_some-done values 0 q.e (cell 0) (cell n - cell 0)
                (omega (arith, cell-cases n h, cell_zero, r.buffer))
                (omega (arith, cell-cases n h, cell_zero, r.fits)),
          )
          (ap done (one_copy values n h room (omega arith)))
  ]
