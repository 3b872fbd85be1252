-- ===== src/Queue/PushBulk.antt =====
-- `forkscan_queue_push_bulk` of forkscan-changed/queue.c: one or two copies into the circular buffer.
use pp_final_project.Prelude.{
  ℕ, zero, suc, ◌+◌, ◌-◌, ◌%◌, ◌≤◌, ◌<◌, ◌≡◌, sym, ap, ◌∙◌, ◌⊎◌, inl, inr, List, ◌++◌, length, take,
  drop, blit, min, Returns, Returns-bind, arith, lt→ltb, length-append, length-blit, length-take,
  length-drop, get_or-append_left, get_or-append_right, get_or-blit_before, get_or-blit_after,
  get_or-blit_in, append-nil, append_assoc, take-append-take,
}
use native.Mathlib.Decide.{dec_lt}
use mathlib.Core.Path.{subst}
use pp_final_project.Queue.Defs.{Queue, copy_in, push_bulk}
use pp_final_project.Queue.Fifo.{◌!◌, Represents, wrap-small, memcpy-done, head-slot, slot-cases}

module _ (q : Queue) (l : List ℕ) (r : Represents q l) where
  abbrev head_cell : ℕ
  head_cell = (q.idx_tail + length l) % q.capacity

  -- Values written to the cells from the head on.
  blit-Represents :
      (xs : List ℕ)
      → head_cell + length xs ≤ q.capacity
      → length l + length xs < q.capacity
      → Represents
          (record q { e = blit q.e head_cell xs; idx_head = q.idx_head + length xs })
          (l ++ xs)
  blit-Represents xs room fits = record {
    log_capacity = r.log_capacity;
    power = r.power;
    buffer = length-blit q.e head_cell xs ∙ r.buffer;
    fits = omega (arith, length-append l xs);
    started = r.started;
    count = omega (arith, length-append l xs, r.count);
    no_wrap = r.no_wrap;
    cells = λ j p. elim (dec_lt j (length l)) [
      | yes old ↦ kept j old (outside j old) ∙ r.cells j old ∙ sym (get_or-append_left l xs j 0 old)
      | no new ↦ added j (omega arith) (omega (arith, length-append l xs))
    ];
  }
    where
      outside :
          (j : ℕ)
          → j < length l
          → ((q.idx_tail + j) % q.capacity < head_cell)
            ⊎ (head_cell + length xs ≤ (q.idx_tail + j) % q.capacity)
      outside j p = elim (dec_lt ((q.idx_tail + j) % q.capacity) head_cell) [
        | yes lt ↦ inl lt
        | no n ↦ inr (
            omega (
              arith,
              slot-cases q l r j (omega (arith, r.fits)),
              slot-cases q l r (length l) r.fits,
            ))
      ]

      kept :
          (j : ℕ)
          → j < length l
          → ((q.idx_tail + j) % q.capacity < head_cell)
            ⊎ (head_cell + length xs ≤ (q.idx_tail + j) % q.capacity)
          → blit q.e head_cell xs ! ((q.idx_tail + j) % q.capacity)
            ≡ q.e ! ((q.idx_tail + j) % q.capacity)
      kept j p (inl before) = get_or-blit_before q.e head_cell xs _ 0 before
      kept j p (inr after) = get_or-blit_after q.e head_cell xs _ 0 after

      added :
          (j : ℕ)
          → length l ≤ j
          → j < length l + length xs
          → blit q.e head_cell xs ! ((q.idx_tail + j) % q.capacity) ≡ (l ++ xs) ! j
      added j p h =
          let at : (q.idx_tail + j) % q.capacity ≡ head_cell + (j - length l) =
            omega (arith, slot-cases q l r j (omega arith), slot-cases q l r (length l) r.fits) in
          rw at (
            get_or-blit_in q.e head_cell xs (j - length l) 0 (omega arith) (omega (arith, r.buffer))
            ∙ sym (get_or-append_right l xs j 0 p))

  -- One copy of `push_bulk`.
  copy_in-Represents :
      (values : List ℕ) (from n : ℕ)
      → from + n ≤ length values
      → head_cell + n ≤ q.capacity
      → length l + n < q.capacity
      → Returns
          (copy_in q.e q.capacity q.idx_head values from n)
          (λ c. Represents (record q { e = c.0; idx_head = c.1 }) (l ++ take n (drop from values)))
  unfolding copy_in
  copy_in-Represents values from zero given room fits = rw (append-nil l) r
  copy_in-Represents values from (suc n) given room fits =
      rw
        (
          lt→ltb 0 (suc n) (omega arith),
          head-slot q l r,
          memcpy-done q.e head_cell values from (suc n) given (omega (arith, r.buffer)),
          wrap-small (q.idx_head + suc n) (omega (arith, r.count, r.no_wrap)),
        )
        (subst
          (λ k.
            Represents (record q { e = blit q.e head_cell xs; idx_head = q.idx_head + k })
              (l ++ xs))
          size (blit-Represents xs (omega (arith, size)) (omega (arith, size))))
    where
      xs : List ℕ
      xs = take (suc n) (drop from values)

      size : length xs ≡ suc n
      size = omega (arith, length-take (suc n) (drop from values), length-drop from values)

-- With room for `len` values and at least `len` values given, `push_bulk` returns, and puts the first
-- `len` of them behind those of the queue, in their order.
pub push_bulk-Represents :
    (q : Queue) (l : List ℕ)
    → Represents q l
    → (values : List ℕ) (len : ℕ) → len ≤ length values
    → length l + len < q.capacity
    → Returns (push_bulk q values len) (λ q'. Represents q' (l ++ take len values))
unfolding push_bulk
push_bulk-Represents q l r values len given fits = rw (head-slot q l r) (
    Returns-bind (λ q'. Represents q' (l ++ take len values))
      (copy_in q.e q.capacity q.idx_head values 0 first) _
      (copy_in-Represents q l r values 0 first (omega arith) (omega (arith, head_in)) (omega arith))
      (λ c r1.
        Returns-bind (λ q'. Represents q' (l ++ take len values))
          (copy_in c.0 q.capacity c.1 values first (len - first)) _
          (copy_in-Represents (record q { e = c.0; idx_head = c.1 }) (l ++ take first values) r1
            values first (len - first) (omega arith) (rw size second_room)
            (omega (arith, length-append l (take first values), length-take first values)))
          (λ c' r2.
            subst (λ xs. Represents (record q { e = c'.0; idx_head = c'.1 }) xs) joined r2)))
  where
    head_cell : ℕ
    head_cell = (q.idx_tail + length l) % q.capacity

    head_in : head_cell < q.capacity
    head_in = omega (arith, slot-cases q l r (length l) r.fits)

    first : ℕ
    first = min len (q.capacity - head_cell)

    size : length (l ++ take first values) ≡ length l + first
    size = omega (arith, length-append l (take first values), length-take first values)

    second_room : (q.idx_tail + (length l + first)) % q.capacity + (len - first) ≤ q.capacity
    second_room = omega (
      arith,
      slot-cases q l r (length l) r.fits,
      slot-cases q l r (length l + first) (omega arith),
    )

    joined :
        (l ++ take first values) ++ take (len - first) (drop first values) ≡ l ++ take len values
    joined =
        append_assoc l (take first values) (take (len - first) (drop first values))
        ∙ ap (λ xs. l ++ xs)
            (take-append-take first (len - first) values
              ∙ ap (λ k. take k values) {x = first + (len - first)} {y = len} (omega arith))
