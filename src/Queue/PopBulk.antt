-- ===== src/Queue/PopBulk.antt =====
-- `forkscan_queue_pop_bulk` of forkscan-changed/queue.c, above the copies of CopyOut.
use pp_final_project.Prelude.{
  ℕ, zero, suc, ◌+◌, ◌-◌, ◌%◌, ◌≤◌, ◌<◌, ◌≡◌, ◌≢◌, refl, sym, ap, ◌∙◌, true, false, List, ◌++◌,
  ◌==◌, length, take, drop, min, done, Returns, arith, lt→ltb, le→not_ltb, not, length-drop,
  get_or-drop, get_elem?-eq-get_or,
}
use native.Mathlib.Decide.{dec_lt}
use native.Mathlib.Nat.{add-mod_right}
use pp_final_project.Queue.Defs.{
  Queue, two_64, wrap, indexify, sub_64, check_values, pop_count, pop_bulk,
}
use pp_final_project.Queue.Fifo.{◌!◌, Represents, wrap-small, indexify-mod}
use pp_final_project.Queue.CopyOut.{cell, popped_list, popped-new, length-popped, copy_out-done}

pub sub_64-lem : (a b : ℕ) → b ≤ a → a < two_64 → sub_64 a b ≡ a - b
unfolding sub_64 wrap
sub_64-lem a b h p = omega arith

check_values-done :
    (rounds i : ℕ) (values : List ℕ)
    → i + rounds ≤ length values
    → ((j : ℕ) → i ≤ j → j < i + rounds → values ! j ≢ 0)
    → check_values rounds values i ≡ done tt
unfolding check_values
check_values-done zero i values h nz = refl
check_values-done (suc rounds) i values h nz =
    rw
      (
        get_elem?-eq-get_or values i 0 (omega arith),
        not_zero (values ! i) (nz i (omega arith) (omega arith)),
      )
      (check_values-done rounds (suc i) values (omega arith)
        (λ j p q. nz j (omega arith) (omega arith)))
  where
    not_zero : (v : ℕ) → v ≢ 0 → not (v == 0) ≡ true
    not_zero v h = ground arith

module _ (q : Queue) (l : List ℕ) (r : Represents q l) where
  -- The tail moved on by `n`.
  drop-Represents :
      (n : ℕ)
      → n ≤ length l
      → q.idx_tail + n + q.capacity < two_64
      → Represents (record q { idx_tail = q.idx_tail + n }) (drop n l)
  drop-Represents n h few = record {
    log_capacity = r.log_capacity;
    power = r.power;
    buffer = r.buffer;
    fits = omega (arith, length-drop n l, r.fits);
    started = omega (arith, r.started);
    count = omega (arith, length-drop n l, r.count);
    no_wrap = few;
    cells = λ j p.
        ap (λ k. q.e ! (k % q.capacity)) {x = q.idx_tail + n + j} {y = q.idx_tail + (n + j)}
          (omega arith)
        ∙ r.cells (n + j) (omega (arith, length-drop n l))
        ∙ sym (get_or-drop n l j 0);
  }

  size_lem : sub_64 q.idx_head (sub_64 q.idx_tail q.capacity) ≡ length l
  size_lem = rw (sub_64-lem q.idx_tail q.capacity r.started (omega (arith, r.no_wrap))) (
      sub_64-lem q.idx_head (q.idx_tail - q.capacity) (omega (arith, r.count, r.started))
        (omega (arith, r.count, r.fits, r.no_wrap))
      ∙ omega (arith, r.count, r.started))

  indexify-cell : (i n : ℕ) → i + q.capacity ≡ q.idx_tail + n → indexify i q.capacity ≡ cell q l r n
  indexify-cell i n e =
      indexify-mod q l r i ∙ sym (add-mod_right i q.capacity) ∙ ap (λ k. k % q.capacity) e

  -- `n` values are popped from the head index that stands for them.
  pop_some :
      (values : List ℕ) (n head : ℕ)
      → n ≤ length l
      → n ≤ length values
      → head + q.capacity ≡ q.idx_tail + n
      → q.idx_tail + n + q.capacity < two_64
      → ((j : ℕ) → j < length l → l ! j ≢ 0)
      → pop_count values q n head
        ≡ done (popped_list q l r values n, n, record q { idx_tail = q.idx_tail + n })
  unfolding pop_count
  pop_some values n head h room e few nz =
      rw
        (
          indexify-cell head n e,
          indexify-mod q l r q.idx_tail,
          ap (λ k. k % q.capacity) {x = q.idx_tail} {y = q.idx_tail + 0} (omega arith),
          copy_out-done q l r values n h room,
          check_values-done n 0 (popped_list q l r values n)
              (omega (arith, length-popped q l r values n h room))
              (λ j p p' z.
                nz j (omega arith) (sym (r.cells j (omega arith)) ∙ popped_zero j (omega arith) z)),
          wrap-small (head + q.capacity) (omega arith),
          e,
        )
        refl
    where
      popped_zero : (j : ℕ) → j < n → popped_list q l r values n ! j ≡ 0 → q.e ! cell q l r j ≡ 0
      popped_zero j p z = sym (popped-new q l r values n j h p) ∙ z

  -- On a queue that holds `l`, none of it 0, with a values buffer that has room for `len`, `len` below
  -- the limit that the code asserts and counters that do not wrap, `pop_bulk` returns. It pops as many
  -- values as there are, up to `len`, the oldest first, into the front of the buffer; the rest of the
  -- buffer and of the queue stay, and so does the capacity.
  pub pop_bulk-Represents :
      (values : List ℕ) (len : ℕ)
      → len ≤ length values
      → len < 1080863910568919040
      → q.idx_tail + len + q.capacity < two_64
      → ((j : ℕ) → j < length l → l ! j ≢ 0)
      → Returns (pop_bulk values len q) (λ p.
        let n = min len (length l) in
        (p.0 ≡ take n l ++ drop n values)
        × (p.1 ≡ n)
        × Represents p.2 (drop n l)
        × (p.2.capacity ≡ q.capacity))
  unfolding pop_bulk
  pop_bulk-Represents values len room limit few nz =
      rw (lt→ltb len 1080863910568919040 limit, size_lem)
        (elim (dec_lt 0 (length l)) [
          | no none ↦
              let zero_length : length l ≡ 0 = omega arith in
              let nothing : min len 0 ≡ 0 = omega arith in
              rw (zero_length, nothing) (refl, refl, r, refl)
          | yes some_value ↦ elim (dec_lt len (length l)) [
            | yes more ↦
                rw
                  (
                    not_zero (length l) some_value,
                    size_lem,
                    lt→ltb len (length l) more,
                    size_lem,
                    sub_64-lem q.idx_head (length l - len) (omega (arith, r.count, r.started))
                        (omega (arith, r.count, r.fits, r.no_wrap)),
                  )
                  (popped len (q.idx_head - (length l - len)) (omega arith)
                    (omega (arith, r.count, r.started)))
            | no all ↦
                rw
                  (
                    not_zero (length l) some_value,
                    size_lem,
                    le→not_ltb len (length l) (omega arith),
                    size_lem,
                  )
                  (popped (length l) q.idx_head (omega arith) r.count)
          ]
        ])
    where
      not_zero : (k : ℕ) → 0 < k → (k == 0) ≡ false
      not_zero k h = ground arith

      popped :
          (n head : ℕ)
          → min len (length l) ≡ n
          → head + q.capacity ≡ q.idx_tail + n
          → Returns (pop_count values q n head) (λ p.
            let n = min len (length l) in
            (p.0 ≡ take n l ++ drop n values)
            × (p.1 ≡ n)
            × Represents p.2 (drop n l)
            × (p.2.capacity ≡ q.capacity))
      popped n head e f =
          rw (pop_some values n head (omega arith) (omega arith) f (omega arith) nz, e)
            (refl, refl, drop-Represents n (omega arith) (omega arith), refl)
