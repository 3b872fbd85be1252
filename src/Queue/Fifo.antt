-- ===== src/Queue/Fifo.antt =====
-- forkscan-changed/queue.c as a first-in first-out queue.
use pp_final_project.Prelude.{
  ℕ, suc, ◌+◌, ◌-◌, ◌%◌, ◌^◌, ◌≤◌, ◌<◌, ◌≡◌, ◌≢◌, refl, sym, ap, ◌∙◌, ◌⊎◌, inl, inr, List, [], ◌∷◌,
  ◌++◌, length, get_elem?, get_or, take, drop, blit, ◌==◌, done, Returns, arith, bit_and-mask,
  mod_ahead, mod_wrap, lt→ltb, le→leb, length-set, length-append, get_or-set_self, get_or-set_ne,
  get_or-append_left, get_or-append_right, get_elem?-eq-get_or, some,
}
use native.Mathlib.Nat.{mod-lt, add-mod_right, one-le-pow}
use native.Mathlib.Decide.{ℕ_discrete, dec_lt}
use pp_final_project.Queue.Defs.{
  Queue, two_64, wrap, indexify, memcpy, queue_init, is_empty, is_full, available, push, pop,
}

infixl 9 ◌!◌
abbrev pub ◌!◌ : List ℕ → ℕ → ℕ
a ! i = get_or a i 0

-- The queue holds the values `l`, the oldest first; one cell at least stays free.
pub record Represents (q : Queue) (l : List ℕ) : Type 0 where
  pub log_capacity : ℕ
  pub power : q.capacity ≡ 2 ^ log_capacity
  pub buffer : length q.e ≡ q.capacity
  pub fits : length l < q.capacity
  pub started : q.capacity ≤ q.idx_tail
  pub count : q.idx_head + q.capacity ≡ q.idx_tail + length l
  pub no_wrap : q.idx_tail + q.capacity < two_64
  pub cells : (j : ℕ) → j < length l → q.e ! ((q.idx_tail + j) % q.capacity) ≡ l ! j

pub wrap-small : (n : ℕ) → n < two_64 → wrap n ≡ n
unfolding wrap
wrap-small n h = omega arith

-- A copy between two runs of cells inside the arrays.
pub memcpy-done :
    (dst : List ℕ) (to : ℕ) (src : List ℕ) (from n : ℕ)
    → from + n ≤ length src
    → to + n ≤ length dst
    → memcpy dst to src from n ≡ done (blit dst to (take n (drop from src)))
unfolding memcpy
memcpy-done dst to src from n h k = rw (le→leb _ _ h, le→leb _ _ k) refl

module _ (q : Queue) (l : List ℕ) (r : Represents q l) where
  pub capacity_pos : 0 < q.capacity
  capacity_pos = omega (arith, r.fits)

  pub indexify-mod : (i : ℕ) → indexify i q.capacity ≡ i % q.capacity
  unfolding indexify
  indexify-mod i = rw r.power (bit_and-mask i r.log_capacity)

  -- The cell `k` places after the tail, as an offset from the cell of the tail.
  pub slot-cases :
      (k : ℕ)
      → k < q.capacity
      → let t = q.idx_tail % q.capacity in
        (t < q.capacity)
        × ((t + k < q.capacity) × ((q.idx_tail + k) % q.capacity ≡ t + k)
            ⊎ (q.capacity ≤ t + k) × ((q.idx_tail + k) % q.capacity ≡ t + k - q.capacity))
  slot-cases k h = elim (dec_lt (q.idx_tail % q.capacity + k) q.capacity) [
    | yes p ↦ (mod-lt q.idx_tail capacity_pos, inl (p, mod_ahead q.idx_tail k q.capacity p))
    | no n ↦ (
      mod-lt q.idx_tail capacity_pos,
      inr (
        omega arith,
        mod_wrap q.idx_tail k q.capacity (omega (arith, mod-lt q.idx_tail capacity_pos))
            (omega arith),
      ),
    )
  ]

  -- Where the next value goes.
  pub head-slot : indexify q.idx_head q.capacity ≡ (q.idx_tail + length l) % q.capacity
  head-slot =
      indexify-mod q.idx_head
      ∙ sym (add-mod_right q.idx_head q.capacity)
      ∙ ap (λ i. i % q.capacity) r.count

  pub slots_ne :
      (j k : ℕ)
      → j < k
      → k < q.capacity
      → (q.idx_tail + k) % q.capacity ≢ (q.idx_tail + j) % q.capacity
  slots_ne j k p h e = omega (arith, slot-cases j (omega arith), slot-cases k h)

module _ (q : Queue) (l : List ℕ) (r : Represents q l) where
  in_order : q.idx_head < q.idx_tail
  in_order = omega (arith, r.count, r.fits)

  is_empty-Represents : is_empty q ≡ done (length l == 0)
  unfolding is_empty
  is_empty-Represents =
      rw
        (
          lt→ltb _ _ in_order,
          wrap-small (q.idx_head + q.capacity) (omega (arith, r.count, r.fits, r.no_wrap)),
        )
        (ap done (ground (arith, r.count)))

  is_full-Represents : is_full q ≡ done (length l + 1 == q.capacity)
  unfolding is_full
  is_full-Represents =
      rw
        (
          lt→ltb _ _ in_order,
          wrap-small (q.idx_head + 1) (omega (arith, r.count, r.fits, r.no_wrap)),
        )
        (ap done (ground (arith, r.count, r.fits)))

  available-Represents : available q ≡ done (q.capacity - 1 - length l)
  unfolding available
  available-Represents =
      rw (lt→ltb _ _ in_order)
        (ap done {x = q.idx_tail - q.idx_head - 1} (omega (arith, r.count, r.fits)))

  -- `is_empty` answers whether the queue holds no value, `is_full` whether it holds one value less than
  -- its capacity, and the free cells that `available` counts and the values add up to the capacity less
  -- one.
  pub fill-Represents :
      (is_empty q ≡ done (length l == 0))
      × (is_full q ≡ done (length l + 1 == q.capacity))
      × (available q ≡ done (q.capacity - 1 - length l))
  fill-Represents = (is_empty-Represents, is_full-Represents, available-Represents)

  -- With a cell to spare besides the one kept free, `push` returns and puts the value behind the others.
  pub push-Represents :
      (v : ℕ) → length l + 1 < q.capacity → Returns (push q v) (λ q'. Represents q' (l ++ v ∷ []))
  unfolding push
  push-Represents v room =
      rw
        (
          head-slot q l r,
          lt→ltb _ _ (slot_in (length l) r.fits),
          wrap-small (q.idx_head + 1) (omega (arith, r.count, r.fits, r.no_wrap)),
          lt→ltb _ _ next_in_order,
        )
        (record {
          log_capacity = r.log_capacity;
          power = r.power;
          buffer = length-set q.e at v ∙ r.buffer;
          fits = omega (arith, length-append l (v ∷ []));
          started = r.started;
          count = omega (arith, length-append l (v ∷ []), r.count);
          no_wrap = r.no_wrap;
          cells = λ j p. elim (ℕ_discrete j (length l)) [
            | yes e ↦ rw e (get_or-set_self q.e at v 0 (slot_in (length l) r.fits) ∙ sym (last v))
            | no n ↦
                get_or-set_ne q.e at ((q.idx_tail + j) % q.capacity) v 0
                  (slots_ne q l r j (length l) (within j p n) r.fits)
                ∙ r.cells j (within j p n)
                ∙ sym (get_or-append_left l (v ∷ []) j 0 (within j p n))
          ];
        })
    where
      at : ℕ
      at = (q.idx_tail + length l) % q.capacity

      slot_in : (k : ℕ) → k < q.capacity → (q.idx_tail + k) % q.capacity < length q.e
      slot_in k p = omega (arith, slot-cases q l r k p, r.buffer)

      within : (j : ℕ) → j < length (l ++ v ∷ []) → j ≢ length l → j < length l
      within j p n = omega (arith, length-append l (v ∷ []))

      last : (v : ℕ) → (l ++ v ∷ []) ! length l ≡ v
      last v =
          get_or-append_right l (v ∷ []) (length l) 0 (omega arith)
          ∙ ap (λ i. (v ∷ []) ! i) {x = length l - length l} {y = 0} (omega arith)

      next_in_order : q.idx_head + 1 < q.idx_tail
      next_in_order = omega (arith, r.count, room)

-- On a queue that is not empty, with counters that do not wrap, `pop` returns the oldest value, and the
-- queue keeps the others.
pub pop-Represents :
    (q : Queue) (v : ℕ) (l : List ℕ)
    → Represents q (v ∷ l)
    → q.idx_tail + 1 + q.capacity < two_64
    → Returns (pop q) (λ r. (r.0 ≡ v) × Represents r.1 l)
unfolding pop
pop-Represents q v l r few =
    rw (indexify-mod q (v ∷ l) r q.idx_tail, here, wrap-small (q.idx_tail + 1) (omega arith))
      (
        refl,
        record {
          log_capacity = r.log_capacity;
          power = r.power;
          buffer = r.buffer;
          fits = omega arith;
          started = omega arith;
          count = omega arith;
          no_wrap = few;
          cells = λ j p.
              ap (λ i. q.e ! (i % q.capacity)) {x = q.idx_tail + 1 + j} {y = q.idx_tail + suc j}
                (omega arith)
              ∙ r.cells (suc j) (omega arith);
        },
      )
  where
    same : (q.idx_tail + 0) % q.capacity ≡ q.idx_tail % q.capacity
    same = ap (λ i. i % q.capacity) {x = q.idx_tail + 0} (omega arith)

    here : get_elem? q.e (q.idx_tail % q.capacity) ≡ some v
    here =
        get_elem?-eq-get_or q.e (q.idx_tail % q.capacity) 0
          (omega (arith, mod-lt q.idx_tail (capacity_pos q (v ∷ l) r)))
        ∙ ap some (rw (← same) (r.cells 0 (omega arith)))

-- A fresh queue on a buffer of `2 ^ k` cells is empty, if `2 ^ k + 2 ^ k` is below `2 ^ 64`.
pub queue_init-Represents :
    (buf : List ℕ) (k : ℕ)
    → length buf ≡ 2 ^ k
    → 2 ^ k + 2 ^ k < two_64
    → Represents (queue_init buf (2 ^ k)) []
unfolding queue_init
queue_init-Represents buf k e small = record {
  log_capacity = k;
  power = refl;
  buffer = e;
  fits = one-le-pow k 2 (omega arith);
  started = omega arith;
  count = omega arith;
  no_wrap = small;
  cells = λ j p. absurd (omega arith);
}
