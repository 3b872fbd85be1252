-- ===== src/Quick/Partition.antt =====
-- `partition` of forkscan-changed/util.c: smaller or equal cells, the pivot, greater cells.
use mathlib.Core.Path.{subst}
use native.Mathlib.Decide.{ℕ_discrete}
use pp_final_project.Prelude.{
  ℕ, zero, suc, ◌+◌, ◌-◌, ◌/◌, ◌≤◌, ◌<◌, ◌≡◌, refl, ◌∙◌, true, false, List, length, get_elem?, leb,
  done, ◌>>=◌, Returns, Returns-imp, Returns-bind, arith, get_elem?-eq-get_or, some, Bool-cases,
  inl, inr, leb→le,
}
use pp_final_project.Scan.Binary.{◌!◌}
use pp_final_project.Quick.Defs.{swap, partition_cell, partition_loop, place_pivot, partition}
use pp_final_project.Quick.Exchange.{
  exchange, swap-exchange, exchange_left, exchange_right, exchange_other, length-exchange, Swaps,
  none_yet, then_swap, Swaps-trans, Swaps-wider,
}

module _ (rounds i mid pv : ℕ) (a : List ℕ) (v : ℕ) (at : get_elem? a i ≡ some v) where
  loop_small :
      leb v pv ≡ true
      → swap a i mid ≡ done (exchange a i mid)
      → partition_loop (suc rounds) i mid pv a
        ≡ partition_loop rounds (suc i) (suc mid) pv (exchange a i mid)
  unfolding partition_loop partition_cell
  loop_small h e = rw (at, partition_loop) (rw (h, partition_cell) (rw e refl))

  loop_great :
      leb v pv ≡ false
      → partition_loop (suc rounds) i mid pv a ≡ partition_loop rounds (suc i) mid pv a
  unfolding partition_loop partition_cell
  loop_great h = rw (at, partition_loop) (rw (h, partition_cell) refl)

module _ (lo max pv : ℕ) where
  -- Before the cell `i` is looked at.
  record Parting (i mid : ℕ) (a : List ℕ) : Type 0 where
    from_lo : lo ≤ mid
    to_i : mid ≤ i
    within : i ≤ max
    room : max < length a
    small : (k : ℕ) → lo ≤ k → k < mid → a ! k ≤ pv
    great : (k : ℕ) → mid ≤ k → k < i → pv < a ! k
    pivot : a ! max ≡ pv

  Parting-small :
      (i mid : ℕ) (a : List ℕ)
      → Parting i mid a
      → i < max
      → a ! i ≤ pv
      → Parting (suc i) (suc mid) (exchange a i mid)
  Parting-small i mid a h lt le =
      let p : i < length a = omega (arith, h.room) in
      let q : mid < length a = omega (arith, h.room, h.to_i) in
      record {
        from_lo = omega (arith, h.from_lo);
        to_i = omega (arith, h.to_i);
        within = omega arith;
        room = omega (arith, h.room, length-exchange a i mid p q);
        small = λ k low high. elim (ℕ_discrete mid k) [
          | yes e ↦
              subst (λ x. exchange a i mid ! x ≤ pv) e (omega (arith, exchange_right a i mid p q))
          | no ne ↦ omega (
            arith,
            exchange_other a i mid p q k (λ e. absurd (omega (arith, h.to_i))) ne,
            h.small k low (omega arith),
          )
        ];
        great = λ k low high. elim (ℕ_discrete i k) [
          | yes e ↦
              subst (λ x. pv < exchange a i mid ! x) e
                (omega (arith, exchange_left a i mid p q, h.great mid (omega arith) (omega arith)))
          | no ne ↦ omega (
            arith,
            exchange_other a i mid p q k ne (λ e. absurd (omega arith)),
            h.great k (omega arith) (omega arith),
          )
        ];
        pivot =
            exchange_other a i mid p q max (λ e. absurd (omega arith))
              (λ e. absurd (omega (arith, h.to_i)))
            ∙ h.pivot;
      }

  Parting-great :
      (i mid : ℕ) (a : List ℕ) → Parting i mid a → i < max → pv < a ! i → Parting (suc i) mid a
  Parting-great i mid a h lt gt = record {
    from_lo = h.from_lo;
    to_i = omega (arith, h.to_i);
    within = omega arith;
    room = h.room;
    small = h.small;
    great = λ k low high. elim (ℕ_discrete i k) [
      | yes e ↦ subst (λ x. pv < a ! x) e gt
      | no ne ↦ h.great k low (omega arith)
    ];
    pivot = h.pivot;
  }

  -- The end of the loop.
  abbrev LoopEnds : List ℕ → List ℕ × ℕ → Type 0
  LoopEnds a r = Parting max r.1 r.0 × Swaps lo max a r.0

  loop-Parting :
      (rounds i mid : ℕ) (a : List ℕ)
      → i + rounds ≡ max
      → Parting i mid a
      → Returns (partition_loop rounds i mid pv a) (LoopEnds a)
  loop-Parting zero i mid a e h =
      unfold partition_loop in (subst (λ x. Parting x mid a) (omega arith) h, none_yet)
  loop-Parting (suc rounds) i mid a e h =
      let p : i < length a = omega (arith, h.room) in
      let q : mid < length a = omega (arith, h.room, h.to_i) in
      elim (Bool-cases (leb (a ! i) pv)) [
        | inl le ↦
            rw
              (loop_small rounds i mid pv a (a ! i) (get_elem?-eq-get_or a i 0 p) le
                (swap-exchange a i mid p q))
              (Returns-imp (partition_loop rounds (suc i) (suc mid) pv (exchange a i mid))
                (λ r g. (
                  g.0,
                  Swaps-trans
                      (then_swap i mid (omega (arith, h.from_lo, h.to_i)) (omega arith) h.from_lo
                        (omega (arith, h.to_i)) none_yet)
                      g.1,
                ))
                (loop-Parting rounds (suc i) (suc mid) (exchange a i mid) (omega arith)
                  (Parting-small i mid a h (omega arith) (leb→le (a ! i) pv le))))
        | inr gt ↦ rw (loop_great rounds i mid pv a (a ! i) (get_elem?-eq-get_or a i 0 p) gt) (
            loop-Parting rounds (suc i) mid a (omega arith)
              (Parting-great i mid a h (omega arith) (ground arith)))
      ]

-- The cells of a range, after `partition`.
pub record Parted (lo stop : ℕ) (a : List ℕ) (r : List ℕ × ℕ) : Type 0 where
  pub swaps : Swaps lo stop a r.0
  pub from_lo : lo ≤ r.1
  pub below_stop : r.1 < stop
  pub left : (k : ℕ) → lo ≤ k → k < r.1 → r.0 ! k ≤ r.0 ! r.1
  pub right : (k : ℕ) → r.1 < k → k < stop → r.0 ! r.1 < r.0 ! k

place-Parted :
    (lo max pv : ℕ) (a : List ℕ) (r : List ℕ × ℕ)
    → Parting lo max pv max r.1 r.0
    → Swaps lo (suc max) a r.0
    → Returns (place_pivot max r) (Parted lo (suc max) a)
unfolding place_pivot
place-Parted lo max pv a (b, mid) h s =
    let q : mid < length b = omega (arith, h.room, h.to_i) in
    rw (swap-exchange b mid max q h.room) (record {
      swaps =
          then_swap mid max h.from_lo (omega (arith, h.to_i)) (omega (arith, h.from_lo, h.to_i))
            (omega arith) s;
      from_lo = h.from_lo;
      below_stop = omega (arith, h.to_i);
      left = λ k low high. omega (
        arith,
        exchange_left b mid max q h.room,
        exchange_other b mid max q h.room k (λ e. absurd (omega arith))
            (λ e. absurd (omega (arith, h.to_i))),
        h.small k low high,
        h.pivot,
      );
      right = λ k low high. elim (ℕ_discrete max k) [
        | yes e ↦
            subst (λ x. exchange b mid max ! mid < exchange b mid max ! x) e
              (omega (
                arith,
                exchange_left b mid max q h.room,
                exchange_right b mid max q h.room,
                h.pivot,
                h.great mid (omega arith) (omega arith),
              ))
        | no ne ↦ omega (
          arith,
          exchange_left b mid max q h.room,
          exchange_other b mid max q h.room k (λ e. absurd (omega arith)) ne,
          h.pivot,
          h.great k (omega arith) (omega arith),
        )
      ];
    })

partition_step :
    (a : List ℕ) (lo stop pv : ℕ)
    → get_elem? a ((stop - 1 + lo) / 2) ≡ some pv
    → swap a ((stop - 1 + lo) / 2) (stop - 1) ≡ done (exchange a ((stop - 1 + lo) / 2) (stop - 1))
    → partition a lo stop ≡ (
        partition_loop (stop - 1 - lo) lo lo pv (exchange a ((stop - 1 + lo) / 2) (stop - 1))
        >>= λ parted. place_pivot (stop - 1) parted)
unfolding partition
partition_step a lo stop pv at e = rw (at, partition) (rw e refl)

-- A range that is not empty.
pub partition-Parted :
    (a : List ℕ) (lo stop : ℕ)
    → lo < stop
    → stop ≤ length a
    → Returns (partition a lo stop) (Parted lo stop a)
partition-Parted a lo stop below room =
    let max = stop - 1 in
    let pivot = (max + lo) / 2 in
    let whole : suc (stop - 1) ≡ stop = omega arith in
    let p : (stop - 1 + lo) / 2 < length a = omega arith in
    let q : stop - 1 < length a = omega arith in
    let pv = a ! ((stop - 1 + lo) / 2) in
    let a1 = exchange a ((stop - 1 + lo) / 2) (stop - 1) in
    let s0 : Swaps lo (suc (stop - 1)) a (exchange a ((stop - 1 + lo) / 2) (stop - 1)) =
      then_swap ((stop - 1 + lo) / 2) (stop - 1) (omega arith) (omega arith) (omega arith)
        (omega arith) none_yet in
    let start : Parting lo (stop - 1) pv lo lo a1 = record {
      from_lo = omega arith;
      to_i = omega arith;
      within = omega arith;
      room = omega (arith, length-exchange a ((stop - 1 + lo) / 2) (stop - 1) p q);
      small = λ k low high. absurd (omega arith);
      great = λ k low high. absurd (omega arith);
      pivot = exchange_right a ((stop - 1 + lo) / 2) (stop - 1) p q;
    } in
    subst (λ x. Returns (partition a lo stop) (Parted lo x a)) whole
      (rw
        (partition_step a lo stop (a ! ((stop - 1 + lo) / 2)) (get_elem?-eq-get_or a _ 0 p)
          (swap-exchange a _ _ p q))
        (Returns-bind (Parted lo (suc (stop - 1)) a) (partition_loop (stop - 1 - lo) lo lo pv a1)
          (place_pivot (stop - 1))
          (loop-Parting lo (stop - 1) pv (stop - 1 - lo) lo lo a1 (omega arith) start)
          (λ r g.
            place-Parted lo (stop - 1) pv a r g.0
              (Swaps-trans s0 (Swaps-wider (omega arith) (omega arith) g.1)))))
