-- ===== src/Quick/Quicksort.antt =====
-- `quicksort`, `forkscan_util_sort` and `forkscan_util_randomize` of forkscan-changed/util.c.
use mathlib.Core.Path.{subst}
use native.Mathlib.Decide.{ℕ_discrete, dec_lt}
use pp_final_project.Prelude.{
  ℕ, zero, suc, ◌+◌, ◌-◌, ◌≤◌, ◌<◌, ◌≡◌, refl, sym, ◌∙◌, true, false, List, length, ltb, ◌>>=◌,
  Returns, Returns-imp, Returns-bind, arith, Bool-cases, inl, inr, ltb→lt, lt_eq_gt,
}
use pp_final_project.Scan.Binary.{◌!◌}
use pp_final_project.Quick.Defs.{partition, insertion_sort, sort_threshold, quicksort, util_sort}
use pp_final_project.Quick.Exchange.{
  count, Swaps-length, Swaps-trans, Swaps-wider, Swaps-outside, Swaps-All, Swaps-count,
}
use pp_final_project.Quick.Partition.{Parted, partition-Parted}
use pp_final_project.Quick.Insertion.{InOrder, Low, Swaps-Low, Sorts, insertion_sort-Sorts}

quicksort_small :
    (fuel lo stop : ℕ) (a : List ℕ)
    → ltb (lo + sort_threshold + 1) stop ≡ false
    → quicksort (suc fuel) a lo stop ≡ insertion_sort a lo stop
unfolding quicksort
quicksort_small fuel lo stop a h = rw (h, quicksort) refl

quicksort_large :
    (fuel lo stop : ℕ) (a : List ℕ)
    → ltb (lo + sort_threshold + 1) stop ≡ true
    → quicksort (suc fuel) a lo stop ≡ (
        partition a lo stop >>= λ r.
        quicksort fuel r.0 lo r.1 >>= λ left. quicksort fuel left (r.1 + 1) stop)
unfolding quicksort
quicksort_large fuel lo stop a h = rw (h, quicksort) refl

-- The two sorted parts and the pivot between them.
module _ (lo stop mid : ℕ) (a b c : List ℕ) (room : stop ≤ length a) (p : Parted lo stop a (b, mid))
    (left : Sorts lo mid b c) where
  length_b : length b ≡ length a
  length_b = Swaps-length p.swaps room

  room_b : mid ≤ length b
  room_b = omega (arith, length_b, p.below_stop)

  room_c : stop ≤ length c
  room_c = omega (arith, length_b, Swaps-length left.1 room_b)

  -- The cells before the right part.
  left-Low : Low b lo stop → Low c (mid + 1) stop
  left-Low low i j q r h =
      let same : c ! j ≡ b ! j = Swaps-outside j left.1 room_b (inr (omega arith)) in
      let great = p.right j (omega arith) h in
      elim (dec_lt i lo) [
        | yes before ↦ omega (
          arith,
          Swaps-outside i left.1 room_b (inl before),
          same,
          low i j before (omega (arith, p.from_lo)) h,
        )
        | no n ↦ elim (ℕ_discrete i mid) [
          | yes e ↦
              subst (λ k. c ! k ≤ c ! j) (sym e)
                (omega (arith, same, great, Swaps-outside mid left.1 room_b (inr (omega arith))))
          | no ne ↦ omega (
            arith,
            same,
            great,
            Swaps-All (λ x. x ≤ b ! mid) left.1 room_b p.left i (omega arith) (omega arith),
          )
        ]
      ]

  module _ (d : List ℕ) (right : Sorts (mid + 1) stop c d) where
    pivot_d : d ! mid ≡ b ! mid
    pivot_d =
        Swaps-outside mid right.1 room_c (inl (omega arith))
        ∙ Swaps-outside mid left.1 room_b (inr (omega arith))

    left_d : (k : ℕ) → k < mid → d ! k ≡ c ! k
    left_d k h = Swaps-outside k right.1 room_c (inl (omega arith))

    left_le : (k : ℕ) → lo ≤ k → k < mid → d ! k ≤ b ! mid
    left_le k l h =
        omega (arith, left_d k h, Swaps-All (λ x. x ≤ b ! mid) left.1 room_b p.left k l h)

    right_ge : (k : ℕ) → mid < k → k < stop → b ! mid < d ! k
    right_ge k l h =
        Swaps-All (λ x. b ! mid < x) right.1 room_c
          (λ j q r.
            omega
              (arith, Swaps-outside j left.1 room_b (inr (omega arith)), p.right j (omega arith) r))
          k (omega arith) h

    joined : InOrder d lo stop
    joined i j l lt h = elim (lt_eq_gt j mid) [
      | inl before ↦ omega (arith, left_d i (omega arith), left_d j before, left.0 i j l lt before)
      | inr (inl same) ↦
          subst (λ k. d ! i ≤ d ! k) (sym same) (omega (arith, pivot_d, left_le i l (omega arith)))
      | inr (inr after) ↦ elim (lt_eq_gt i mid) [
        | inl before ↦ omega (arith, left_le i l before, right_ge j after h)
        | inr (inl same) ↦
            subst (λ k. d ! k ≤ d ! j) (sym same) (omega (arith, pivot_d, right_ge j after h))
        | inr (inr past) ↦ right.0 i j (omega arith) lt h
      ]
    ]

    join-Sorts : Sorts lo stop a d
    join-Sorts = (
      joined,
      Swaps-trans p.swaps (
          Swaps-trans (Swaps-wider (omega arith) (omega (arith, p.below_stop)) left.1)
            (Swaps-wider (omega (arith, p.from_lo)) (omega arith) right.1)),
    )

quicksort-Sorts :
    (fuel lo stop : ℕ) (a : List ℕ)
    → stop - lo < fuel
    → stop ≤ length a
    → Low a lo stop
    → Returns (quicksort fuel a lo stop) (Sorts lo stop a)
quicksort-Sorts zero lo stop a few room low = absurd (omega arith)
quicksort-Sorts (suc fuel) lo stop a few room low =
    elim (Bool-cases (ltb (lo + sort_threshold + 1) stop)) [
      | inr small ↦
          rw (quicksort_small fuel lo stop a small) (insertion_sort-Sorts a lo stop room low)
      | inl large ↦
          let more : lo + sort_threshold + 1 < stop = ltb→lt (lo + sort_threshold + 1) stop large in
          rw (quicksort_large fuel lo stop a large) (
            Returns-bind (Sorts lo stop a) (partition a lo stop)
              (λ r. quicksort fuel r.0 lo r.1 >>= λ left. quicksort fuel left (r.1 + 1) stop)
              (partition-Parted a lo stop (omega arith) room)
              (λ r p.
                let same = Swaps-length p.swaps room in
                let low_b = Swaps-Low p.swaps room low in
                Returns-bind (Sorts lo stop a) (quicksort fuel r.0 lo r.1)
                  (λ left. quicksort fuel left (r.1 + 1) stop)
                  (quicksort-Sorts fuel lo r.1 r.0 (omega (arith, p.below_stop))
                    (omega (arith, same, p.below_stop))
                    (λ i j x y z. low_b i j x y (omega (arith, p.below_stop))))
                  (λ c left.
                    let whole = Swaps-length left.1 (omega (arith, same, p.below_stop)) in
                    Returns-imp (quicksort fuel c (r.1 + 1) stop)
                      (λ d right. join-Sorts lo stop r.1 a r.0 c room p left d right)
                      (quicksort-Sorts fuel (r.1 + 1) stop c (omega (arith, p.from_lo))
                        (omega (arith, same, whole))
                        (left-Low lo stop r.1 a r.0 c room p left low_b)))))
    ]

-- On an array of at least `length` cells `forkscan_util_sort` returns: the first `length` cells are in
-- order, every value occurs in the array as often as before, and the cells from `length` on are the
-- same.
pub util_sort_lem :
    (a : List ℕ) (n : ℕ)
    → n ≤ length a
    → Returns
        (util_sort a n)
        (λ b. InOrder b 0 n × ((v : ℕ) → count v b ≡ count v a) × ((k : ℕ) → n ≤ k → b ! k ≡ a ! k))
unfolding util_sort
util_sort_lem a n room =
    Returns-imp (quicksort (suc n) a 0 n)
      (λ b s. (s.0, λ v. Swaps-count v s.1 room, λ k h. Swaps-outside k s.1 room (inr h)))
      (quicksort-Sorts (suc n) 0 n a (omega arith) room (λ i j p q r. absurd (omega arith)))
