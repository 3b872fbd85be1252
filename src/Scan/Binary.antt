-- ===== src/Scan/Binary.antt =====
-- `iterative_search` and `binary_search` of forkscan-changed/child.c on a sorted part of an array.
use native.Mathlib.Decide.{dec_lt}
use pp_final_project.Prelude.{
  ℕ, zero, suc, ◌+◌, ◌-◌, ◌/◌, ◌≤◌, ◌<◌, ◌≡◌, List, refl, length, get_elem?, get_or, done, Returns,
  Returns-imp, arith, get_elem?-eq-get_or, some, inl, inr, lt_eq_gt,
}
use pp_final_project.Scan.Defs.{iterative_loop, iterative_search, binary_loop, binary_search}

-- A read that the statements use inside the array only.
infixl 90 ◌!◌
abbrev pub ◌!◌ : List ℕ → ℕ → ℕ
a ! i = get_or a i 0

-- The cells from `lo` up to `hi` are strictly increasing.
abbrev pub IsSorted : List ℕ → ℕ → ℕ → Type 0
IsSorted a lo hi = (i j : ℕ) → lo ≤ i → i < j → j < hi → a ! i < a ! j

-- `r` is the last index of the range whose value does not exceed `val`, or the first index where
-- there is none.
pub record Floor (val : ℕ) (a : List ℕ) (lo hi r : ℕ) : Type 0 where
  pub from_lo : lo ≤ r
  pub below_hi : r < hi
  pub at_most : a ! lo ≤ val → a ! r ≤ val
  pub next_above : (j : ℕ) → r < j → j < hi → val < a ! j
  pub first : val < a ! lo → r ≡ lo

module _ (val : ℕ) (a : List ℕ) where
  iterative_loop-hit :
      (rounds i v : ℕ)
      → get_elem? a i ≡ some v
      → v ≡ val
      → iterative_loop (suc rounds) val a i ≡ done i
  unfolding iterative_loop
  iterative_loop-hit rounds i v e h = ground arith

  iterative_loop-past :
      (rounds i v : ℕ)
      → get_elem? a i ≡ some v
      → val < v
      → iterative_loop (suc rounds) val a i ≡ done (i - 1)
  unfolding iterative_loop
  iterative_loop-past rounds i v e h = ground arith

  iterative_loop-next :
      (rounds i v : ℕ)
      → get_elem? a i ≡ some v
      → v < val
      → iterative_loop (suc rounds) val a i ≡ iterative_loop rounds val a (suc i)
  unfolding iterative_loop
  iterative_loop-next rounds i v e h = ground arith

  iterative_search-first :
      (min max v : ℕ)
      → get_elem? a min ≡ some v
      → val < v
      → iterative_search val a min max ≡ done min
  unfolding iterative_search
  iterative_search-first min max v e h = ground arith

  iterative_search-loop :
      (min max v : ℕ)
      → get_elem? a min ≡ some v
      → v ≤ val
      → min < max
      → iterative_search val a min max ≡ iterative_loop (max - min) val a min
  unfolding iterative_search
  iterative_search-loop min max v e h lt = ground arith

  binary_loop-short :
      (fuel min max : ℕ)
      → max - min < 32
      → binary_loop (suc fuel) val a min max ≡ iterative_search val a min max
  unfolding binary_loop
  binary_loop-short fuel min max h = ground arith

  binary_loop-hit :
      (fuel min max v : ℕ)
      → 32 ≤ max - min
      → get_elem? a ((max + min) / 2) ≡ some v
      → v ≡ val
      → binary_loop (suc fuel) val a min max ≡ done ((max + min) / 2)
  unfolding binary_loop
  binary_loop-hit fuel min max v h e f = ground arith

  binary_loop-lower :
      (fuel min max v : ℕ)
      → 32 ≤ max - min
      → get_elem? a ((max + min) / 2) ≡ some v
      → val < v
      → binary_loop (suc fuel) val a min max ≡ binary_loop fuel val a min ((max + min) / 2)
  unfolding binary_loop
  binary_loop-lower fuel min max v h e f = ground arith

  binary_loop-upper :
      (fuel min max v : ℕ)
      → 32 ≤ max - min
      → get_elem? a ((max + min) / 2) ≡ some v
      → v < val
      → binary_loop (suc fuel) val a min max ≡ binary_loop fuel val a ((max + min) / 2) max
  unfolding binary_loop
  binary_loop-upper fuel min max v h e f = ground arith

module _ (val : ℕ) (a : List ℕ) (lo hi : ℕ) (sorted : IsSorted a lo hi) (room : hi ≤ length a) where
  first_le : (m i : ℕ) → lo ≤ m → m ≤ i → i < hi → a ! m ≤ a ! i
  first_le m i p le q = elim (lt_eq_gt m i) [
    | inl lt ↦ omega (arith, sorted m i p lt q)
    | inr (inl same) ↦ rw same (omega arith)
    | inr (inr gt) ↦ absurd (omega arith)
  ]

  -- An index that holds a value up to `val`, with none behind it below `max` that does.
  Floor-at :
      (min max r : ℕ)
      → lo ≤ min
      → max ≤ hi
      → min ≤ r
      → r < max
      → a ! r ≤ val
      → (suc r < max → val < a ! suc r)
      → Floor val a min max r
  Floor-at min max r p q from below at next = record {
    from_lo = from;
    below_hi = below;
    at_most = λ _. at;
    next_above = λ j s t. elim (lt_eq_gt (suc r) j) [
      | inl lt ↦ omega (arith, next (omega arith), sorted (suc r) j (omega arith) lt (omega arith))
      | inr (inl e) ↦ rw (← e) (next (omega arith))
      | inr (inr gt) ↦ absurd (omega arith)
    ];
    first = λ above. absurd (omega (arith, first_le min r p from (omega arith)));
  }

  iterative_loop-Floor :
      (rounds min max i : ℕ)
      → lo ≤ min
      → max ≤ hi
      → i + rounds ≡ max
      → min < i
      → a ! (i - 1) ≤ val
      → Returns (iterative_loop rounds val a i) (Floor val a min max)
  iterative_loop-Floor zero min max i p q e lt below =
      unfold iterative_loop in
      Floor-at min max (i - 1) p q (omega arith) (omega arith) below (λ s. absurd (omega arith))
  iterative_loop-Floor (suc rounds) min max i p q e lt below =
      let at : get_elem? a i ≡ some (a ! i) = get_elem?-eq-get_or a i 0 (omega arith) in
      elim (lt_eq_gt (a ! i) val) [
        | inl less ↦
            let back : suc i - 1 ≡ i = omega arith in
            rw (iterative_loop-next val a rounds i (a ! i) at less) (
              iterative_loop-Floor rounds min max (suc i) p q (omega arith) (omega arith)
                (rw back (omega arith)))
        | inr (inl same) ↦ rw (iterative_loop-hit val a rounds i (a ! i) at same) (
            Floor-at min max i p q (omega arith) (omega arith) (omega arith)
              (λ s. omega (arith, sorted i (suc i) (omega arith) (omega arith) (omega arith))))
        | inr (inr greater) ↦
            let ahead : suc (i - 1) ≡ i = omega arith in
            rw (iterative_loop-past val a rounds i (a ! i) at greater) (
              Floor-at min max (i - 1) p q (omega arith) (omega arith) below
                (λ _. rw ahead greater))
      ]

  iterative_search-Floor :
      (min max : ℕ)
      → lo ≤ min
      → min < max
      → max ≤ hi
      → Returns (iterative_search val a min max) (Floor val a min max)
  iterative_search-Floor min max p lt q =
      let at : get_elem? a min ≡ some (a ! min) = get_elem?-eq-get_or a min 0 (omega arith) in
      let rounds : max - min ≡ suc (max - min - 1) = omega arith in
      elim (lt_eq_gt (a ! min) val) [
        | inl less ↦
            let back : suc min - 1 ≡ min = omega arith in
            rw (iterative_search-loop val a min max (a ! min) at (omega arith) lt, rounds)
              (rw (iterative_loop-next val a (max - min - 1) min (a ! min) at less) (
                iterative_loop-Floor (max - min - 1) min max (suc min) p q (omega arith)
                  (omega arith) (rw back (omega arith))))
        | inr (inl same) ↦
            rw (iterative_search-loop val a min max (a ! min) at (omega arith) lt, rounds)
              (rw (iterative_loop-hit val a (max - min - 1) min (a ! min) at same) (
                Floor-at min max min p q (omega arith) lt (omega arith)
                  (λ s. omega (arith, sorted min (suc min) p (omega arith) (omega arith)))))
        | inr (inr greater) ↦
            rw (iterative_search-first val a min max (a ! min) at greater) (record {
              from_lo = omega arith;
              below_hi = lt;
              at_most = λ s. s;
              next_above = λ j s t. omega (arith, sorted min j p s (omega arith));
              first = λ above. refl;
            })
      ]

  -- A floor of the lower part, where the values from `mid` on exceed `val`.
  Floor-lower :
      (min mid max r : ℕ)
      → lo ≤ min
      → mid < max
      → max ≤ hi
      → val < a ! mid
      → Floor val a min mid r
      → Floor val a min max r
  Floor-lower min mid max r p q t above f = record {
    from_lo = f.from_lo;
    below_hi = omega (arith, f.below_hi);
    at_most = f.at_most;
    first = f.first;
    next_above = λ j u v. elim (lt_eq_gt j mid) [
      | inl lt ↦ f.next_above j u lt
      | inr (inl e) ↦ rw e above
      | inr (inr gt) ↦
          omega (arith, sorted mid j (omega (arith, f.from_lo, f.below_hi)) gt (omega arith))
    ];
  }

  -- A floor of the upper part, which begins with a value below `val`.
  Floor-upper :
      (min mid max r : ℕ)
      → lo ≤ min
      → min ≤ mid
      → mid < hi
      → a ! mid < val
      → Floor val a mid max r
      → Floor val a min max r
  Floor-upper min mid max r from p last below f = record {
    from_lo = omega (arith, f.from_lo);
    below_hi = f.below_hi;
    at_most = λ _. f.at_most (omega arith);
    next_above = f.next_above;
    first = λ above. absurd (omega (arith, first_le min mid from p last));
  }

  binary_loop-Floor :
      (fuel min max : ℕ)
      → max - min < fuel
      → lo ≤ min
      → min < max
      → max ≤ hi
      → Returns (binary_loop fuel val a min max) (Floor val a min max)
  binary_loop-Floor zero min max enough p lt q = absurd (omega arith)
  binary_loop-Floor (suc fuel) min max enough p lt q = elim (dec_lt (max - min) 32) [
    | yes short ↦
        rw (binary_loop-short val a fuel min max short) (iterative_search-Floor min max p lt q)
    | no long ↦
        let at : get_elem? a ((max + min) / 2) ≡ some (a ! ((max + min) / 2)) =
          get_elem?-eq-get_or a ((max + min) / 2) 0 (omega arith) in
        elim (lt_eq_gt (a ! ((max + min) / 2)) val) [
          | inl less ↦ rw (binary_loop-upper val a fuel min max _ (omega arith) at less) (
              Returns-imp (binary_loop fuel val a ((max + min) / 2) max)
                (λ r f.
                  Floor-upper min ((max + min) / 2) max r p (omega arith) (omega arith) less f)
                (binary_loop-Floor fuel ((max + min) / 2) max (omega arith) (omega arith)
                  (omega arith) q))
          | inr (inl same) ↦ rw (binary_loop-hit val a fuel min max _ (omega arith) at same) (
              Floor-at min max ((max + min) / 2) p q (omega arith) (omega arith) (omega arith) (λ s.
                omega (
                  arith,
                  sorted ((max + min) / 2) (suc ((max + min) / 2)) (omega arith) (omega arith)
                      (omega arith),
                )))
          | inr (inr greater) ↦
              rw (binary_loop-lower val a fuel min max _ (omega arith) at greater) (
                Returns-imp (binary_loop fuel val a min ((max + min) / 2))
                  (λ r f. Floor-lower min ((max + min) / 2) max r p (omega arith) q greater f)
                  (binary_loop-Floor fuel min ((max + min) / 2) (omega arith) p (omega arith)
                    (omega arith)))
        ]
  ]

  -- On a non-empty, strictly increasing range inside the array `binary_search` returns the index of
  -- the range that holds the greatest value up to `val`, or the first index if all exceed it.
  pub binary_search-Floor : lo < hi → Returns (binary_search val a lo hi) (Floor val a lo hi)
  unfolding binary_search
  binary_search-Floor lt =
      binary_loop-Floor (suc (hi - lo)) lo hi (omega arith) (omega arith) lt (omega arith)

  -- A value of the range is the value at its floor, and stands nowhere else.
  pub Floor-index : (i r : ℕ) → lo ≤ i → i < hi → a ! i ≡ val → Floor val a lo hi r → r ≡ i
  Floor-index i r p q e f = elim (lt_eq_gt r i) [
    | inl lt ↦ absurd (omega (arith, f.next_above i lt q))
    | inr (inl same) ↦ same
    | inr (inr gt) ↦ absurd (
        omega (
          arith,
          f.at_most (omega (arith, first_le lo i (omega arith) p q)),
          sorted i r p gt f.below_hi,
        ))
  ]
