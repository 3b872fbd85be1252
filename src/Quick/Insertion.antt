-- ===== src/Quick/Insertion.antt =====
-- `insertion_sort` of forkscan-changed/util.c. Its inner loop stops at the start of the array only; no
-- cell before the range may be above a cell of it, or the loop would carry cells out of the range.
use mathlib.Core.Path.{subst}
use native.Mathlib.Decide.{ℕ_discrete, dec_lt}
use pp_final_project.Prelude.{
  ℕ, zero, suc, ◌+◌, ◌-◌, ◌≤◌, ◌<◌, ◌≡◌, ◌≢◌, refl, sym, true, false, List, length, get_elem?, ltb,
  done, Returns, Returns-imp, Returns-bind, arith, get_elem?-eq-get_or, some, Bool-cases, inl, inr,
  ltb→lt,
}
use pp_final_project.Scan.Binary.{◌!◌}
use pp_final_project.Quick.Defs.{swap, insert_cell, insert_down, insertion_loop, insertion_sort}
use pp_final_project.Quick.Exchange.{
  exchange, swap-exchange, exchange_left, exchange_right, exchange_other, length-exchange, Swaps,
  none_yet, then_swap, Swaps-length, Swaps-trans, Swaps-wider, Swaps-outside, Swaps-All,
}

-- The cells from `lo` up to `stop` are in order.
abbrev pub InOrder : List ℕ → ℕ → ℕ → Type 0
InOrder a lo stop = (i j : ℕ) → lo ≤ i → i < j → j < stop → a ! i ≤ a ! j

-- No cell before `lo` is above a cell of the range.
abbrev pub Low : List ℕ → ℕ → ℕ → Type 0
Low a lo stop = (i j : ℕ) → i < lo → lo ≤ j → j < stop → a ! i ≤ a ! j

pub Swaps-Low :
    {lo stop : ℕ} {a b : List ℕ}
    → Swaps lo stop a b
    → stop ≤ length a
    → Low a lo stop
    → Low b lo stop
Swaps-Low {lo} {stop} {a} {b} s room low i j p q r =
    subst (λ x. x ≤ b ! j) (sym (Swaps-outside i s room (inl p)))
      (Swaps-All (λ x. a ! i ≤ x) s room (λ k l h. low i k p l h) j q r)

module _ (j : ℕ) (a : List ℕ) (before here : ℕ) (at : get_elem? a j ≡ some before)
    (at' : get_elem? a (suc j) ≡ some here) where
  down_swap :
      ltb here before ≡ true
      → swap a (suc j) j ≡ done (exchange a (suc j) j)
      → insert_down (suc j) a ≡ insert_down j (exchange a (suc j) j)
  unfolding insert_down insert_cell
  down_swap h e = rw (at, insert_down) (rw at' (rw (h, insert_cell) (rw e refl)))

  down_stop : ltb here before ≡ false → insert_down (suc j) a ≡ done a
  unfolding insert_down insert_cell
  down_stop h = rw (at, insert_down) (rw at' (rw (h, insert_cell) refl))

module _ (lo last : ℕ) where
  -- The cells up to `last` are in order, but for the cell `j`, which is on its way down.
  abbrev Sinking : ℕ → List ℕ → Type 0
  Sinking j a = (p q : ℕ) → lo ≤ p → p < q → q ≤ last → q ≢ j → a ! p ≤ a ! q

  sink :
      (j : ℕ) (a : List ℕ)
      → last < length a
      → lo ≤ j
      → suc j ≤ last
      → a ! suc j < a ! j
      → Sinking (suc j) a
      → Sinking j (exchange a (suc j) j)
  sink j a room from to less h p q low lt high ne =
      let x : suc j < length a = omega arith in
      let y : j < length a = omega arith in
      let up : exchange a (suc j) j ! suc j ≡ a ! j = exchange_left a (suc j) j x y in
      let down : exchange a (suc j) j ! j ≡ a ! suc j = exchange_right a (suc j) j x y in
      let other : ((k : ℕ) → suc j ≢ k → j ≢ k → exchange a (suc j) j ! k ≡ a ! k) =
        exchange_other a (suc j) j x y in
      elim (ℕ_discrete (suc j) q) [
        | yes e ↦
            subst (λ k. exchange a (suc j) j ! p ≤ exchange a (suc j) j ! k) e
              (elim (ℕ_discrete j p) [
                | yes f ↦
                    subst (λ k. exchange a (suc j) j ! k ≤ exchange a (suc j) j ! suc j) f
                      (omega arith)
                | no nf ↦ omega (
                  arith,
                  up,
                  other p (λ g. absurd (omega arith)) nf,
                  h p j low (omega arith) (omega arith) (λ g. absurd (omega arith)),
                )
              ])
        | no nq ↦
            let same : exchange a (suc j) j ! q ≡ a ! q = other q nq (λ g. ne (sym g)) in
            elim (ℕ_discrete j p) [
              | yes f ↦
                  subst (λ k. exchange a (suc j) j ! k ≤ exchange a (suc j) j ! q) f
                    (omega (
                      arith,
                      down,
                      same,
                      h (suc j) q (omega arith) (omega arith) high (λ g. nq (sym g)),
                    ))
              | no nf ↦ elim (ℕ_discrete (suc j) p) [
                | yes f ↦
                    subst (λ k. exchange a (suc j) j ! k ≤ exchange a (suc j) j ! q) f
                      (omega (arith, up, same, h j q from (omega arith) high (λ g. nq (sym g))))
                | no nf' ↦ omega (arith, other p nf' nf, same, h p q low lt high (λ g. nq (sym g)))
              ]
            ]
      ]

  -- The cell has come to its place.
  sunk :
      (j : ℕ) (a : List ℕ)
      → suc j ≤ last
      → a ! j ≤ a ! suc j
      → Sinking (suc j) a
      → InOrder a lo (suc last)
  sunk j a to le h p q low lt high = elim (ℕ_discrete q (suc j)) [
    | no ne ↦ h p q low lt (omega arith) ne
    | yes e ↦
        subst (λ k. a ! p ≤ a ! k) (sym e)
          (elim (ℕ_discrete p j) [
            | yes f ↦ subst (λ k. a ! k ≤ a ! suc j) (sym f) le
            | no nf ↦
                omega (arith, h p j low (omega arith) (omega arith) (λ g. absurd (omega arith)))
          ])
  ]

  -- The range is in order up to `last`.
  abbrev Inserted : List ℕ → List ℕ → Type 0
  Inserted a b = InOrder b lo (suc last) × Swaps lo (suc last) a b

  insert_down-Inserted :
      (j : ℕ) (a : List ℕ)
      → last < length a
      → lo ≤ j
      → j ≤ last
      → Low a lo (suc last)
      → Sinking j a
      → Returns (insert_down j a) (Inserted a)
  insert_down-Inserted zero a room from to low h =
      unfold insert_down in
      (λ p q l lt high. h p q l lt (omega arith) (λ e. absurd (omega arith)), none_yet)
  insert_down-Inserted (suc j) a room from to low h =
      let x : suc j < length a = omega arith in
      let y : j < length a = omega arith in
      elim (Bool-cases (ltb (a ! suc j) (a ! j))) [
        | inr stop ↦
            rw
              (down_stop j a (a ! j) (a ! suc j) (get_elem?-eq-get_or a j 0 y)
                (get_elem?-eq-get_or a (suc j) 0 x) stop)
              (sunk j a to (ground arith) h, none_yet)
        | inl swapped ↦
            let less : a ! suc j < a ! j = ltb→lt (a ! suc j) (a ! j) swapped in
            let inside : lo ≤ j = elim (dec_lt j lo) [
              | no n ↦ omega arith
              | yes below ↦ absurd (omega (arith, low j (suc j) below from (omega arith)))
            ] in
            let s : Swaps lo (suc last) a (exchange a (suc j) j) =
              then_swap (suc j) j from (omega arith) inside (omega arith) none_yet in
            rw
              (down_swap j a (a ! j) (a ! suc j) (get_elem?-eq-get_or a j 0 y)
                (get_elem?-eq-get_or a (suc j) 0 x) swapped (swap-exchange a (suc j) j x y))
              (Returns-imp (insert_down j (exchange a (suc j) j)) (λ b g. (g.0, Swaps-trans s g.1))
                (insert_down-Inserted j (exchange a (suc j) j)
                  (omega (arith, length-exchange a (suc j) j x y)) inside (omega arith)
                  (Swaps-Low s (omega arith) low) (sink j a room inside to less h)))
      ]

-- What a sort of a range leaves.
abbrev pub Sorts : ℕ → ℕ → List ℕ → List ℕ → Type 0
Sorts lo stop a b = InOrder b lo stop × Swaps lo stop a b

insertion_loop-Sorts :
    (lo stop rounds i : ℕ) (a : List ℕ)
    → i + rounds ≡ stop
    → stop ≤ length a
    → lo < i
    → Low a lo stop
    → InOrder a lo i
    → Returns (insertion_loop rounds i a) (Sorts lo stop a)
unfolding insertion_loop
insertion_loop-Sorts lo stop zero i a e room from low h =
    (λ p q l lt high. h p q l lt (omega arith), none_yet)
insertion_loop-Sorts lo stop (suc rounds) i a e room from low h =
    Returns-bind (Sorts lo stop a) (insert_down i a) (λ b. insertion_loop rounds (suc i) b)
      (insert_down-Inserted lo i i a (omega arith) (omega arith) (omega arith)
        (λ p q x y z. low p q x y (omega arith)) (λ p q l lt high ne. h p q l lt (omega arith)))
      (λ b g.
        let s : Swaps lo stop a b = Swaps-wider (omega arith) (omega arith) g.1 in
        Returns-imp (insertion_loop rounds (suc i) b) (λ c k. (k.0, Swaps-trans s k.1))
          (insertion_loop-Sorts lo stop rounds (suc i) b (omega arith)
            (omega (arith, Swaps-length s room)) (omega arith) (Swaps-Low s room low) g.0))

-- A range with no cell before it above a cell of it.
pub insertion_sort-Sorts :
    (a : List ℕ) (lo stop : ℕ)
    → stop ≤ length a
    → Low a lo stop
    → Returns (insertion_sort a lo stop) (Sorts lo stop a)
unfolding insertion_sort insertion_loop
insertion_sort-Sorts a lo stop room low = elim (dec_lt lo stop) [
  | yes more ↦
      insertion_loop-Sorts lo stop (stop - suc lo) (suc lo) a (omega arith) room (omega arith) low
        (λ p q l lt high. absurd (omega arith))
  | no empty ↦
      let rounds : stop - suc lo ≡ 0 = omega arith in rw rounds (nothing (suc lo) (omega arith))
]
  where
    nothing : (i : ℕ) → stop ≤ lo → Returns (insertion_loop 0 i a) (Sorts lo stop a)
    nothing i short = (λ p q l lt high. absurd (omega arith), none_yet)
