-- ===== src/Quick/Exchange.antt =====
-- The `swap` of forkscan-changed/util.c, and what swaps inside a range of an array keep.
use mathlib.Core.Path.{subst}
use native.Mathlib.Decide.{ℕ_discrete}
use pp_final_project.Prelude.{
  ℕ, zero, suc, ◌+◌, ◌≤◌, ◌<◌, ◌≡◌, ◌≢◌, ◌⊎◌, inl, inr, refl, sym, ap, ◌∙◌, List, [], ◌∷◌, length,
  set, ◌==◌, if◌then◌else◌, done, arith, get_elem?-eq-get_or, get_or-set_self, get_or-set_ne,
  length-set,
}
use pp_final_project.Scan.Binary.{◌!◌}
use pp_final_project.Quick.Defs.{swap}

-- The array after a swap of the cells `i` and `j`.
abbrev pub exchange : List ℕ → ℕ → ℕ → List ℕ
exchange a i j = set (set a i (a ! j)) j (a ! i)

module _ (a : List ℕ) (i j : ℕ) (p : i < length a) (q : j < length a) where
  pub swap-exchange : swap a i j ≡ done (exchange a i j)
  unfolding swap
  swap-exchange = rw (get_elem?-eq-get_or a i 0 p, swap) (rw (get_elem?-eq-get_or a j 0 q) refl)

  pub exchange_right : exchange a i j ! j ≡ a ! i
  exchange_right =
      get_or-set_self (set a i (a ! j)) j (a ! i) 0 (omega (arith, length-set a i (a ! j)))

  pub exchange_left : exchange a i j ! i ≡ a ! j
  exchange_left = elim (ℕ_discrete j i) [
    | yes e ↦ subst (λ k. exchange a i j ! k ≡ a ! j) e (exchange_right ∙ ap (λ k. a ! k) (sym e))
    | no ne ↦ get_or-set_ne (set a i (a ! j)) j i (a ! i) 0 ne ∙ get_or-set_self a i (a ! j) 0 p
  ]

  pub exchange_other : (k : ℕ) → i ≢ k → j ≢ k → exchange a i j ! k ≡ a ! k
  exchange_other k ni nj =
      get_or-set_ne (set a i (a ! j)) j k (a ! i) 0 nj ∙ get_or-set_ne a i k (a ! j) 0 ni

  pub length-exchange : length (exchange a i j) ≡ length a
  length-exchange = length-set (set a i (a ! j)) j (a ! i) ∙ length-set a i (a ! j)

-- How many cells hold `v`.
abbrev pub count : ℕ → List ℕ → ℕ
count v [] = 0
count v (x ∷ xs) = (if x == v then 1 else 0) + count v xs

abbrev one_if : ℕ → ℕ → ℕ
one_if x v = if x == v then 1 else 0

count-set :
    (v : ℕ) (a : List ℕ) (i x : ℕ)
    → i < length a
    → count v (set a i x) + one_if (a ! i) v ≡ count v a + one_if x v
count-set v [] i x h = absurd (omega arith)
count-set v (y ∷ a) zero x h = omega arith
count-set v (y ∷ a) (suc i) x h = omega (arith, count-set v a i x (omega arith))

count-exchange :
    (v : ℕ) (a : List ℕ) (i j : ℕ)
    → i < length a
    → j < length a
    → count v (exchange a i j) ≡ count v a
count-exchange v a i j p q =
    let first = count-set v a i (a ! j) p in
    let second = count-set v (set a i (a ! j)) j (a ! i) (omega (arith, length-set a i (a ! j))) in
    elim (ℕ_discrete i j) [
      | yes e ↦
          let here : set a i (a ! j) ! j ≡ a ! j =
            subst (λ k. set a i (a ! j) ! k ≡ a ! j) e (get_or-set_self a i (a ! j) 0 p) in
          let same : a ! i ≡ a ! j = ap (λ k. a ! k) e in
          omega (
            arith,
            first,
            subst
                (λ x.
                  count v (exchange a i j) + one_if x v
                  ≡ count v (set a i (a ! j)) + one_if (a ! i) v)
                here second,
          )
      | no ne ↦
          let here : set a i (a ! j) ! j ≡ a ! j = get_or-set_ne a i j (a ! j) 0 ne in
          omega (
            arith,
            first,
            subst
                (λ x.
                  count v (exchange a i j) + one_if x v
                  ≡ count v (set a i (a ! j)) + one_if (a ! i) v)
                here second,
          )
    ]

-- `b` comes from `a` by swaps of cells from `lo` up to `stop`.
pub data Swaps (lo stop : ℕ) (a : List ℕ) : List ℕ → Type 0 where
  none_yet : Swaps lo stop a a
  then_swap :
      {b : List ℕ} (i j : ℕ)
      → lo ≤ i
      → i < stop
      → lo ≤ j
      → j < stop
      → Swaps lo stop a b
      → Swaps lo stop a (exchange b i j)

pub Swaps-length :
    {lo stop : ℕ} {a b : List ℕ} → Swaps lo stop a b → stop ≤ length a → length b ≡ length a
Swaps-length none_yet h = refl
Swaps-length {lo} {stop} {a} (then_swap {b} i j p q r t s) h =
    let e = Swaps-length s h in length-exchange b i j (omega (arith, e)) (omega (arith, e)) ∙ e

pub Swaps-count :
    {lo stop : ℕ} {a b : List ℕ} (v : ℕ)
    → Swaps lo stop a b
    → stop ≤ length a
    → count v b ≡ count v a
Swaps-count v none_yet h = refl
Swaps-count {lo} {stop} {a} v (then_swap {b} i j p q r t s) h =
    let e = Swaps-length s h in
    count-exchange v b i j (omega (arith, e)) (omega (arith, e)) ∙ Swaps-count v s h

-- The cells outside the range stay.
pub Swaps-outside :
    {lo stop : ℕ} {a b : List ℕ} (k : ℕ)
    → Swaps lo stop a b
    → stop ≤ length a
    → (k < lo) ⊎ (stop ≤ k)
    → b ! k ≡ a ! k
Swaps-outside k none_yet h out = refl
Swaps-outside {lo} {stop} {a} k (then_swap {b} i j p q r t s) h out =
    let e = Swaps-length s h in
    exchange_other b i j (omega (arith, e)) (omega (arith, e)) k (apart i p q out) (apart j r t out)
    ∙ Swaps-outside k s h out
  where
    apart : (x : ℕ) → lo ≤ x → x < stop → (k < lo) ⊎ (stop ≤ k) → x ≢ k
    apart x p q (inl h) e = omega arith
    apart x p q (inr h) e = omega arith

-- What holds of each value in the range holds of each value after the swaps.
pub Swaps-All :
    {lo stop : ℕ} {a b : List ℕ} (P : ℕ → Type 0)
    → Swaps lo stop a b
    → stop ≤ length a
    → ((k : ℕ) → lo ≤ k → k < stop → P (a ! k))
    → (k : ℕ) → lo ≤ k
    → k < stop
    → P (b ! k)
Swaps-All P none_yet h all k low high = all k low high
Swaps-All {lo} {stop} {a} P (then_swap {b} i j p q r t s) h all k low high =
    let e = Swaps-length s h in
    let before = Swaps-All P s h all in
    let ib : i < length b = omega (arith, e) in
    let jb : j < length b = omega (arith, e) in
    elim (ℕ_discrete j k) [
      | yes same ↦
          subst (λ x. P (exchange b i j ! x)) same
            (subst P (sym (exchange_right b i j ib jb)) (before i p q))
      | no nj ↦ elim (ℕ_discrete i k) [
        | yes same ↦
            subst (λ x. P (exchange b i j ! x)) same
              (subst P (sym (exchange_left b i j ib jb)) (before j r t))
        | no ni ↦ subst P (sym (exchange_other b i j ib jb k ni nj)) (before k low high)
      ]
    ]

pub Swaps-trans :
    {lo stop : ℕ} {a b : List ℕ} {c : List ℕ}
    → Swaps lo stop a b
    → Swaps lo stop b c
    → Swaps lo stop a c
Swaps-trans s none_yet = s
Swaps-trans s (then_swap i j p q r t u) = then_swap i j p q r t (Swaps-trans s u)

-- Swaps in a part of the range.
pub Swaps-wider :
    {lo stop lo' stop' : ℕ} {a b : List ℕ}
    → lo' ≤ lo
    → stop ≤ stop'
    → Swaps lo stop a b
    → Swaps lo' stop' a b
Swaps-wider f g none_yet = none_yet
Swaps-wider f g (then_swap i j p q r t s) =
    then_swap i j (omega arith) (omega arith) (omega arith) (omega arith) (Swaps-wider f g s)
