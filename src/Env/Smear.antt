-- ===== src/Env/Smear.antt =====
-- The bit trick of forkscan-changed/env.c: each round doubles the number of ones at the top.
use mathlib.Core.Path.{subst}
use native.Mathlib.Nat.{
  div-le_self, two-pow-succ, mul-le-mul_right, mul_comm, pow-le-pow_right, one-le-pow,
  div-lt_iff_lt-mul, le-div_iff_mul-le, pow-suc,
}
use native.Mathlib.Decide.{dec_lt}
use pp_final_project.Prelude.{
  ℕ, zero, suc, ◌+◌, ◌-◌, ◌*◌, ◌/◌, ◌^◌, ◌≤◌, ◌<◌, ◌≡◌, ap, ◌∙◌, bit_or, arith,
}
use pp_final_project.Env.Or.{bit_or-lt, bit_or-ge, bit_or-above}

-- Of `a` digits, the first `t` are ones, or all if there are fewer.
abbrev pub Ones : ℕ → ℕ → ℕ → Type 0
Ones a t v = (v < 2 ^ a) × (2 ^ a ≤ v + 2 ^ (a - t))

-- `t` digits of `v`, the first of `T * P`, are ones, and the next come from `v / T`.
top_ones :
    (v T P R : ℕ) → 0 < T → 0 < P → P ≤ R * T → T * P ≤ v + P → (T - 1 ≤ v / P) × (P ≤ v / T + R)
top_ones v T P R ht hp le h = (
  (le-div_iff_mul-le hp).1 (grind arith),
  elim (dec_lt R P) [
    | no big ↦ omega arith
    | yes small ↦
        let cut : (P - R) * T + R * T ≡ P * T = factor (P - R) R T P (omega arith) in
        let q : P - R ≤ v / T = (le-div_iff_mul-le ht).1 (grind arith) in omega arith
  ],
)
  where
    factor : (x y t z : ℕ) → x + y ≡ z → x * t + y * t ≡ z * t
    factor x y t z e = rw (← e) (grind arith)

pub pow_add : (t p : ℕ) → 2 ^ (t + p) ≡ 2 ^ t * 2 ^ p
pow_add zero p = let e : 0 + p ≡ p = omega arith in rw e (omega arith)
pow_add (suc t) p =
    let e : suc t + p ≡ suc (t + p) = omega arith in
    rw (e, pow-suc 2 (t + p), pow-suc 2 t, pow_add t p) (grind arith)

-- The room for the ones that are to come.
ones_room : (p t : ℕ) → 2 ^ p ≤ 2 ^ (p - t) * 2 ^ t
ones_room p t =
    subst (λ x. 2 ^ p ≤ x) (pow_add (p - t) t) (pow-le-pow_right (omega arith) (omega arith))

-- The digits of the result: the ones of `v`, and below them those of `w`.
assemble :
    (A T P R q w o : ℕ) → A ≡ T * P → 0 < T → T - 1 ≤ q → P ≤ w + R → q * P + w ≤ o → A ≤ o + R
assemble A T P R q w o e pos ones next le =
    let part : (T - 1) * P + P ≡ T * P = less T P pos in
    let up : (T - 1) * P ≤ q * P = mul-le-mul_right P ones in omega arith
  where
    less : (t p : ℕ) → 0 < t → (t - 1) * p + p ≡ t * p
    less zero p h = absurd (omega arith)
    less (suc t) p h = let e : suc t - 1 ≡ t = omega arith in rw e (grind arith)

-- A round of the bit trick.
pub Ones-double : (a t v : ℕ) → Ones a t v → Ones a (t + t) (bit_or v (v / 2 ^ t))
Ones-double a t v (lt, ge) = elim (dec_lt t a) [
  | no all ↦
      let e : a - t ≡ 0 = omega arith in
      let e' : a - (t + t) ≡ 0 = omega arith in
      (
        small,
        rw e' (omega (arith, subst (λ x. 2 ^ a ≤ v + 2 ^ x) e ge, bit_or-above v (v / 2 ^ t))),
      )
  | yes more ↦ (
    small,
    subst (λ x. 2 ^ a ≤ bit_or v (v / 2 ^ t) + 2 ^ x) (omega arith) (most (a - t) (omega arith) ge),
  )
]
  where
    small : bit_or v (v / 2 ^ t) < 2 ^ a
    small = bit_or-lt a v (v / 2 ^ t) lt (omega (arith, div-le_self v (2 ^ t)))

    most : (p : ℕ) → a ≡ t + p → 2 ^ a ≤ v + 2 ^ p → 2 ^ a ≤ bit_or v (v / 2 ^ t) + 2 ^ (p - t)
    most p e h =
        let one : 1 ≤ 2 = omega arith in
        let pt : 0 < 2 ^ t = one-le-pow t 2 (omega arith) in
        let pp : 0 < 2 ^ p = one-le-pow p 2 (omega arith) in
        let whole : 2 ^ a ≡ 2 ^ t * 2 ^ p = ap (λ x. 2 ^ x) e ∙ pow_add t p in
        let tops : (2 ^ t - 1 ≤ v / 2 ^ p) × (2 ^ p ≤ v / 2 ^ t + 2 ^ (p - t)) =
          top_ones v (2 ^ t) (2 ^ p) (2 ^ (p - t)) pt pp (ones_room p t)
            (subst (λ x. x ≤ v + 2 ^ p) whole h) in
        let within : v < 2 ^ p * 2 ^ t = subst (λ x. v < x) (whole ∙ mul_comm (2 ^ t) (2 ^ p)) lt in
        let under : v / 2 ^ t < 2 ^ p = (div-lt_iff_lt-mul pt).1 within in
        assemble (2 ^ a) (2 ^ t) (2 ^ p) (2 ^ (p - t)) (v / 2 ^ p) (v / 2 ^ t)
          (bit_or v (v / 2 ^ t)) whole pt tops.0 tops.1 (bit_or-ge p v (v / 2 ^ t) under)

-- A number that is not 0 has a first digit.
pub first_one : (n v : ℕ) → 0 < v → v < 2 ^ n → (a : ℕ) × (a ≤ n) × (0 < a) × Ones a 1 v
first_one zero v p q = absurd (omega arith)
first_one (suc n) v p q = elim (dec_lt v (2 ^ n)) [
  | yes lt ↦ let (a, le, some, o) = first_one n v p lt in (a, omega arith, some, o)
  | no ge ↦
      let e : suc n - 1 ≡ n = omega arith in
      (suc n, omega arith, omega arith, (q, rw e (omega (arith, two-pow-succ n))))
]
