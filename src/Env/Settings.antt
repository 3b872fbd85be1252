-- ===== src/Env/Settings.antt =====
-- What forkscan-changed/env.c makes of the setting of the queue's capacity.
use native.Mathlib.Decide.{dec_lt}
use pp_final_project.Prelude.{
  ℕ, suc, ◌+◌, ◌-◌, ◌*◌, ◌%◌, ◌^◌, ◌≤◌, ◌<◌, ◌≡◌, refl, ap, ◌∙◌, arith, inl, inr, ◌⊎◌,
}
use mathlib.Core.Path.{subst}
use pp_final_project.Env.Defs.{two_32, round_up, check_ptrs}
use pp_final_project.Env.Smear.{Ones, first_one}
use pp_final_project.Env.Bounds.{pow_mono, round_up-Ones, check_ptrs-low, check_ptrs-pow}
use native.Mathlib.Nat.{two-pow-succ}

-- The power of two that the setting `e` is rounded up to, with the bounds of its exponent.
record Rounded (e n : ℕ) : Type 0 where
  exponent : ℕ
  few : exponent ≤ n
  rounded : round_up (1024 * e) ≡ 2 ^ exponent
  above : 1024 * e ≤ 2 ^ exponent
  below : 2 ^ exponent < 2 * (1024 * e)

find-Rounded : (e n : ℕ) → 0 < e → n ≤ 31 → 1024 * e ≤ 2 ^ n → Rounded e n
find-Rounded e n some small h =
    let (a, le, one, o) = first_one n (1024 * e - 1) (omega arith) (omega arith) in
    let two : 2 ^ a ≡ 2 ^ (a - 1) + 2 ^ (a - 1) =
      ap (λ x. 2 ^ x) {x = a} {y = suc (a - 1)} (omega arith) ∙ two-pow-succ (a - 1) in
    let size : 2 ^ n ≤ 2 ^ 31 = pow_mono n 31 small in
    let dec : 1024 * e - 1 ≡ (1024 * e + (two_32 - 1)) % two_32 = omega arith in
    record {
      exponent = a;
      few = le;
      rounded = round_up-Ones a (1024 * e) (omega arith) (subst (Ones a 1) dec o);
      above = omega (arith, o.0);
      below = omega (arith, o.1, two);
    }

-- `v` is the first power of two from `n` on.
abbrev pub IsNextPower : ℕ → ℕ → Type 0
IsNextPower n v = (exponent : ℕ) × (v ≡ 2 ^ exponent) × (n ≤ v) × (v < 2 * n)

-- A setting `e` of the capacity, in units of 1024, not 0 and below 2 ^ 21, where `1024 * e` is an `int`: up
-- to 1024 the parameter is the first power of two from `1024 * e` on; from there to 2 ^ 20 it is the maximum,
-- 2 ^ 20; but above that, where the power of two is 2 ^ 31, it is the minimum, 1024.
pub check-round_up_lem :
    (e : ℕ)
    → 0 < e
    → e < 2 ^ 21
    → (e ≤ 1024) × IsNextPower (1024 * e) (check_ptrs (round_up (1024 * e)))
      ⊎ (1024 < e) × (e ≤ 2 ^ 20) × (check_ptrs (round_up (1024 * e)) ≡ 2 ^ 20)
      ⊎ (2 ^ 20 < e) × (check_ptrs (round_up (1024 * e)) ≡ 1024)
check-round_up_lem e some most = elim (dec_lt 1024 e) [
  | no few ↦ inl (omega arith, small (omega arith))
  | yes more ↦ elim (dec_lt (2 ^ 20) e) [
    | no n ↦ inr (inl (more, omega arith, big more (omega arith)))
    | yes high ↦ inr (inr (high, huge high most))
  ]
]
  where
    not_below : (a k : ℕ) → 2 ^ k < 2 ^ a + 1 → k ≤ a
    not_below a k h = elim (dec_lt a k) [
      | no n ↦ omega arith
      | yes lt ↦
          absurd (omega (arith, pow_mono (suc a) k lt, two-pow-succ a, pow_mono 0 a (omega arith)))
    ]

    small : e ≤ 1024 → IsNextPower (1024 * e) (check_ptrs (round_up (1024 * e)))
    small h =
        let r = find-Rounded e 20 some (omega arith) (omega arith) in
        let low : 10 ≤ r.exponent = not_below r.exponent 10 (omega (arith, r.above)) in
        let same : check_ptrs (round_up (1024 * e)) ≡ 2 ^ r.exponent =
          ap check_ptrs r.rounded ∙ (check_ptrs-pow r.exponent).1 low r.few in
        rw same (r.exponent, refl, r.above, r.below)

    big : 1024 < e → e ≤ 2 ^ 20 → check_ptrs (round_up (1024 * e)) ≡ 2 ^ 20
    big h k =
        let r = find-Rounded e 30 some (omega arith) (omega arith) in
        let high : 20 < r.exponent = over r.exponent (omega (arith, r.above)) in
        ap check_ptrs r.rounded ∙ (check_ptrs-pow r.exponent).2 high r.few
      where
        over : (a : ℕ) → 2 ^ 20 < 2 ^ a → 20 < a
        over a h = elim (dec_lt 20 a) [
          | yes lt ↦ lt
          | no n ↦ absurd (omega (arith, pow_mono a 20 (omega arith)))
        ]

    huge : 2 ^ 20 < e → e < 2 ^ 21 → check_ptrs (round_up (1024 * e)) ≡ 1024
    huge h k =
        let r = find-Rounded e 31 some (omega arith) (omega arith) in
        let top : r.exponent ≡ 31 = last r.exponent r.few (omega (arith, r.above)) in
        ap check_ptrs (r.rounded ∙ ap (λ x. 2 ^ x) top)
        ∙ check_ptrs-low (2 ^ 31) (inl (omega arith, omega arith))
      where
        last : (a : ℕ) → a ≤ 31 → 2 ^ 30 < 2 ^ a → a ≡ 31
        last a few h = elim (dec_lt 30 a) [
          | yes lt ↦ omega arith
          | no n ↦ absurd (omega (arith, pow_mono a 30 (omega arith)))
        ]
