-- ===== src/Env/Bounds.antt =====
-- The parameters of forkscan-changed/env.c are in their bounds, whatever the environment has.
use mathlib.Core.Path.{subst}
use pp_final_project.Prelude.{
  ℕ, ◌+◌, ◌-◌, ◌*◌, ◌/◌, ◌%◌, ◌^◌, ◌≤◌, ◌<◌, ◌≡◌, refl, sym, ap, ◌∙◌, bit_or, arith, Option, none,
  some, leb, true, false, inl, inr, ◌⊎◌, lt_eq_gt,
}
use native.Mathlib.Decide.{dec_lt}
use native.Mathlib.Nat.{div-lt_iff_lt-mul, one-le-pow, pow-le-pow_right}
use pp_final_project.Env.Defs.{
  two_32, sign_bit, default_throttling_queue, max_children_count, Variable, env_throttling_queue,
  env_max_children, smear, round_up, check_ptrs, check_count, get_int, env_init,
}
use pp_final_project.Env.Or.{bit_or-lt, bit_or-above}
use pp_final_project.Env.Smear.{Ones, Ones-double, first_one, pow_add}

pub pow_mono : (i j : ℕ) → i ≤ j → 2 ^ i ≤ 2 ^ j
pow_mono i j h = pow-le-pow_right (omega arith) h

smear-positive : (k v : ℕ) → v < sign_bit → smear k v ≡ bit_or v (v / 2 ^ k)
unfolding smear
smear-positive k v h = let e : leb sign_bit v ≡ false = ground arith in rw e refl

-- A negative number stays negative.
smear-negative :
    (k v : ℕ) → k ≤ 32 → sign_bit ≤ v → v < two_32 → (sign_bit ≤ smear k v) × (smear k v < two_32)
unfolding smear
smear-negative k v few low high =
    let e : leb sign_bit v ≡ true = ground arith in
    (
      rw e (omega (arith, bit_or-above v (v / 2 ^ k + (two_32 - 2 ^ (32 - k))))),
      rw e (bit_or-lt 32 v (v / 2 ^ k + (two_32 - 2 ^ (32 - k))) high (omega (arith, under, part))),
    )
  where
    part : 2 ^ (32 - k) ≤ 2 ^ 32
    part = pow_mono (32 - k) 32 (omega arith)

    whole : 2 ^ (32 - k) * 2 ^ k ≡ 2 ^ 32
    whole = sym (pow_add (32 - k) k) ∙ ap (λ x. 2 ^ x) {x = 32 - k + k} {y = 32} (omega arith)

    under : v / 2 ^ k < 2 ^ (32 - k)
    under =
        (div-lt_iff_lt-mul (one-le-pow k 2 (omega arith))).1 (subst (λ x. v < x) (sym whole) high)

-- One round on a number of at most 31 digits.
smear-Ones : (a t v : ℕ) → a ≤ 31 → Ones a t v → Ones a (t + t) (smear t v)
smear-Ones a t v few o =
    let small : 2 ^ a ≤ 2 ^ 31 = pow_mono a 31 few in
    rw (smear-positive t v (omega (arith, o.0))) (Ones-double a t v o)

pub round_up-Ones : (a p : ℕ) → a ≤ 31 → Ones a 1 ((p + (two_32 - 1)) % two_32) → round_up p ≡ 2 ^ a
unfolding round_up
round_up-Ones a p few o =
    let o5 = smear-Ones a 16 _ few (
      smear-Ones a 8 _ few
        (smear-Ones a 4 _ few (smear-Ones a 2 _ few (smear-Ones a 1 _ few o)))) in
    let none : a - 32 ≡ 0 = omega arith in
    let small : 2 ^ a ≤ 2 ^ 31 = pow_mono a 31 few in
    let top : 2 ^ a ≤ v5 + 1 = subst (λ x. 2 ^ a ≤ v5 + 2 ^ x) none o5.1 in omega (arith, o5.0)
  where
    v5 : ℕ
    v5 = smear 16 (smear 8 (smear 4 (smear 2 (smear 1 ((p + (two_32 - 1)) % two_32)))))

-- A number that is negative after the decrement ends up negative, or 0.
round_up-negative :
    (p : ℕ)
    → sign_bit ≤ (p + (two_32 - 1)) % two_32
    → (sign_bit ≤ round_up p) × (round_up p < two_32) ⊎ (round_up p ≡ 0)
unfolding round_up
round_up-negative p low =
    let s1 = smear-negative 1 _ (omega arith) low (omega arith) in
    let s2 = smear-negative 2 _ (omega arith) s1.0 s1.1 in
    let s3 = smear-negative 4 _ (omega arith) s2.0 s2.1 in
    let s4 = smear-negative 8 _ (omega arith) s3.0 s3.1 in
    let s5 = smear-negative 16 _ (omega arith) s4.0 s4.1 in
    let v5 = smear 16 (smear 8 (smear 4 (smear 2 (smear 1 ((p + (two_32 - 1)) % two_32))))) in
    elim (lt_eq_gt (v5 + 1) two_32) [
      | inl lt ↦ inl (omega (arith, s5.0), omega arith)
      | inr (inl eq) ↦ inr (omega (arith, eq))
      | inr (inr gt) ↦ absurd (omega (arith, s5.1))
    ]

-- A power of two in the bounds of the queue's capacity.
abbrev pub Capacity : ℕ → Type 0
Capacity c = (k : ℕ) × (10 ≤ k) × (k ≤ 20) × (c ≡ 2 ^ k)

pub check_ptrs-low : (p : ℕ) → (sign_bit ≤ p) × (p < two_32) ⊎ (p < 1024) → check_ptrs p ≡ 1024
unfolding check_ptrs
check_ptrs-low p h = ground arith

-- The exponent is cut to the bounds, but for 2 ^ 31, which is negative.
pub check_ptrs-pow :
    (a : ℕ)
    → (a < 10 → check_ptrs (2 ^ a) ≡ 1024)
      × (10 ≤ a → a ≤ 20 → check_ptrs (2 ^ a) ≡ 2 ^ a)
      × (20 < a → a ≤ 30 → check_ptrs (2 ^ a) ≡ 1024 * 1024)
unfolding check_ptrs
check_ptrs-pow a = (
  λ h.
      let b : 2 ^ a ≤ 2 ^ 9 = pow_mono a 9 (omega arith) in
      check_ptrs-low (2 ^ a) (inr (omega arith)),
  λ h k.
      let b : 2 ^ 10 ≤ 2 ^ a = pow_mono 10 a h in
      let c : 2 ^ a ≤ 2 ^ 20 = pow_mono a 20 k in middle (2 ^ a) b c,
  λ h k.
      let b : 2 ^ 21 ≤ 2 ^ a = pow_mono 21 a h in
      let c : 2 ^ a ≤ 2 ^ 30 = pow_mono a 30 k in high (2 ^ a) b c,
)
  where
    middle : (p : ℕ) → 2 ^ 10 ≤ p → p ≤ 2 ^ 20 → check_ptrs p ≡ p
    middle p b c = ground arith

    high : (p : ℕ) → 2 ^ 21 ≤ p → p ≤ 2 ^ 30 → check_ptrs p ≡ 1024 * 1024
    high p b c = ground arith

-- `1024 * 1024` and its like, as powers.
to_capacity : (c k : ℕ) → 10 ≤ k → k ≤ 20 → c ≡ 2 ^ k → Capacity c
to_capacity c k p q e = (k, p, q, e)

check-Capacity : (a : ℕ) → a ≤ 31 → Capacity (check_ptrs (2 ^ a))
check-Capacity a few =
    let c = check_ptrs-pow a in
    elim (dec_lt a 10) [
      | yes low ↦ (10, omega arith, omega arith, c.0 low)
      | no n ↦ elim (dec_lt a 21) [
        | yes mid ↦ (a, omega arith, omega arith, c.1 (omega arith) (omega arith))
        | no n' ↦ elim (dec_lt a 31) [
          | yes high ↦ (20, omega arith, omega arith, c.2 (omega arith) (omega arith))
          | no last ↦
              let e : a ≡ 31 = omega arith in
              (
                10,
                omega arith,
                omega arith,
                ap (λ x. check_ptrs (2 ^ x)) e
                    ∙ check_ptrs-low (2 ^ 31) (inl (omega arith, omega arith)),
              )
        ]
      ]
    ]

check-round_up : (p : ℕ) → Capacity (check_ptrs (round_up p))
check-round_up p = elim (dec_lt ((p + (two_32 - 1)) % two_32) sign_bit) [
  | no low ↦
      let e : check_ptrs (round_up p) ≡ 1024 =
        check_ptrs-low (round_up p) (elim (round_up-negative p (omega arith)) [
          | inl h ↦ inl h
          | inr z ↦ inr (omega (arith, z))
        ]) in
      (10, omega arith, omega arith, e)
  | yes pos ↦ elim (dec_lt 0 ((p + (two_32 - 1)) % two_32)) [
    | yes above ↦
        let (a, few, one, o) = first_one 31 ((p + (two_32 - 1)) % two_32) above pos in
        subst (λ x. Capacity (check_ptrs x)) (sym (round_up-Ones a p few o)) (check-Capacity a few)
    | no nothing ↦
        subst (λ x. Capacity (check_ptrs x))
          (sym (round_up-Ones 0 p (omega arith) (omega arith, omega arith)))
          (check-Capacity 0 (omega arith))
  ]
]

check_count-in :
    (most v : ℕ)
    → 1 ≤ most
    → most < sign_bit
    → v < two_32
    → (1 ≤ check_count most v) × (check_count most v ≤ most)
unfolding check_count
check_count-in most v one few word = ground arith

module _ {ℓ} {Str : Type ℓ} (atoi : Str → ℕ) (atoi_int : (s : Str) → atoi s < two_32)
    (getenv : Variable → Option Str) where
  get_int-lt : (val : Option Str) (d : ℕ) → d < two_32 → get_int atoi val d < two_32
  unfolding get_int
  get_int-lt none d h = h
  get_int-lt (some s) d h = atoi_int s

  -- Whatever the four variables of the environment hold or if they are not set, where `atoi` returns
  -- 32-bit numbers: the capacity of a thread's queue is a power of two from 2 ^ 10 to 2 ^ 20, the length
  -- of the throttling queue is from 1 to 32, the number of children from 1 to 16, and the flag for the
  -- statistics is 0 or 1.
  pub env_init-Bounds :
      Capacity (env_init atoi getenv).ptrs_per_thread
      × ((env_init atoi getenv).report_statistics ≤ 1)
      × (1 ≤ (env_init atoi getenv).throttling_queue)
      × ((env_init atoi getenv).throttling_queue ≤ 32)
      × (1 ≤ (env_init atoi getenv).max_children)
      × ((env_init atoi getenv).max_children ≤ 16)
  unfolding env_init
  env_init-Bounds =
      let q =
        check_count-in 32 (get_int atoi (getenv env_throttling_queue) default_throttling_queue)
          (omega arith) (omega arith) (get_int-lt (getenv env_throttling_queue) 16 (omega arith)) in
      let m =
        check_count-in 16 (get_int atoi (getenv env_max_children) max_children_count) (omega arith)
          (omega arith) (get_int-lt (getenv env_max_children) 16 (omega arith)) in
      (check-round_up _, ground arith, q.0, q.1, m.0, m.1)
