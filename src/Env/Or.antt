-- ===== src/Env/Or.antt =====
-- Bitwise or, from the digits that the native operation stands for.
use Prim.Native.Nat.{digits, bit_or-bitwise}
use native.Mathlib.Nat.{pow-suc, one-le-pow, div-one, div-div-eq-div-mul}
use pp_final_project.Prelude.{
  ℕ, zero, suc, ◌+◌, ◌*◌, ◌/◌, ◌%◌, ◌^◌, ◌≤◌, ◌<◌, ◌≡◌, refl, sym, ap, ◌∙◌, max, bit_or, arith,
}

abbrev or_digits : ℕ → ℕ → ℕ → ℕ
or_digits n a b = digits (λ b. b) max n a b

or_digits_fuel : (n m a b : ℕ) → a ≤ n → a ≤ m → or_digits n a b ≡ or_digits m a b
or_digits_fuel zero zero a b p q = refl
or_digits_fuel zero (suc m) zero b p q = refl
or_digits_fuel zero (suc m) (suc a) b p q = absurd (omega arith)
or_digits_fuel (suc n) zero zero b p q = refl
or_digits_fuel (suc n) zero (suc a) b p q = absurd (omega arith)
or_digits_fuel (suc n) (suc m) zero b p q = refl
or_digits_fuel (suc n) (suc m) (suc a) b p q =
    omega (arith, or_digits_fuel n m (suc a / 2) (b / 2) (omega arith) (omega arith))

zero-bit_or : (b : ℕ) → bit_or 0 b ≡ b
zero-bit_or b = bit_or-bitwise 0 b

-- The law for the lowest digit.
bit_or_step : (a b : ℕ) → bit_or a b ≡ bit_or (a / 2) (b / 2) * 2 + max (a % 2) (b % 2)
bit_or_step zero b = omega (arith, zero-bit_or b, zero-bit_or (b / 2))
bit_or_step (suc a) b = omega (
  arith,
  bit_or-bitwise (suc a) b,
  bit_or-bitwise (suc a / 2) (b / 2),
  or_digits_fuel a (suc a / 2) (suc a / 2) (b / 2) (omega arith) (omega arith),
)

-- The digits of both below `k` are the digits of the result.
pub bit_or-lt : (k a b : ℕ) → a < 2 ^ k → b < 2 ^ k → bit_or a b < 2 ^ k
bit_or-lt zero a b p q = let e : a ≡ 0 = omega arith in rw (e, zero-bit_or b) q
bit_or-lt (suc k) a b p q =
    let s = pow-suc 2 k in
    omega
      (arith, s, bit_or_step a b, bit_or-lt k (a / 2) (b / 2) (omega (arith, s)) (omega (arith, s)))

le-bit_or : (n a b : ℕ) → a ≤ n → a ≤ bit_or a b
le-bit_or n zero b h = omega arith
le-bit_or zero (suc a) b h = absurd (omega arith)
le-bit_or (suc n) (suc a) b h =
    omega (arith, bit_or_step (suc a) b, le-bit_or n (suc a / 2) (b / 2) (omega arith))

-- Or loses nothing.
pub bit_or-above : (a b : ℕ) → a ≤ bit_or a b
bit_or-above a b = le-bit_or a a b (omega arith)

high_half : (a p : ℕ) → 0 < p → a / (p * 2) * (p * 2) ≡ a / 2 / p * p * 2
high_half a p h =
    let e : a / (p * 2) ≡ a / 2 / p =
      ap (λ x. a / x) (omega arith) ∙ sym (div-div-eq-div-mul a 2 p) in
    rw e (grind arith)

-- The digits of `a` from `p` on, and the digits of `b` below `p`, are in the result.
pub bit_or-ge : (p a b : ℕ) → b < 2 ^ p → a / 2 ^ p * 2 ^ p + b ≤ bit_or a b
bit_or-ge zero a b h =
    let e : b ≡ 0 = omega arith in rw (e, div-one a) (omega (arith, le-bit_or a a 0 (omega arith)))
bit_or-ge (suc p) a b h =
    let s = pow-suc 2 p in
    let e = high_half a (2 ^ p) (one-le-pow p 2 (omega arith)) in
    rw s (omega (arith, s, e, bit_or_step a b, bit_or-ge p (a / 2) (b / 2) (omega (arith, s))))
