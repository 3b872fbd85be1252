-- ===== src/Prelude/Bits.antt =====
-- Masks of low bits, and indices into a circular buffer.
use Prim.Native.Nat.{
  ℕ, zero, suc, ◌+◌, ◌-◌, ◌*◌, ◌/◌, ◌%◌, ◌^◌, ◌≤◌, ◌<◌, min, bit_and, digits, bit_and-bitwise,
}
use mathlib.Core.Path.{◌≡◌, refl, sym, ap, ◌∙◌}
use native.Mathlib.Omega.{arith}
use native.Mathlib.Nat.{
  one-le-pow, add-mul-mod_self_left, mod-eq_of_lt, mod-lt, mod-one, pow-suc, zero-mod, mod-add-mod,
  mod-eq-sub-mod, div-add-mod,
}

abbrev zero_digits : ℕ → ℕ
zero_digits b = 0

and_nothing : (n a : ℕ) → digits zero_digits min n a 0 ≡ 0
and_nothing zero a = refl
and_nothing (suc n) zero = refl
and_nothing (suc n) (suc a) = rw (and_nothing n (suc a / 2)) (omega arith)

mod_double : (a p : ℕ) → 0 < p → a / 2 % p * 2 + a % 2 ≡ a % (p * 2)
mod_double a p h =
    let r : a / 2 % p < p = mod-lt (a / 2) h in
    let d : p * (a / 2 / p) + a / 2 % p ≡ a / 2 = div-add-mod (a / 2) p in
    let e : (a / 2 % p * 2 + a % 2 + p * 2 * (a / 2 / p)) % (p * 2) ≡ a % (p * 2) =
      ap (λ x. x % (p * 2)) (regroup (a / 2 / p) (a / 2 % p) d) in
    sym (mod-eq_of_lt (omega (arith, r)))
    ∙ sym (add-mul-mod_self_left (a / 2 % p * 2 + a % 2) (p * 2) (a / 2 / p))
    ∙ e
  where
    regroup : (q r : ℕ) → p * q + r ≡ a / 2 → r * 2 + a % 2 + p * 2 * q ≡ a
    regroup q r d = let f : p * 2 * q ≡ p * q * 2 = grind arith in omega arith

mask_suc : (p : ℕ) → 0 < p → ((p * 2 - 1) / 2 ≡ p - 1) × ((p * 2 - 1) % 2 ≡ 1)
mask_suc p h = (omega arith, omega arith)

pow_pos : (k : ℕ) → 0 < 2 ^ k
pow_pos k = one-le-pow k 2 (omega arith)

and_digits : (k n a : ℕ) → a ≤ n → digits zero_digits min n a (2 ^ k - 1) ≡ a % 2 ^ k
and_digits zero n a h = and_nothing n a ∙ sym (mod-one a)
and_digits (suc k) zero a h = let e : a ≡ 0 = omega arith in rw e (sym (zero-mod (2 ^ suc k)))
and_digits (suc k) (suc n) zero h = sym (zero-mod (2 ^ suc k))
and_digits (suc k) (suc n) (suc a) h =
    let m = mask_suc (2 ^ k) (pow_pos k) in
    rw (pow-suc 2 k, m.0, m.1, and_digits k n (suc a / 2) (omega arith))
      (omega (arith, mod_double (suc a) (2 ^ k) (pow_pos k)))

-- `a & (2 ^ k - 1)`
pub bit_and-mask : (a k : ℕ) → bit_and a (2 ^ k - 1) ≡ a % 2 ^ k
bit_and-mask a k = bit_and-bitwise a (2 ^ k - 1) ∙ and_digits k a a (omega arith)

-- An index of a circular buffer, `k` cells ahead.
pub mod_ahead : (x k m : ℕ) → x % m + k < m → (x + k) % m ≡ x % m + k
mod_ahead x k m h = sym (mod-add-mod x m k) ∙ mod-eq_of_lt h

pub mod_wrap : (x k m : ℕ) → x % m + k < m + m → m ≤ x % m + k → (x + k) % m ≡ x % m + k - m
mod_wrap x k m h p = sym (mod-add-mod x m k) ∙ mod-eq-sub-mod p ∙ mod-eq_of_lt (omega arith)
