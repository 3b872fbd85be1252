-- ===== src/Prelude/Outcome.antt =====
-- How a call of the C code ends: normally with a value, or by a fault or an exit.
use mathlib.Core.Bool.{Bool, true, false}
use mathlib.Core.Option.{Option, none, some}

-- `null_deref` and `out_of_bounds` are undefined behaviour of C; `assertion` is a failed `assert`;
-- `fatal` is `forkscan_fatal` and `exit_1` is `exit(1)`; `out_of_fuel` marks a loop that was cut off.
pub data Fault : Type 0 where
  null_deref out_of_bounds assertion fatal exit_1 out_of_fuel : Fault

pub data Run {ℓ} (A : Type ℓ) : Type ℓ where
  done : A → Run A
  fail : Fault → Run A

infixl 5 ◌>>=◌ ◌>>◌
abbrev pub ◌>>=◌ {ℓ κ} : {A : Type ℓ} {B : Type κ} → Run A → (A → Run B) → Run B
done a >>= f = f a
fail e >>= f = fail e

abbrev pub ◌>>◌ {ℓ} : {B : Type ℓ} → Run (Unit {0}) → Run B → Run B
m >> k = m >>= λ _. k

-- `assert(b)`
abbrev pub assert : Bool → Run (Unit {0})
assert true = done tt
assert false = fail assertion

-- `a && b`, where `b` may fault and is evaluated only if `a` holds.
abbrev pub and_then : Bool → Run Bool → Run Bool
and_then true b = b
and_then false b = done false

-- A read of an array cell.
abbrev pub read {ℓ} : {A : Type ℓ} → Option A → Run A
read none = fail out_of_bounds
read (some v) = done v

-- The call ends normally, with a value that satisfies `P`.
abbrev pub Returns {ℓ} : {A : Type ℓ} → Run A → (A → Type 0) → Type 0
Returns (done a) P = P a
Returns (fail _) P = ⊥

pub Returns-imp {ℓ} :
    {A : Type ℓ} {P Q : A → Type 0} (m : Run A) → ((a : A) → P a → Q a) → Returns m P → Returns m Q
Returns-imp (done a) f h = f a h
Returns-imp (fail e) f h = h

-- The rule for a sequence of two calls.
pub Returns-bind {ℓ κ} :
    {A : Type ℓ} {B : Type κ} {P : A → Type 0} (Q : B → Type 0) (m : Run A) (f : A → Run B)
    → Returns m P
    → ((a : A) → P a → Returns (f a) Q)
    → Returns (m >>= f) Q
Returns-bind Q (done a) f h step = step a h
Returns-bind Q (fail e) f h step = elim h [ ]
