-- ===== src/Bench/Places.antt =====
-- Runs of the array of forkscan_test/main.c, and the place of each node.
use native.Mathlib.Decide.{ℕ_discrete}
use pp_final_project.Prelude.{
  ℕ, ◌≤◌, ◌≡◌, ◌≢◌, refl, ap, ◌∙◌, true, false, ◌==◌, List, [], ◌∷◌, All, none, some, arith,
}
use pp_final_project.Buffer.Chain.{NotIn, Distinct}
use pp_final_project.Bench.Defs.{
  Pc, idle, allocating, inserting, dropping, removing, retiring, Call, Bench, update, step,
}

-- The state in which the threads start.
abbrev pub init : Bench
init = record {
  array = λ k. none;
  collected = λ n. false;
  fresh = 0;
  pc = λ i. idle;
  retired = [];
  freed = [];
}

-- Any thread may take the next step.
pub data Reach : Bench → Type 0 where
  start : Reach init
  later : {s : Bench} (i : ℕ) (call : Call) → Reach s → Reach (step i call s)

pub data Place : Type 0 where
  unused : Place
  cell : (key : ℕ) → Place
  -- with a thread, its flag at 0
  held : (i : ℕ) → Place
  -- with a thread, its flag at 1
  marked : (i : ℕ) → Place
  was_retired : Place
  was_freed : Place

-- The flag of a node in this place may be 1.
abbrev pub MayBeSet : Place → Type 0
MayBeSet unused = ⊥
MayBeSet (cell key) = ⊥
MayBeSet (held i) = ⊥
MayBeSet (marked i) = Unit
MayBeSet was_retired = Unit
MayBeSet was_freed = ⊥

-- The node of a thread is with it.
abbrev pub Owns : (ℕ → Place) → ℕ → Pc → Type 0
Owns place i idle = Unit
Owns place i (allocating key) = Unit
Owns place i (inserting key n) = place n ≡ held i
Owns place i (dropping n) = place n ≡ held i
Owns place i (removing n) = place n ≡ held i
Owns place i (retiring n) = place n ≡ marked i

pub record Inv (s : Bench) (place : ℕ → Place) : Type 0 where
  pub cells : (k n : ℕ) → s.array k ≡ some n → place n ≡ cell k
  pub owners : (i : ℕ) → Owns place i (s.pc i)
  pub flags : (n : ℕ) → s.collected n ≡ true → MayBeSet (place n)
  pub unmade : (n : ℕ) → s.fresh ≤ n → place n ≡ unused
  pub retired : All (λ n. place n ≡ was_retired) s.retired
  pub freed : All (λ n. place n ≡ was_freed) s.freed
  pub retired_once : Distinct s.retired
  pub freed_once : Distinct s.freed

pub update_self {ℓ} : {A : Type ℓ} (f : ℕ → A) (i : ℕ) (a : A) → update f i a i ≡ a
update_self f i a = let e : (i == i) ≡ true = ground arith in rw e refl

pub update_other {ℓ} : {A : Type ℓ} (f : ℕ → A) (i j : ℕ) (a : A) → i ≢ j → update f i a j ≡ f j
update_other f i j a n = let e : (i == j) ≡ false = ground arith in rw e refl

-- Another node than `n`.
module _ (place : ℕ → Place) (n : ℕ) (p : Place) where
  -- What is in a place that `n` is not in stays there.
  pub stays : (m : ℕ) (q : Place) → place m ≡ q → place n ≢ q → update place n p m ≡ q
  stays m q e ne = elim (ℕ_discrete n m) [
    | yes h ↦ absurd (ne (ap place h ∙ e))
    | no other ↦ update_other place n m p other ∙ e
  ]

  pub Owns-stays :
      (j : ℕ) (pc : Pc)
      → place n ≢ held j
      → place n ≢ marked j
      → Owns place j pc
      → Owns (update place n p) j pc
  Owns-stays j idle h m o = tt
  Owns-stays j (allocating key) h m o = tt
  Owns-stays j (inserting key x) h m o = stays x (held j) o h
  Owns-stays j (dropping x) h m o = stays x (held j) o h
  Owns-stays j (removing x) h m o = stays x (held j) o h
  Owns-stays j (retiring x) h m o = stays x (marked j) o m

  pub All-stays :
      (q : Place) (xs : List ℕ)
      → place n ≢ q
      → All (λ x. place x ≡ q) xs
      → All (λ x. update place n p x ≡ q) xs
  All-stays q [] ne a = tt
  All-stays q (x ∷ xs) ne a = (stays x q a.0 ne, All-stays q xs ne a.1)

  -- So `n` is not in the list.
  pub NotIn-stays : (q : Place) (xs : List ℕ) → place n ≢ q → All (λ x. place x ≡ q) xs → NotIn n xs
  NotIn-stays q [] ne a = tt
  NotIn-stays q (x ∷ xs) ne a = ((λ e. ne (ap place e ∙ a.0)), NotIn-stays q xs ne a.1)
