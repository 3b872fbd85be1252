-- ===== src/Bench/Retired.antt =====
-- The array of forkscan_test/main.c retires a node once.
use pp_final_project.Prelude.{
  ℕ, ◌≡◌, ◌≢◌, refl, sym, ◌∙◌, true, false, List, [], ◌∷◌, All, some, none, Bool-cases, inl, inr,
}
use pp_final_project.Buffer.Chain.{NotIn, Distinct}
use pp_final_project.Bench.Defs.{Bench, removing}
use pp_final_project.Bench.Places.{
  init, Reach, start, later, Place, unused, cell, was_retired, was_freed, MayBeSet, Owns, Inv,
  NotIn-stays,
}
use pp_final_project.Bench.Moves.{Placed, Placed-resume}
use mathlib.Core.Path.{subst}

Placed-init : Placed init
Placed-init = (
  λ n. unused,
  record {
    cells = λ k n e. absurd (nothing e);
    owners = λ i. tt;
    flags = λ n e. absurd (clear e);
    unmade = λ n h. refl;
    retired = tt;
    freed = tt;
    retired_once = tt;
    freed_once = tt;
  },
)
  where
    nothing : {n : ℕ} → none ≢ some n
    nothing {n} e = cc

    clear : false ≢ true
    clear e = cc

Reach-Placed : {s : Bench} → Reach s → Placed s
Reach-Placed start = Placed-init
Reach-Placed (later {s} i call r) =
    let (place, inv) = Reach-Placed r in Placed-resume s place inv i call (s.pc i) refl

-- A node in a place where the flag is 0.
clear_at :
    (s : Bench) (place : ℕ → Place) (n : ℕ)
    → Inv s place
    → ¬ MayBeSet (place n)
    → s.collected n ≡ false
clear_at s place n inv h = elim (Bool-cases (s.collected n)) [
  | inl set ↦ absurd (h (inv.flags n set))
  | inr clear ↦ clear
]

apart_lists :
    (place : ℕ → Place) (xs ys : List ℕ)
    → All (λ n. place n ≡ was_retired) xs
    → All (λ n. place n ≡ was_freed) ys
    → All (λ n. NotIn n ys) xs
apart_lists place [] ys a b = tt
apart_lists place (x ∷ xs) ys a b =
    (NotIn-stays place x unused was_freed ys (differs x a.0) b, apart_lists place xs ys a.1 b)
  where
    differs : (x : ℕ) → place x ≡ was_retired → place x ≢ was_freed
    differs x e f = cc

-- In every run: no node is retired twice, none is freed twice, and none is both retired and freed; a node in
-- the array is in one cell only, is neither retired nor freed, and has its flag `collected` at 0; and when a
-- thread has taken a node out of the array and looks at the flag, the flag is 0, so that it retires the node.
pub Reach-Single :
    {s : Bench}
    → Reach s
    → Distinct s.retired
      × Distinct s.freed
      × All (λ n. NotIn n s.freed) s.retired
      × ((k n : ℕ)
          → s.array k ≡ some n
          → NotIn n s.retired
            × NotIn n s.freed
            × (s.collected n ≡ false)
            × ((j : ℕ) → s.array j ≡ some n → j ≡ k))
      × ((i n : ℕ) → s.pc i ≡ removing n → s.collected n ≡ false)
Reach-Single {s} r =
    let (place, inv) = Reach-Placed r in
    (
      inv.retired_once,
      inv.freed_once,
      apart_lists place s.retired s.freed inv.retired inv.freed,
      λ k n e.
          let at = inv.cells k n e in
          (
            NotIn-stays place n unused was_retired s.retired (λ x. cc) inv.retired,
            NotIn-stays place n unused was_freed s.freed (λ x. cc) inv.freed,
            clear_at s place n inv (λ h. subst MayBeSet at h),
            λ j f. same_cell (sym (inv.cells j n f) ∙ at),
          ),
      λ i n e.
          clear_at s place n inv (λ h. subst MayBeSet (subst (Owns place i) e (inv.owners i)) h),
    )
  where
    same_cell : {j k : ℕ} → cell j ≡ cell k → j ≡ k
    same_cell {j} {k} e = cc
