-- ===== src/Lock/Run.antt =====
-- Runs of the lock of forkscan-changed/thread.c: any thread may take the next step.
use mathlib.Core.Path.{subst}
use pp_final_project.Prelude.{ℕ, suc, ◌+◌, ◌<◌, arith}
use pp_final_project.Lock.Defs.{System, Call, step, idle}

-- The state in which the process starts.
abbrev pub init : System
init = record {
  global_timestamp = 1;
  td = λ _. record { local_timestamp = 0; times_without_update = 0 };
  pc = λ _. idle;
}

-- `Steps n s m t`: from `s`, `n` threads come to `t` in `m` steps.
pub data Steps (n : ℕ) (s : System) : ℕ → System → Type 0 where
  start : Steps n s 0 s
  later :
      {m : ℕ} {t : System} (i : ℕ) (call : Call)
      → i < n
      → Steps n s m t
      → Steps n s (suc m) (step n i call t)

abbrev pub Reach : ℕ → ℕ → System → Type 0
Reach n m s = Steps n init m s

pub Steps-trans :
    {n m : ℕ} {a b : System} {k : ℕ} {c : System}
    → Steps n a m b
    → Steps n b k c
    → Steps n a (m + k) c
Steps-trans {n} {m} {a} {b} p start = subst (λ x. Steps n a x b) (omega arith) p
Steps-trans {n} {m} {a} {b} p (later {t = t} i call h q) =
    subst (λ x. Steps n a x (step n i call t)) (omega arith) (later i call h (Steps-trans p q))
