-- ===== src/Lock/Invariant.antt =====
-- What holds of the lock of forkscan-changed/thread.c in every state of a run.
use pp_final_project.Prelude.{ℕ, ◌+◌, ◌≤◌, ◌<◌, ◌≡◌, true, false}
use pp_final_project.Lock.Defs.{
  timestamp_flag, timestamp, is_active, System, Pc, idle, raising, raised, helping, attempting,
  waiting, reclaiming, releasing,
}

-- The thread holds the lock, or waits inside `try_acquire` for the helpers.
unfoldable pub Holds : Pc → Type 0
Holds idle = ⊥
Holds (raising old) = ⊥
Holds (raised old curr) = ⊥
Holds helping = ⊥
Holds (attempting old) = ⊥
Holds (waiting k curr) = Unit
Holds reclaiming = Unit
Holds (releasing stamp) = Unit

-- A thread at `p` with the timestamp `l` helps no round but the round `t`.
unfoldable pub Acknowledged : ℕ → Pc → ℕ → Type 0
Acknowledged t idle l = Unit
Acknowledged t (raising old) l = Unit
Acknowledged t (raised old curr) l = timestamp curr ≡ t
Acknowledged t helping l = timestamp l ≡ t
Acknowledged t (attempting old) l = Unit
Acknowledged t (waiting k curr) l = Unit
Acknowledged t reclaiming l = Unit
Acknowledged t (releasing stamp) l = Unit

-- The timestamp `l` of a thread at `p`, where `g` is the global one.
unfoldable pub Local : ℕ → Pc → ℕ → Type 0
Local g idle l = is_active l ≡ false
Local g (raising old) l = is_active l ≡ true
Local g (raised old curr) l =
    (is_active l ≡ true) × (timestamp l ≤ timestamp curr) × (timestamp curr ≤ timestamp g)
Local g helping l = is_active l ≡ true
Local g (attempting old) l = (is_active l ≡ false) × (is_active old ≡ false)
Local g (waiting k curr) l = (is_active l ≡ false) × (curr ≡ timestamp g)
Local g reclaiming l = is_active l ≡ false
Local g (releasing stamp) l = (is_active l ≡ false) × (stamp ≡ g)

-- How many threads the holder of the lock has waited for.
unfoldable pub waited : ℕ → Pc → ℕ
waited n idle = 0
waited n (raising old) = 0
waited n (raised old curr) = 0
waited n helping = 0
waited n (attempting old) = 0
waited n (waiting k curr) = k
waited n reclaiming = n
waited n (releasing stamp) = n

-- After `m` steps of `n` threads.
pub record Inv (n m : ℕ) (s : System) : Type 0 where
  pub rounds : timestamp s.global_timestamp ≤ m + 1
  pub word : s.global_timestamp < timestamp_flag + timestamp_flag
  pub locals : (j : ℕ) → Local s.global_timestamp (s.pc j) (s.td j).local_timestamp
  pub behind : (j : ℕ) → timestamp (s.td j).local_timestamp ≤ timestamp s.global_timestamp
  pub held : (j : ℕ) → Holds (s.pc j) → is_active s.global_timestamp ≡ true
  pub one : (i j : ℕ) → Holds (s.pc i) → Holds (s.pc j) → i ≡ j
  pub acks :
      (i j : ℕ)
      → Holds (s.pc i)
      → j < waited n (s.pc i)
      → Acknowledged (timestamp s.global_timestamp) (s.pc j) (s.td j).local_timestamp
