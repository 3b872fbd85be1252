-- ===== src/Lock/Tests.antt =====
-- The lock of forkscan-changed/thread.c on schedules of two threads.
use pp_final_project.Prelude.{ℕ, ◌≤◌, ◌≡◌, refl, true, arith}
use pp_final_project.Lock.Defs.{
  timestamp, is_active, System, raise, try_acquire, step, helping, waiting, reclaiming, resume,
  begin, cleanup_raise_flag, raise_flag_read, raise_flag_write, cleanup_lower_flag,
  cleanup_try_acquire, swap_timestamp, wait_for_timestamp,
}
use pp_final_project.Lock.Run.{init, Reach, Steps, start, later}
use pp_final_project.Lock.Invariant.{Holds}
use pp_final_project.Lock.Safety.{Reach-Exclusive, Reach-Acknowledged}
use pp_final_project.Lock.Progress.{try_acquire-Reaches}

-- Thread 0 acquires the lock while thread 1 helps: it reads, swaps, and waits for itself and for
-- thread 1, which raises its flag after the swap.
abbrev helper_comes : System
helper_comes =
    step 2 1 raise (step 2 1 raise (step 2 1 raise (step 2 0 raise (step 2 0 try_acquire init))))

abbrev both : System
both = step 2 0 raise (step 2 0 raise (step 2 0 raise helper_comes))

both-Reach : Reach 2 8 both
both-Reach = later 0 raise (omega arith) (
    later 0 raise (omega arith) (
      later 0 raise (omega arith) (
        later 1 raise (omega arith) (
          later 1 raise (omega arith) (
            later 1 raise (omega arith)
              (later 0 raise (omega arith) (later 0 try_acquire (omega arith) start)))))))

both_pcs : (both.pc 0 ≡ reclaiming) × (both.pc 1 ≡ helping)
unfolding resume begin cleanup_raise_flag raise_flag_read raise_flag_write cleanup_try_acquire
    swap_timestamp wait_for_timestamp
both_pcs = (refl, refl)

Reach-Exclusive_example : (◌≡◌ {A = ℕ} 0 0) × (is_active both.global_timestamp ≡ true)
unfolding resume begin cleanup_raise_flag raise_flag_read raise_flag_write cleanup_try_acquire
    swap_timestamp wait_for_timestamp Holds
Reach-Exclusive_example =
    Reach-Exclusive {n = 2} {m = 8} {s = both} 0 0 (omega arith) both-Reach tt tt

Reach-Acknowledged_example : timestamp (both.td 1).local_timestamp ≡ timestamp both.global_timestamp
Reach-Acknowledged_example =
    Reach-Acknowledged {n = 2} {m = 8} {s = both} 0 1 (omega arith) both-Reach (omega arith)
      both_pcs.0 both_pcs.1

-- Thread 1 helps since before the lock was acquired, and thread 0 waits for it.
abbrev blocked : System
blocked =
    step 2 0 raise (
      step 2 0 raise (step 2 0 try_acquire (step 2 1 raise (step 2 1 raise (step 2 1 raise init)))))

blocked-Reach : Reach 2 6 blocked
blocked-Reach = later 0 raise (omega arith) (
    later 0 raise (omega arith) (
      later 0 try_acquire (omega arith) (
        later 1 raise (omega arith)
          (later 1 raise (omega arith) (later 1 raise (omega arith) start)))))

-- The wait does not get past thread 1.
blocked_waits :
    (blocked.pc 0 ≡ waiting 1 2)
    × ((step 2 0 raise blocked).pc 0 ≡ waiting 1 2)
    × ((step 2 0 raise (step 2 1 raise blocked)).pc 0 ≡ waiting 2 2)
unfolding resume begin cleanup_raise_flag raise_flag_read raise_flag_write cleanup_lower_flag
    cleanup_try_acquire swap_timestamp wait_for_timestamp
blocked_waits = (refl, refl, refl)

try_acquire-Reaches_example :
    (m' : ℕ) × (t : System) × Steps 2 blocked m' t × (m' ≤ 9) × (t.pc 0 ≡ reclaiming)
try_acquire-Reaches_example =
    try_acquire-Reaches 2 6 0 1 2 blocked (omega arith) (omega arith) (omega arith) blocked-Reach
      blocked_waits.0
