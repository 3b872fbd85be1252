-- ===== src/Lock/Defs.antt =====
-- The timestamps of forkscan-changed/thread.c and util.h, and the wait of proc.c for the threads that
-- help: each function one atomic access of shared memory at a time. The threads are numbered, in the
-- order of the thread list.
use pp_final_project.Prelude.{ℕ, suc, ◌+◌, ◌%◌, ◌^◌, Bool, not, ◌&&◌, ltb, leb, ◌==◌, if◌then◌else◌}

-- `_TIMESTAMP_FLAG`
abbrev pub timestamp_flag : ℕ
timestamp_flag = 2 ^ 63

-- `TIMESTAMP`: the mask is one bit short of the word.
abbrev pub timestamp : ℕ → ℕ
timestamp field = field % timestamp_flag

-- `TIMESTAMP_RAISE_FLAG` and `TIMESTAMP_SET_ACTIVE`
abbrev pub raise_flag : ℕ → ℕ
raise_flag field = field % timestamp_flag + timestamp_flag

-- `TIMESTAMP_IS_ACTIVE`, of a 64-bit field
abbrev pub is_active : ℕ → Bool
is_active field = leb timestamp_flag field

-- The fields of `thread_data_t` that the lock uses.
pub record ThreadData : Type 0 where
  pub local_timestamp : ℕ
  pub times_without_update : ℕ

-- Where a thread stands in the functions of the lock, with its local variables.
pub data Pc : Type 0 where
  -- outside them
  idle : Pc
  -- `raise_flag`: the old timestamp is flagged, the global one not read yet
  raising : (old : ℕ) → Pc
  -- `raise_flag`: the global timestamp is read
  raised : (old curr : ℕ) → Pc
  -- between `raise_flag` and `lower_flag`
  helping : Pc
  -- `try_acquire`: the global timestamp is read and is not active
  attempting : (old : ℕ) → Pc
  -- `wait_for_timestamp`, at thread `k` of the list
  waiting : (k curr : ℕ) → Pc
  -- `try_acquire` returned 1
  reclaiming : Pc
  -- `release`: the global timestamp is read
  releasing : (stamp : ℕ) → Pc

pub record System : Type 0 where
  pub global_timestamp : ℕ
  pub td : ℕ → ThreadData
  pub pc : ℕ → Pc

-- What a thread outside the functions calls.
pub data Call : Type 0 where
  raise : Call
  try_acquire : Call

abbrev pub update {ℓ} : {A : Type ℓ} → (ℕ → A) → ℕ → A → ℕ → A
update f i a j = if i == j then a else f j

-- `updated` is false: the counter goes up to 2, unless a reclaimer is active.
abbrev pub times_after : ℕ → ℕ → ℕ → ℕ
times_after old curr times =
    if timestamp curr == old
    then (if not (is_active curr) && ltb times 2 then suc times else times)
    else 0

module _ (n : ℕ) (i : ℕ) (s : System) where
  abbrev pub with_local : ThreadData → Pc → System
  with_local d p = record s { td = update s.td i d; pc = update s.pc i p }

  abbrev pub at : Pc → System
  at p = with_local (s.td i) p

  unfoldable pub cleanup_raise_flag : System
  cleanup_raise_flag =
      let old = (s.td i).local_timestamp in
      with_local (record (s.td i) { local_timestamp = raise_flag old }) (raising old)

  unfoldable pub raise_flag_read : ℕ → System
  raise_flag_read old = at (raised old s.global_timestamp)

  unfoldable pub raise_flag_write : ℕ → ℕ → System
  raise_flag_write old curr =
      with_local
        (record {
          local_timestamp = raise_flag curr;
          times_without_update = times_after old curr (s.td i).times_without_update;
        })
        helping

  unfoldable pub cleanup_lower_flag : System
  cleanup_lower_flag =
      with_local (record (s.td i) { local_timestamp = timestamp (s.td i).local_timestamp }) idle

  unfoldable pub cleanup_try_acquire : System
  cleanup_try_acquire =
      if is_active s.global_timestamp then at idle else at (attempting s.global_timestamp)

  -- The compare-and-swap.
  unfoldable pub swap_timestamp : ℕ → System
  swap_timestamp old =
      if s.global_timestamp == old
      then record (at (waiting 0 (timestamp (raise_flag (old + 1))))) {
        global_timestamp = raise_flag (old + 1);
      }
      else at idle

  -- One read of the timestamp of thread `k`: it is waited for, or the loop goes on to the next.
  unfoldable pub wait_for_timestamp : ℕ → ℕ → System
  wait_for_timestamp k curr =
      let stamp = (s.td k).local_timestamp in
      if k == n
      then at reclaiming
      else if is_active stamp && not (timestamp stamp == curr)
      then s
      else at (waiting (suc k) curr)

  unfoldable pub cleanup_release : System
  cleanup_release = at (releasing s.global_timestamp)

  unfoldable pub release_write : ℕ → System
  release_write stamp = record (at idle) { global_timestamp = timestamp stamp }

  unfoldable pub begin : Call → System
  begin raise = cleanup_raise_flag
  begin try_acquire = cleanup_try_acquire

  unfoldable pub resume : Call → Pc → System
  resume call idle = begin call
  resume call (raising old) = raise_flag_read old
  resume call (raised old curr) = raise_flag_write old curr
  resume call helping = cleanup_lower_flag
  resume call (attempting old) = swap_timestamp old
  resume call (waiting k curr) = wait_for_timestamp k curr
  resume call reclaiming = cleanup_release
  resume call (releasing stamp) = release_write stamp

-- The next access of thread `i`, of `n` threads.
abbrev pub step : ℕ → ℕ → Call → System → System
step n i call s = resume n i s call (s.pc i)
