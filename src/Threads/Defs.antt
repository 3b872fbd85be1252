-- ===== src/Threads/Defs.antt =====
-- Thread records, forkscan-changed/util.c, proc.c and thread.c. A record is known by its address, and both
-- lists are linked through its field `next`. A function that holds a mutex is one step. What the library
-- calls give is a parameter: the memory of the pools, and the outcome of `pthread_kill` for a thread.
use pp_final_project.Prelude.{
  ℕ, zero, suc, ◌+◌, ◌-◌, ◌*◌, ◌%◌, ◌^◌, Bool, true, false, not, ltb, leb, ◌==◌, ◌&&◌,
  if◌then◌else◌, List, [], ◌∷◌, ◌++◌, Option, none, some, Run, done, fail, assertion, fatal,
  out_of_fuel, ◌>>=◌, ◌>>◌, assert,
}
use pp_final_project.Pool.Defs.{Pool, pool_alloc, pool_free, buffer_freestack}

-- `thread_data_t`, less the fields of the lock, of the retired pointers, of their freeing, of `local_block`
-- (never read) and of the user's routine.
-- `ref_count` is an `int`, here its pattern of 32 bits; `list_e` is `ptr_list.e`.
pub record Td : Type 0 where
  pub next : Option ℕ
  pub self : ℕ
  pub user_stack_low : ℕ
  pub user_stack_high : ℕ
  pub stack_is_ours : Bool
  pub is_active : Bool
  pub list_e : ℕ
  pub wait_time_ms : ℕ
  pub ref_count : ℕ

pub record Threads : Type 0 where
  pub td : ℕ → Td
  -- `thread_list`
  pub head : Option ℕ
  pub count : ℕ
  -- `g_td_staged_to_free`
  pub staged : Option ℕ
  pub td_pool : Pool
  pub list_pool : Pool
  pub stack_pool : Pool
  pub total_wait_time_ms : ℕ

abbrev pub put : (ℕ → Td) → ℕ → Td → ℕ → Td
put f i t j = if i == j then t else f j

abbrev pub store : Threads → ℕ → Td → Threads
store s i t = record s { td = put s.td i t }

abbrev pub same_ptr : Option ℕ → ℕ → Bool
same_ptr none i = false
same_ptr (some j) i = j == i

abbrev pub is_null : Option ℕ → Bool
is_null none = true
is_null (some j) = false

-- `threaddata` and `ptrlist` are pools with batches of 8; the two numbers are what `mmap` returns if
-- memory is mapped. The queue of the record is an empty one in `local_list`.
unfoldable pub thread_data_new : ℕ → ℕ → ℕ → ℕ → Threads → ℕ × Threads
thread_data_new td_arr list_arr td_size ptrs_per_thread s =
    let t = pool_alloc td_size 8 td_arr s.td_pool in
    let local_list = pool_alloc (ptrs_per_thread * 8) 8 list_arr s.list_pool in
    (
      t.0,
      record (store s t.0 (record (s.td t.0) { list_e = local_list.0; ref_count = 1 })) {
        td_pool = t.1;
        list_pool = local_list.1;
      },
    )

-- The value of `ref_count` after `__sync_fetch_and_sub(&td->ref_count, 1)`
abbrev pub decrement : ℕ → ℕ
decrement n = (n + (2 ^ 32 - 1)) % 2 ^ 32

abbrev pub increment : ℕ → ℕ
increment n = (n + 1) % 2 ^ 32

unfoldable pub thread_data_decr_ref : ℕ → Threads → Threads
thread_data_decr_ref i s =
    let left = decrement (s.td i).ref_count in
    let s' = store s i (record (s.td i) { ref_count = left }) in
    if left == 0
    then record (store s' i (record (s'.td i) { next = s.staged })) { staged = some i }
    else s'

unfoldable pub thread_data_free : ℕ → Threads → Run Threads
thread_data_free i s = do
  assert ((s.td i).ref_count == 0)
  done (record s {
    list_pool = pool_free (s.td i).list_e s.list_pool;
    td_pool = pool_free i s.td_pool;
  })

-- The `while` of `thread_data_cleanup`: the last values of `last` and `td`. The list ends, since the
-- assertion on `td` fails at its end, and fuel above its length is enough.
unfoldable pub find_staged : ℕ → ℕ → Threads → Option ℕ → ℕ → Run (Option ℕ × ℕ)
find_staged zero tid s last i = fail out_of_fuel
find_staged (suc fuel) tid s last i = elim ((s.td i).self == tid) [
  | true ↦ done (last, i)
  | false ↦ elim ((s.td i).next) [
    | none ↦ fail assertion
    | some j ↦ find_staged fuel tid s (some i) j
  ]
]

unfoldable pub unlink_staged : Option ℕ → ℕ → Threads → Threads
unlink_staged none i s = record s { staged = (s.td i).next }
unlink_staged (some last) i s = store s last (record (s.td last) { next = (s.td i).next })

-- What follows the search.
unfoldable pub cleanup_found : ℕ → Threads → Run Threads
cleanup_found i s = elim (ltb 0 (s.td i).ref_count && ltb (s.td i).ref_count (2 ^ 31)) [
  | true ↦ fail fatal
  | false ↦ thread_data_free i (
      if (s.td i).stack_is_ours
      then record s { stack_pool = buffer_freestack (s.td i).user_stack_low s.stack_pool }
      else s)
]

unfoldable pub thread_data_cleanup : ℕ → ℕ → Threads → Run Threads
thread_data_cleanup fuel tid s = elim (s.staged) [
  | none ↦ fail assertion
  | some i ↦ find_staged fuel tid s none i >>= λ r. cleanup_found r.1 (unlink_staged r.0 r.1 s)
]

unfoldable pub thread_list_init : Threads → Threads
thread_list_init s = elim (s.head) [ none ↦ record s { count = 0 } | some i ↦ s ]

unfoldable pub thread_list_add : ℕ → Threads → Threads
thread_list_add i s = record (store s i (record (s.td i) { next = s.head })) {
  head = some i;
  count = (s.count + 1) % 2 ^ 32;
}

-- The `while` of `thread_list_remove`: the record before `i`.
unfoldable pub find_before : ℕ → ℕ → Threads → ℕ → Run ℕ
find_before zero i s tmp = fail out_of_fuel
find_before (suc fuel) i s tmp = elim (same_ptr (s.td tmp).next i) [
  | true ↦ done tmp
  | false ↦ elim ((s.td tmp).next) [ none ↦ fail assertion | some j ↦ find_before fuel i s j ]
]

unfoldable pub unlink : ℕ → ℕ → Threads → ℕ → Run Threads
unlink fuel i s tmp = elim (tmp == i) [
  | true ↦ done (record s { head = (s.td i).next })
  | false ↦ do
    before ← find_before fuel i s tmp
    done (store s before (record (s.td before) { next = (s.td i).next }))
]

unfoldable pub thread_list_remove : ℕ → ℕ → Threads → Run Threads
thread_list_remove fuel i s = elim (s.head) [
  | none ↦ fail assertion
  | some tmp ↦ do
    s' ← unlink fuel i s tmp
    assert (ltb 0 s'.count)
    done (record s' { count = s'.count - 1 })
]

-- The `for` of `thread_list_find`.
unfoldable pub thread_list_find : ℕ → ℕ → Threads → Option ℕ → Run (Option ℕ × Threads)
thread_list_find fuel addr s none = done (none, s)
thread_list_find zero addr s (some i) = fail out_of_fuel
thread_list_find (suc fuel) addr s (some i) =
    elim (leb (s.td i).user_stack_low addr && ltb addr (s.td i).user_stack_high) [
      | true ↦
          done (some i, store s i (record (s.td i) { ref_count = increment (s.td i).ref_count }))
      | false ↦ thread_list_find fuel addr s (s.td i).next
    ]

unfoldable pub proc_add_thread_data : ℕ → Threads → Threads
proc_add_thread_data i s = thread_list_add i (thread_list_init s)

unfoldable pub proc_remove_thread_data : ℕ → ℕ → Threads → Run Threads
proc_remove_thread_data fuel i s = thread_list_remove fuel i s

-- The end of the thread whose record is `i`.
unfoldable pub thread_cleanup : ℕ → ℕ → Threads → Run Threads
thread_cleanup fuel i s = do
  s1 ← proc_remove_thread_data fuel i (store s i (record (s.td i) { is_active = false }))
  let s2 = record s1 { total_wait_time_ms = s1.total_wait_time_ms + (s1.td i).wait_time_ms }
  done (thread_data_decr_ref i s2)

-- The outcomes of `pthread_kill` that the code tells apart.
pub data Kill : Type 0 where
  sent einval esrch : Kill

-- A thread of the list of signals: it gets one if it is active, and not the one left out.
abbrev pub selected : Option ℕ → ℕ → Td → Bool
selected except i t = not (same_ptr except i) && t.is_active

unfoldable pub after_kill : Kill → (ℕ → Run (ℕ × List ℕ)) → ℕ → Run (ℕ × List ℕ)
after_kill einval rest signal_count = fail fatal
after_kill esrch rest signal_count = rest signal_count
after_kill sent rest signal_count = rest (signal_count + 1)

-- The loop over the thread list of `proc_signal_all_except` and `proc_signal`; `kill` is what
-- `pthread_kill` returns for a thread, and `calls` the threads that it was called for.
unfoldable pub signal_loop :
    ℕ → (ℕ → Kill) → Option ℕ → Threads → Option ℕ → ℕ → List ℕ → Run (ℕ × List ℕ)
signal_loop fuel kill except s none signal_count calls = done (signal_count, calls)
signal_loop zero kill except s (some i) signal_count calls = fail out_of_fuel
signal_loop (suc fuel) kill except s (some i) signal_count calls =
    elim (selected except i (s.td i)) [
      | true ↦
          after_kill (kill (s.td i).self)
            (λ n. signal_loop fuel kill except s (s.td i).next n (calls ++ (s.td i).self ∷ []))
            signal_count
      | false ↦ signal_loop fuel kill except s (s.td i).next signal_count calls
    ]

-- The value returned, with the calls of `pthread_kill`.
unfoldable pub proc_signal_all_except : ℕ → (ℕ → Kill) → ℕ → Threads → Run (ℕ × List ℕ)
proc_signal_all_except fuel kill except s = signal_loop fuel kill (some except) s s.head 0 []

unfoldable pub proc_signal : ℕ → (ℕ → Kill) → Threads → Run (ℕ × List ℕ)
proc_signal fuel kill s = signal_loop fuel kill none s s.head 0 []

-- `me` is the record of the calling thread.
unfoldable pub thread_signal_all_but_me : ℕ → (ℕ → Kill) → ℕ → Threads → Run (ℕ × List ℕ)
thread_signal_all_but_me fuel kill me s = proc_signal_all_except fuel kill me s
