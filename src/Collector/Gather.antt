-- ===== src/Collector/Gather.antt =====
-- `aggregate_addrs` of forkscan-changed/forkscan.c, which gathers the addresses of a collection in one
-- buffer.
use pp_final_project.Prelude.{
  ℕ, zero, suc, ◌+◌, ◌*◌, true, false, not, ltb, ◌==◌, max, if◌then◌else◌, Option, none, some, Run,
  done, fail, out_of_fuel, ◌>>=◌, ◌>>◌, assert,
}
use pp_final_project.Buffer.Lists.{Store, load, store, make_aggregate_buffer, release_buffer}
use pp_final_project.Queue.Defs.{memcpy}

-- The `do` loop: the number of addresses, and `list_count`.
unfoldable pub count_loop : ℕ → Store → ℕ → ℕ → ℕ → Run (ℕ × ℕ)
count_loop zero s i n_addrs list_count = fail out_of_fuel
count_loop (suc fuel) s i n_addrs list_count = do
  tmp ← load s i
  elim (tmp.next) [
    | none ↦ done (n_addrs + tmp.n_addrs, suc list_count)
    | some j ↦ count_loop fuel s j (n_addrs + tmp.n_addrs) (suc list_count)
  ]

-- `old ? old->n_addrs : 0`
unfoldable pub old_count : Store → Option ℕ → Run ℕ
old_count s none = done 0
old_count s (some i) = do old ← load s i; done old.n_addrs

-- A new buffer for `n` addresses, and for as many as the first buffer of the list can hold.
unfoldable pub new_aggregate : ℕ → ℕ → Store → Run (Store × ℕ)
new_aggregate n data_list s = do
  first ← load s data_list
  (s1, ret) ← make_aggregate_buffer (if ltb first.capacity n then n else first.capacity) s
  rb ← load s1 ret
  done (store s1 ret (record rb { next = none }), ret)

-- The old addresses are moved into the new buffer.
unfoldable pub move_old : ℕ → Store → ℕ → Run Store
move_old i s ret = do
  old ← load s i
  rb ← load s ret
  addrs ← memcpy rb.addrs 0 old.addrs 0 old.n_addrs
  release_buffer i (store s ret (record rb { addrs = addrs; n_addrs = old.n_addrs }))

-- The buffer that the addresses go to: the old one if it is large enough, or a new one.
unfoldable pub aggregate_buffer : Option ℕ → ℕ → ℕ → Store → Run (Store × ℕ)
aggregate_buffer none n data_list s = new_aggregate n data_list s
aggregate_buffer (some i) n data_list s = do
  old ← load s i
  elim (ltb n old.capacity) [
    | true ↦ done (s, i)
    | false ↦ do (s1, ret) ← new_aggregate n data_list s; s2 ← move_old i s1 ret; done (s2, ret)
  ]

-- The `while` that copies the addresses of each buffer of the list.
unfoldable pub gather_loop : ℕ → ℕ → Store → Option ℕ → Run Store
gather_loop fuel ret s none = done s
gather_loop zero ret s (some i) = fail out_of_fuel
gather_loop (suc fuel) ret s (some i) = do
  ab ← load s i
  rb ← load s ret
  addrs ← memcpy rb.addrs rb.n_addrs ab.addrs 0 ab.n_addrs
  gather_loop fuel ret
      (store s ret (record rb { addrs = addrs; n_addrs = rb.n_addrs + ab.n_addrs })) ab.next

-- The buffers, the aggregate and `g_frees_required`. Loops over the list run on fuel above the number of
-- buffers.
unfoldable pub aggregate_addrs : Option ℕ → ℕ → Store → Run (Store × ℕ × ℕ)
aggregate_addrs old data_list s = do
  n_old ← old_count s old
  (n_addrs, list_count) ← count_loop (suc s.fresh) s data_list n_old 0
  assert (not (n_addrs == 0))
  (s1, ret) ← aggregate_buffer old n_addrs data_list s
  s2 ← gather_loop (suc s.fresh) ret s1 (some data_list)
  rb ← load s2 ret
  assert (rb.n_addrs == n_addrs)
  done (s2, ret, max (list_count * 8) 8)
