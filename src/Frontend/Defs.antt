-- ===== src/Frontend/Defs.antt =====
-- `generate_working_pointers_list` of forkscan-changed/frontend.c.
use pp_final_project.Prelude.{
  ℕ, ◌+◌, ◌-◌, ◌*◌, not, List, [], ◌∷◌, ◌++◌, take, drop, get_elem?, Run, done, ◌>>=◌, ◌>>◌, read,
  assert,
}
use pp_final_project.Buffer.Defs.{AddrBuffer}
use pp_final_project.Buffer.Lists.{max_thread_count}
use pp_final_project.Queue.Defs.{Queue, is_full, pop_bulk}

-- `g_config.max_ptrs`, as `register_signal_handlers` sets it
abbrev pub max_ptrs : ℕ → ℕ
max_ptrs ptrs_per_thread = ptrs_per_thread * max_thread_count

-- The loop over the thread list, with the queue of each thread: the addresses, their number and the
-- queues. `n` is at most `max` in each round, so the difference is not negative.
unfoldable pub gather_queues : ℕ → List Queue → List ℕ → ℕ → Run (List ℕ × ℕ × List Queue)
gather_queues max [] addrs n = done (addrs, n, [])
gather_queues max (q ∷ qs) addrs n = do
  (values, popped, q') ← pop_bulk (drop n addrs) (max - n) q
  (addrs', n', qs') ← gather_queues max qs (take n addrs ++ values) (n + popped)
  done (addrs', n', q' ∷ qs')

-- `mine` is the place of the calling thread in the list.
unfoldable pub generate_working_pointers_list :
    ℕ → ℕ → List Queue → AddrBuffer → Run (AddrBuffer × List Queue)
generate_working_pointers_list max mine queues ab = do
  (addrs, n, queues') ← gather_queues max queues ab.addrs 0
  own ← read (get_elem? queues' mine)
  full ← is_full own
  assert (not full)
  done (record ab { addrs = addrs; n_addrs = n }, queues')
