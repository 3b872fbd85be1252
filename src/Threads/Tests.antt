-- ===== src/Threads/Tests.antt =====
-- Two registered threads and one that has exited.
use pp_final_project.Prelude.{
  ℕ, ◌+◌, ◌*◌, ◌≡◌, ◌≢◌, refl, true, false, [], ◌∷◌, Option, none, some, done, Returns, arith, ◌==◌,
  if◌then◌else◌,
}
use pp_final_project.Threads.Defs.{
  Td, Threads, Kill, sent, esrch, thread_cleanup, thread_data_cleanup, proc_signal,
  proc_signal_all_except, signal_loop, after_kill,
}
use pp_final_project.Threads.Registry.{Registry}
use pp_final_project.Threads.Exit.{GivenBack, thread_data_cleanup-Registry, thread_cleanup-Registry}
use pp_final_project.Threads.Signal.{active, others, signalled, proc_signal_lem}

abbrev thread : Option ℕ → ℕ → ℕ → Td
thread next self refs = record {
  next = next;
  self = self;
  user_stack_low = self * 4096;
  user_stack_high = self * 4096 + 4096;
  stack_is_ours = true;
  is_active = true;
  list_e = self * 100;
  wait_time_ms = 0;
  ref_count = refs;
}

-- Records 1 and 2 are registered, 3 waits for its clean-up.
abbrev threads : Threads
threads = record {
  td = λ i.
      if i == 1
      then thread (some 2) 11 1
      else if i == 2
      then thread none 12 1
      else thread none 13 0;
  head = some 1;
  count = 2;
  staged = some 3;
  td_pool = record { nodes = [] };
  list_pool = record { nodes = [] };
  stack_pool = record { nodes = [] };
  total_wait_time_ms = 0;
}

threads-Registry : Registry threads (1 ∷ 2 ∷ []) (3 ∷ [])
threads-Registry = record {
  chain = (refl, (refl, refl));
  staged_chain = (refl, refl);
  distinct = omega arith;
  staged_distinct = omega arith;
  apart = omega arith;
  counted = refl;
}

-- The second thread does not exist any more.
abbrev kill : ℕ → Kill
kill tid = if tid == 12 then esrch else sent

one_signal : proc_signal 2 kill threads ≡ done (1, 11 ∷ 12 ∷ [])
unfolding proc_signal signal_loop after_kill
one_signal = refl

thread_cleanup-Registry_example : Returns (thread_cleanup 2 2 threads) (λ s'.
    Registry s' (1 ∷ []) (2 ∷ 3 ∷ [])
    × (s'.td 2 ≡ record (threads.td 2) { next = (s'.td 2).next; is_active = false; ref_count = 0 })
    × ((j : ℕ) → 2 ≢ j → s'.td j ≡ record (threads.td j) { next = (s'.td j).next })
    × (s'.td_pool ≡ threads.td_pool)
    × (s'.list_pool ≡ threads.list_pool)
    × (s'.stack_pool ≡ threads.stack_pool)
    × (s'.total_wait_time_ms ≡ 0 + 0))
thread_cleanup-Registry_example =
    thread_cleanup-Registry 2 2 threads (1 ∷ []) [] (3 ∷ []) threads-Registry refl (omega arith)

thread_data_cleanup-Registry_example :
    Returns
      (thread_data_cleanup 1 13 threads)
      (λ s'. Registry s' (1 ∷ 2 ∷ []) [] × GivenBack 3 threads s')
thread_data_cleanup-Registry_example =
    thread_data_cleanup-Registry 0 13 3 threads (1 ∷ 2 ∷ []) [] [] threads-Registry tt refl refl
      (omega arith)

proc_signal_lem_example :
    (proc_signal_all_except 2 kill 1 threads
      ≡ signalled kill (active threads.td (others 1 (1 ∷ 2 ∷ []))) 0 [])
    × (proc_signal 2 kill threads ≡ signalled kill (active threads.td (1 ∷ 2 ∷ [])) 0 [])
proc_signal_lem_example =
    proc_signal_lem 2 kill 1 threads (1 ∷ 2 ∷ []) (3 ∷ []) threads-Registry (omega arith)
