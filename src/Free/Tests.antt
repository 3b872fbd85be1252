-- ===== src/Free/Tests.antt =====
-- Two threads free the addresses of one buffer.
use mathlib.Core.Path.{subst}
use pp_final_project.Prelude.{
  ℕ, zero, suc, ◌≡◌, ◌<◌, ◌%◌, ◌>>=◌, sym, map, Run, fail, ◌==◌, ◌⊎◌, inl, inr, refl, true, List,
  [], ◌∷◌, if◌then◌else◌, none, some, done, Returns, arith,
}
use pp_final_project.Buffer.Defs.{AddrBuffer}
use pp_final_project.Buffer.Lists.{get_retiree_buffer, share_first}
use pp_final_project.Buffer.Chain.{some_inj}
use pp_final_project.Scan.Defs.{is_marked}
use pp_final_project.Scan.Binary.{◌!◌}
use pp_final_project.Free.Defs.{
  World, outside, freeing, free_step, free_at, free_cell, read_free_idx, swap_free_idx, use_buffer,
  got_buffer, Reach, start, next,
}
use pp_final_project.Free.Invariant.{Once}
use pp_final_project.Free.Once.{Fresh, address_at, count_at, Reach-Once}

-- Two addresses, of which the second bears a mark, and a cell behind them that is left from an earlier use.
abbrev buffer : AddrBuffer
buffer = record {
  next = none;
  addrs = 4096 ∷ 8193 ∷ 12288 ∷ [];
  minimap = [];
  is_aggregate = true;
  n_addrs = 2;
  n_minimap = 0;
  capacity = 3;
  root_counter = 0;
  roots_completed = 0;
  ref_count = 1;
  free_idx = 0;
}

abbrev two_threads : World
two_threads = record {
  buffers = record {
    bufs = λ k. if k == 0 then some buffer else none;
    fresh = 1;
    default_capacity = 0;
    reclaimer_list = none;
    first_retiree = some 0;
    last_retiree = some 0;
    available_aggregates = none;
    dead_references = none;
  };
  tds = λ i. record {
    retiree_buffer = none;
    begin_retiree_idx = 0;
    end_retiree_idx = 0;
    place = outside;
  };
  freed = [];
}

buffer_of : (k : ℕ) (b : AddrBuffer) → two_threads.buffers.bufs k ≡ some b → buffer ≡ b
buffer_of zero b e = some_inj e
buffer_of (suc k) b e = ground arith

two_threads-Fresh : Fresh two_threads
two_threads-Fresh = record {
  idle = λ i. refl;
  none_freed = refl;
  sized = λ k b e. rw (← buffer_of k b e) (omega arith);
  clean = λ k b j e p.
      subst (λ b. (is_marked (b.addrs ! j) ≡ true) ⊎ (b.addrs ! j % 4 ≡ 0)) (buffer_of k b e)
        (cell j (subst (λ b. j < b.n_addrs) (sym (buffer_of k b e)) p));
}
  where
    cell : (j : ℕ) → j < 2 → (is_marked (buffer.addrs ! j) ≡ true) ⊎ (buffer.addrs ! j % 4 ≡ 0)
    cell zero p = inr refl
    cell (suc zero) p = inl refl
    cell (suc (suc j)) p = absurd (omega arith)

-- Both threads read `free_idx` before the first swaps it; the swap of the second fails.
abbrev schedule : List ℕ
schedule = 0 ∷ 0 ∷ 0 ∷ 0 ∷ 1 ∷ 1 ∷ 1 ∷ 1 ∷ 0 ∷ 1 ∷ 0 ∷ []

run : List ℕ → World → Run World
run [] w = done w
run (i ∷ l) w = free_step 8 w i >>= run l

world_of : Run World → World
world_of (done w) = w
world_of (fail e) = two_threads

last_world : World
last_world = world_of (run schedule two_threads)

freed_first : map (λ e. e.address) last_world.freed ≡ 4096 ∷ []
unfolding last_world world_of run free_step free_at free_cell read_free_idx swap_free_idx use_buffer
    got_buffer get_retiree_buffer share_first
freed_first = refl

-- Thread 1 claims both addresses between the two reads of thread 0, whose swap of 2 by 2 then succeeds: it
-- frees the cell behind the addresses.
past_world : World
past_world = world_of (run (0 ∷ 0 ∷ 0 ∷ 1 ∷ 1 ∷ 1 ∷ 1 ∷ 1 ∷ 0 ∷ 0 ∷ 0 ∷ []) two_threads)

freed_past : map (λ e. e.cell) past_world.freed ≡ 2 ∷ []
unfolding past_world world_of run free_step free_at free_cell read_free_idx swap_free_idx use_buffer
    got_buffer get_retiree_buffer share_first
freed_past = refl

run-Reach : (l : List ℕ) (w w1 w' : World) → Reach 8 w w1 → run l w1 ≡ done w' → Reach 8 w w'
unfolding run
run-Reach [] w w1 w' r e = subst (Reach 8 w) (done_inj e) r
  where
    done_inj : {a b : World} → done a ≡ done b → a ≡ b
    done_inj {a} {b} e = cc
run-Reach (i ∷ l) w w1 w' r e =
    go (free_step 8 w1 i) refl e (λ w2 h f. run-Reach l w w2 w' (next i r h) f)
  where
    go :
        (m : Run World)
        → free_step 8 w1 i ≡ m
        → (m >>= run l) ≡ done w'
        → ((w2 : World) → free_step 8 w1 i ≡ done w2 → run l w2 ≡ done w' → Reach 8 w w')
        → Reach 8 w w'
    go (done w2) h e rest = rest w2 h e
    go (fail x) h e rest = cc

schedule-Reach : Reach 8 two_threads last_world
unfolding last_world world_of run free_step free_at free_cell read_free_idx swap_free_idx use_buffer
    got_buffer get_retiree_buffer share_first
schedule-Reach = run-Reach schedule two_threads two_threads last_world start refl

Reach-Once_example :
    Once (count_at two_threads) (address_at two_threads) last_world.freed
    × ((i round : ℕ)
        → (last_world.tds i).place ≡ freeing round
        → (last_world.tds i).begin_retiree_idx < (last_world.tds i).end_retiree_idx
        → Returns (free_step 8 last_world i) (λ _. Unit))
Reach-Once_example = Reach-Once 8 two_threads last_world two_threads-Fresh schedule-Reach
