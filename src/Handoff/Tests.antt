-- ===== src/Handoff/Tests.antt =====
-- A run of forkscan-changed/forkscan.c in which a client waits for the collector thread.
use pp_final_project.Prelude.{◌≡◌, refl, false, [], ◌∷◌, ◌++◌, Returns, fail, assertion, ◌⊎◌, arith}
use pp_final_project.Handoff.Defs.{
  System, sleeping, woken, wake_up, after_wait, take_buffers, asleep, has_gc_mutex,
  initiate_collection, throttle, collect,
}
use pp_final_project.Handoff.Invariant.{
  Reach, init, start, wake_spuriously, work, hand_over, wait_for_turn, handed,
}
use pp_final_project.Handoff.Safety.{Reach-Whole}
use pp_final_project.Handoff.Progress.{Woken, Reach-Woken}

-- Thread 0 has handed over the buffer 7.
abbrev full : System
full = initiate_collection 0 7 1 false init

abbrev tested : System
tested = throttle 1 0 (full.clients 0) full

abbrev stuck : System
stuck = throttle 1 0 (tested.clients 0) tested

stuck-Reach : Reach 1 (7 ∷ []) stuck
unfolding has_gc_mutex
stuck-Reach = wait_for_turn 0 (wait_for_turn 0 (hand_over 0 7 1 false refl refl start))

stuck_asleep : stuck.clients 0 ≡ asleep
unfolding throttle initiate_collection
stuck_asleep = refl

Reach-Whole_example :
    (7 ∷ [] ≡ stuck.addr_buffer ++ handed stuck.rounds)
    × (Returns (collect 1 stuck.gc stuck) (λ t. 7 ∷ [] ≡ t.addr_buffer ++ handed t.rounds)
        ⊎ (stuck.gc ≡ woken) × (stuck.addr_buffer ≡ []))
Reach-Whole_example = Reach-Whole stuck-Reach

Reach-Woken_example : Woken 1 0 stuck
Reach-Woken_example = Reach-Woken 0 (omega arith) stuck-Reach stuck_asleep

-- The collector thread sleeps at first; woken up without a signal, it fails its assertion.
abbrev sleeper : System
sleeper = record init { gc = sleeping }

sleeper-Reach : Reach 1 [] (wake_up sleeper)
unfolding collect
sleeper-Reach = wake_spuriously refl (work sleeper refl start)

assertion_fails : collect 1 (wake_up sleeper).gc (wake_up sleeper) ≡ fail assertion
unfolding collect wake_up after_wait take_buffers
assertion_fails = refl
