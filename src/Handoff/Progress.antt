-- ===== src/Handoff/Progress.antt =====
-- The clients that wait in `forkscan_initiate_collection` of forkscan-changed/forkscan.c are woken up.
use pp_final_project.Prelude.{
  ℕ, zero, suc, ◌≤◌, ◌<◌, ◌≡◌, refl, ap, true, false, ltb, leb, if◌then◌else◌, List, [], ◌∷◌,
  length, Run, done, ◌>>=◌, Returns, arith,
}
use pp_final_project.Handoff.Defs.{
  Gc, at_top, sleeping, signalled, woken, broadcasting, reclaiming, throttled, asleep, System, wake,
  take_buffers, after_wait, collect,
}
use pp_final_project.Handoff.Invariant.{Reach, GcHolds, WillWake, Inv}
use pp_final_project.Handoff.Safety.{Reach-Inv}

-- The collector thread takes `k` steps, and no other thread takes one.
unfoldable pub collect_steps : ℕ → ℕ → System → Run System
collect_steps queue zero s = done s
collect_steps queue (suc k) s = collect queue s.gc s >>= λ t. collect_steps queue k t

module _ (queue i : ℕ) where
  -- After at most three steps the client is awake.
  abbrev pub Woken : System → Type 0
  Woken s = (k : ℕ) × (k ≤ 3) × Returns (collect_steps queue k s) (λ t. t.clients i ≡ throttled)

  broadcast-Woken :
      (s : System) (ab : List ℕ)
      → s.gc ≡ broadcasting ab
      → s.clients i ≡ asleep
      → Returns (collect_steps queue 1 s) (λ t. t.clients i ≡ throttled)
  unfolding collect_steps collect wake
  broadcast-Woken s ab e h = rw (e, collect) (ap wake h)

  take-Woken :
      (s : System) (abs : List ℕ)
      → 0 < length abs
      → queue ≤ s.waiting_collects
      → s.clients i ≡ asleep
      → Returns
          (take_buffers queue s abs >>= λ t. collect_steps queue 1 t)
          (λ t. t.clients i ≡ throttled)
  unfolding take_buffers
  take-Woken s [] some_abs full h = absurd (omega arith)
  take-Woken s (ab ∷ rest) some_abs full h =
      let test : leb queue s.waiting_collects ≡ true = ground arith in
      broadcast-Woken
        (record s {
          waiting_collects = 0;
          addr_buffer = [];
          gc =
              if leb queue s.waiting_collects
              then broadcasting (ab ∷ rest)
              else reclaiming (ab ∷ rest);
          rounds = (ab ∷ rest) ∷ s.rounds;
        })
        (ab ∷ rest) (rw test refl) h

  -- The buffers are taken in the next step, and the clients woken up in the one after.
  at_top-Woken :
      (s : System)
      → s.gc ≡ at_top
      → 0 < s.waiting_collects
      → 0 < length s.addr_buffer
      → queue ≤ s.waiting_collects
      → s.clients i ≡ asleep
      → Returns (collect_steps queue 2 s) (λ t. t.clients i ≡ throttled)
  unfolding collect_steps collect
  at_top-Woken s e pos some_abs full h =
      let test : ltb s.waiting_collects 1 ≡ false = ground arith in
      rw (e, collect)
        (rw (test, collect) (take-Woken (record s { gc = at_top }) s.addr_buffer some_abs full h))

  signalled-Woken :
      (s : System)
      → s.gc ≡ signalled
      → 0 < length s.addr_buffer
      → queue ≤ s.waiting_collects
      → s.clients i ≡ asleep
      → Returns (collect_steps queue 2 s) (λ t. t.clients i ≡ throttled)
  unfolding collect_steps collect after_wait
  signalled-Woken s e some_abs full h =
      rw (e, collect)
        (take-Woken (record s { gc = signalled; gc_waiting = false }) s.addr_buffer some_abs full h)

  woken-Woken :
      (s : System)
      → s.gc ≡ woken
      → 0 < length s.addr_buffer
      → queue ≤ s.waiting_collects
      → s.clients i ≡ asleep
      → Returns (collect_steps queue 2 s) (λ t. t.clients i ≡ throttled)
  unfolding collect_steps collect after_wait
  woken-Woken s e some_abs full h =
      rw (e, collect)
        (take-Woken (record s { gc = woken; gc_waiting = false }) s.addr_buffer some_abs full h)

  reclaiming-Woken :
      (s : System) (ab : List ℕ)
      → s.gc ≡ reclaiming ab
      → 0 < s.waiting_collects
      → 0 < length s.addr_buffer
      → queue ≤ s.waiting_collects
      → s.clients i ≡ asleep
      → Returns (collect_steps queue 3 s) (λ t. t.clients i ≡ throttled)
  unfolding collect_steps collect
  reclaiming-Woken s ab e pos some_abs full h =
      rw (e, collect) (at_top-Woken (record s { gc = at_top }) refl pos some_abs full h)

  phase-Woken :
      (l : List ℕ) (s : System) (g : Gc)
      → 0 < queue
      → Inv queue l s
      → s.clients i ≡ asleep
      → s.gc ≡ g
      → GcHolds g s.waiting_collects s.gc_waiting
      → WillWake queue g s.waiting_collects
      → Woken s
  phase-Woken l s at_top pos inv h e holds full =
      (2, omega arith, at_top-Woken s e (omega arith) (inv.stocked (omega arith)) full h)
  phase-Woken l s sleeping pos inv h e holds full = absurd (omega (arith, holds.0))
  phase-Woken l s signalled pos inv h e holds full =
      (2, omega arith, signalled-Woken s e (inv.stocked holds) full h)
  phase-Woken l s woken pos inv h e holds full =
      (2, omega arith, woken-Woken s e (inv.stocked (omega arith)) full h)
  phase-Woken l s (broadcasting ab) pos inv h e holds full =
      (1, omega arith, broadcast-Woken s ab e h)
  phase-Woken l s (reclaiming ab) pos inv h e holds full =
      (3, omega arith, reclaiming-Woken s ab e (omega arith) (inv.stocked (omega arith)) full h)

-- In every run with a positive throttling queue, while a client sleeps in `forkscan_initiate_collection`,
-- the collector thread does not: if it takes the next steps alone, then after at most three of them, which
-- all return, the client is awake.
pub Reach-Woken :
    {queue : ℕ} {l : List ℕ} {s : System} (i : ℕ)
    → 0 < queue
    → Reach queue l s
    → s.clients i ≡ asleep
    → Woken queue i s
Reach-Woken {queue} {l} {s} i pos r h =
    let inv = Reach-Inv r in
    phase-Woken queue i l s s.gc pos inv h refl inv.gc_holds (inv.will_wake i h)
