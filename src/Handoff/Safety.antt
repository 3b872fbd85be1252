-- ===== src/Handoff/Safety.antt =====
-- The steps of `forkscan_thread` of forkscan-changed/forkscan.c, and what holds in every run.
use mathlib.Core.Path.{subst}
use pp_final_project.Prelude.{
  ◌⊎◌, done, fail, assertion, sym, ℕ, ◌<◌, ◌≡◌, ◌≢◌, refl, ap, ◌∙◌, Bool, true, false, ltb, leb,
  if◌then◌else◌, List, [], ◌∷◌, ◌++◌, length, Returns, Returns-imp, arith, Bool-cases, inl, inr,
}
use pp_final_project.Handoff.Defs.{
  Gc, at_top, sleeping, signalled, woken, broadcasting, reclaiming, Client, outside, throttled,
  checking, asleep, System, has_gc_mutex, wake, take_buffers, after_wait, collect,
}
use pp_final_project.Handoff.Invariant.{
  Reach, start, hand_over, wait_for_turn, wake_spuriously, work, handed, GcHolds, Inv, Inv-init,
  WillWake-le, hand_over-Inv, throttle-Inv, wake_up-Inv,
}

awake : (c : Client) → wake c ≢ asleep
unfolding wake
awake outside e = cc
awake throttled e = cc
awake checking e = cc
awake asleep e = cc

after_take-GcHolds :
    (b f : Bool) (ab : List ℕ) → GcHolds (if b then broadcasting ab else reclaiming ab) 0 f
after_take-GcHolds true f ab = tt
after_take-GcHolds false f ab = tt

module _ (queue : ℕ) (l : List ℕ) (s : System) (inv : Inv queue l s) where
  take_buffers-Inv :
      (f : Bool) (abs : List ℕ)
      → has_gc_mutex s.gc ≡ false
      → s.addr_buffer ≡ abs
      → 0 < length abs
      → Returns (take_buffers queue (record s { gc_waiting = f }) abs) (Inv queue l)
  unfolding take_buffers
  take_buffers-Inv f [] free e h = absurd (omega arith)
  take_buffers-Inv f (ab ∷ rest) free e h = record {
    listed = inv.listed ∙ ap (λ abs. abs ++ handed s.rounds) e;
    stocked = λ q. absurd (omega arith);
    gc_holds = after_take-GcHolds (leb queue s.waiting_collects) f (ab ∷ rest);
    will_wake = λ i q. elim (Bool-cases (leb queue s.waiting_collects)) [
      | inl full ↦ rw full tt
      | inr low ↦
          let below = WillWake-le queue s.gc s.waiting_collects free (inv.will_wake i q) in
          absurd (ground arith)
    ];
  }

  -- The collector thread was woken up without a signal, and no buffer waits: its assertion fails.
  abbrev pub Stalled : Type 0
  Stalled = (s.gc ≡ woken) × (s.addr_buffer ≡ [])

  woken-Inv :
      (abs : List ℕ)
      → s.gc ≡ woken
      → s.addr_buffer ≡ abs
      → Returns (after_wait queue s) (Inv queue l) ⊎ Stalled
  unfolding after_wait has_gc_mutex
  woken-Inv [] e f = inr (e, f)
  woken-Inv (ab ∷ rest) e f =
      inl (take_buffers-Inv false s.addr_buffer (rw e refl) refl (rw f (omega arith)))

  collect-Inv : (g : Gc) → s.gc ≡ g → Returns (collect queue g s) (Inv queue l) ⊎ Stalled
  unfolding collect after_wait has_gc_mutex
  collect-Inv at_top e = elim (Bool-cases (ltb s.waiting_collects 1)) [
    | inl few ↦
        rw (few, collect)
          (inl (record {
            listed = inv.listed;
            stocked = inv.stocked;
            gc_holds = (ground arith, refl);
            will_wake =
                λ i q. WillWake-le queue s.gc s.waiting_collects (rw e refl) (inv.will_wake i q);
          }))
    | inr some_work ↦
        rw (some_work, collect)
          (inl (
            take_buffers-Inv s.gc_waiting s.addr_buffer (rw e refl) refl
              (inv.stocked (ground arith))))
  ]
  collect-Inv sleeping e = inl inv
  collect-Inv signalled e = inl (
      take_buffers-Inv false s.addr_buffer (rw e refl) refl
        (inv.stocked (subst (λ g. GcHolds g s.waiting_collects s.gc_waiting) e inv.gc_holds)))
  collect-Inv woken e = woken-Inv s.addr_buffer e refl
  collect-Inv (broadcasting ab) e = inl (record {
    listed = inv.listed;
    stocked = inv.stocked;
    gc_holds = tt;
    will_wake = λ i q. absurd (awake (s.clients i) q);
  })
  collect-Inv (reclaiming ab) e = inl (record {
    listed = inv.listed;
    stocked = inv.stocked;
    gc_holds = tt;
    will_wake = λ i q. WillWake-le queue s.gc s.waiting_collects (rw e refl) (inv.will_wake i q);
  })

-- Then the assertion fails.
stalled-fails :
    (queue : ℕ) (s : System)
    → s.gc ≡ woken
    → s.addr_buffer ≡ []
    → collect queue s.gc s ≡ fail assertion
unfolding collect after_wait take_buffers
stalled-fails queue s e f = rw (e, collect) (rw (f, take_buffers) refl)

pub Reach-Inv : {queue : ℕ} {l : List ℕ} {s : System} → Reach queue l s → Inv queue l s
Reach-Inv {queue} start = Inv-init queue
Reach-Inv {queue} (hand_over {l} {s} i ab auto_run force free out r) =
    hand_over-Inv queue l s (Reach-Inv r) i ab auto_run force free
Reach-Inv {queue} (wait_for_turn {l} {s} i r) = throttle-Inv queue l s (Reach-Inv r) i (s.clients i)
Reach-Inv {queue} {l} (wake_spuriously {s = s} e r) = wake_up-Inv queue l s (Reach-Inv r) e
Reach-Inv {queue} {l} (work {s = s} t e r) = elim (collect-Inv queue l s (Reach-Inv r) s.gc refl) [
  | inl h ↦ subst (λ m. Returns m (Inv queue l)) e h
  | inr stalled ↦ absurd (clash (sym (stalled-fails queue s stalled.0 stalled.1) ∙ e))
]
  where
    clash : {t : System} → fail assertion ≢ done t
    clash {t} q = cc

-- In every run, the collector thread being free to wake up without a signal: the buffers handed over so
-- far, the last first, are exactly those still linked from `g_addr_buffer` and then those of the rounds of
-- reclamation, the last round first, so that none is lost, and none is in two rounds. And the next step of
-- `forkscan_thread` returns and keeps this, so its assertion holds, or the thread has been woken up without
-- a signal while no buffer waits.
pub Reach-Whole :
    {queue : ℕ} {l : List ℕ} {s : System}
    → Reach queue l s
    → (l ≡ s.addr_buffer ++ handed s.rounds)
      × (Returns (collect queue s.gc s) (λ t. l ≡ t.addr_buffer ++ handed t.rounds)
          ⊎ (s.gc ≡ woken) × (s.addr_buffer ≡ []))
Reach-Whole {queue} {l} {s} r =
    let inv = Reach-Inv r in
    (
      inv.listed,
      elim (collect-Inv queue l s inv s.gc refl) [
        | inl h ↦ inl (Returns-imp (collect queue s.gc s) (λ t inv'. inv'.listed) h)
        | inr stalled ↦ inr stalled
      ],
    )
