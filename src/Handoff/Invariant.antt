-- ===== src/Handoff/Invariant.antt =====
-- Runs of the hand-over of forkscan-changed/forkscan.c, and what holds in each state.
use mathlib.Core.Path.{subst}
use pp_final_project.Prelude.{
  ℕ, suc, ◌≤◌, ◌<◌, ◌≡◌, ◌≢◌, refl, ap, Bool, true, false, ◌&&◌, ◌||◌, ltb, leb, if◌then◌else◌,
  List, [], ◌∷◌, ◌++◌, length, done, arith, Bool-cases, inl, inr, ◌⊎◌, ◌==◌,
}
use pp_final_project.Handoff.Defs.{
  Gc, at_top, sleeping, signalled, woken, broadcasting, reclaiming, Client, outside, throttled,
  checking, asleep, System, update, has_gc_mutex, cond_signal, initiate_collection, throttle,
  wake_up, collect,
}

-- The state in which the process starts.
abbrev pub init : System
init = record {
  waiting_collects = 0;
  addr_buffer = [];
  gc_waiting = true;
  gc = at_top;
  clients = λ i. outside;
  rounds = [];
}

-- `Reach l s`: the process comes to `s`, and the buffers `l`, the last first, were handed over. Any thread
-- may take the next step; `g_gc_mutex` is free when a thread hands over a buffer; and the collector thread
-- may wake up without a signal. Clients wake up by a broadcast only.
pub data Reach (queue : ℕ) : List ℕ → System → Type 0 where
  start : Reach queue [] init
  hand_over :
      {l : List ℕ} {s : System} (i ab auto_run : ℕ) (force : Bool)
      → has_gc_mutex s.gc ≡ false
      → s.clients i ≡ outside
      → Reach queue l s
      → Reach queue (ab ∷ l) (initiate_collection i ab auto_run force s)
  wait_for_turn :
      {l : List ℕ} {s : System} (i : ℕ)
      → Reach queue l s
      → Reach queue l (throttle queue i (s.clients i) s)
  wake_spuriously :
      {l : List ℕ} {s : System} → s.gc ≡ sleeping → Reach queue l s → Reach queue l (wake_up s)
  work :
      {l : List ℕ} {s : System} (t : System)
      → collect queue s.gc s ≡ done t
      → Reach queue l s
      → Reach queue l t

-- All buffers of the rounds.
abbrev pub handed : List (List ℕ) → List ℕ
handed [] = []
handed (ab ∷ rounds) = ab ++ handed rounds

-- What the collector thread may count on.
abbrev pub GcHolds : Gc → ℕ → Bool → Type 0
GcHolds at_top w f = Unit
GcHolds sleeping w f = (w ≡ 0) × (f ≡ true)
GcHolds signalled w f = 0 < w
GcHolds woken w f = Unit
GcHolds (broadcasting ab) w f = Unit
GcHolds (reclaiming ab) w f = Unit

-- What a sleeping client may count on.
abbrev pub WillWake : ℕ → Gc → ℕ → Type 0
WillWake queue at_top w = queue ≤ w
WillWake queue sleeping w = queue ≤ w
WillWake queue signalled w = queue ≤ w
WillWake queue woken w = queue ≤ w
WillWake queue (broadcasting ab) w = Unit
WillWake queue (reclaiming ab) w = queue ≤ w

pub record Inv (queue : ℕ) (l : List ℕ) (s : System) : Type 0 where
  pub listed : l ≡ s.addr_buffer ++ handed s.rounds
  pub stocked : 0 < s.waiting_collects → 0 < length s.addr_buffer
  pub gc_holds : GcHolds s.gc s.waiting_collects s.gc_waiting
  pub will_wake : (i : ℕ) → s.clients i ≡ asleep → WillWake queue s.gc s.waiting_collects

pub Inv-init : (queue : ℕ) → Inv queue [] init
Inv-init queue = record {
  listed = refl;
  stocked = λ h. absurd (omega arith);
  gc_holds = tt;
  will_wake = λ i e. absurd (not_asleep e);
}
  where
    not_asleep : outside ≢ asleep
    not_asleep e = cc

update_cases :
    (f : ℕ → Client) (i j : ℕ) (c : Client)
    → update f i c j ≡ asleep
    → (c ≡ asleep) ⊎ (f j ≡ asleep)
update_cases f i j c e = elim (Bool-cases (i == j)) [
  | inl h ↦ inl (subst (λ b. (if b then c else f j) ≡ asleep) h e)
  | inr h ↦ inr (subst (λ b. (if b then c else f j) ≡ asleep) h e)
]

WillWake-of_le : (queue : ℕ) (g : Gc) (w : ℕ) → queue ≤ w → WillWake queue g w
WillWake-of_le queue at_top w h = h
WillWake-of_le queue sleeping w h = h
WillWake-of_le queue signalled w h = h
WillWake-of_le queue woken w h = h
WillWake-of_le queue (broadcasting ab) w h = tt
WillWake-of_le queue (reclaiming ab) w h = h

pub WillWake-le :
    (queue : ℕ) (g : Gc) (w : ℕ) → has_gc_mutex g ≡ false → WillWake queue g w → queue ≤ w
unfolding has_gc_mutex
WillWake-le queue at_top w free h = h
WillWake-le queue sleeping w free h = h
WillWake-le queue signalled w free h = h
WillWake-le queue woken w free h = h
WillWake-le queue (broadcasting ab) w free h = absurd (ground arith)
WillWake-le queue (reclaiming ab) w free h = h

-- The signal and the increment.
signal-GcHolds :
    (g : Gc) (w : ℕ) (f counts : Bool)
    → has_gc_mutex g ≡ false
    → GcHolds g w f
    → GcHolds (if f && counts then cond_signal g else g) (if counts then suc w else w) f
unfolding has_gc_mutex cond_signal
signal-GcHolds at_top w true true free h = tt
signal-GcHolds at_top w true false free h = tt
signal-GcHolds at_top w false counts free h = tt
signal-GcHolds sleeping w f true free h = rw h.1 (omega arith)
signal-GcHolds sleeping w f false free h = rw h.1 (h.0, refl)
signal-GcHolds signalled w true true free h = omega arith
signal-GcHolds signalled w true false free h = h
signal-GcHolds signalled w false true free h = omega arith
signal-GcHolds signalled w false false free h = h
signal-GcHolds woken w true true free h = tt
signal-GcHolds woken w true false free h = tt
signal-GcHolds woken w false counts free h = tt
signal-GcHolds (broadcasting ab) w f counts free h = absurd (ground arith)
signal-GcHolds (reclaiming ab) w true true free h = tt
signal-GcHolds (reclaiming ab) w true false free h = tt
signal-GcHolds (reclaiming ab) w false counts free h = tt

not_asleep : (b : Bool) → (if b then throttled else outside) ≢ asleep
not_asleep true e = cc
not_asleep false e = cc

module _ (queue : ℕ) (l : List ℕ) (s : System) (inv : Inv queue l s) where
  pub hand_over-Inv :
      (i ab auto_run : ℕ) (force : Bool)
      → has_gc_mutex s.gc ≡ false
      → Inv queue (ab ∷ l) (initiate_collection i ab auto_run force s)
  unfolding initiate_collection
  hand_over-Inv i ab auto_run force free =
      let counts = ltb 0 auto_run || force in
      record {
        listed = ap (λ t. ab ∷ t) inv.listed;
        stocked = λ h. omega arith;
        gc_holds = signal-GcHolds s.gc s.waiting_collects s.gc_waiting counts free inv.gc_holds;
        will_wake = λ j e.
            elim (update_cases s.clients i j (if ltb 0 auto_run then throttled else outside) e) [
              | inl new ↦ absurd (not_asleep (ltb 0 auto_run) new)
              | inr old ↦
                  let below =
                    WillWake-le queue s.gc s.waiting_collects free (inv.will_wake j old) in
                  WillWake-of_le queue (if s.gc_waiting && counts then cond_signal s.gc else s.gc)
                    (if counts then suc s.waiting_collects else s.waiting_collects)
                    (grown counts below)
            ];
      }
    where
      grown :
          (counts : Bool)
          → queue ≤ s.waiting_collects
          → queue ≤ (if counts then suc s.waiting_collects else s.waiting_collects)
      grown true h = omega arith
      grown false h = h

  -- A client goes to `c`.
  client-Inv :
      (i : ℕ) (c : Client)
      → (c ≡ asleep → queue ≤ s.waiting_collects)
      → Inv queue l (record s { clients = update s.clients i c })
  client-Inv i c h = record {
    listed = inv.listed;
    stocked = inv.stocked;
    gc_holds = inv.gc_holds;
    will_wake = λ j e. elim (update_cases s.clients i j c e) [
      | inl new ↦ WillWake-of_le queue s.gc s.waiting_collects (h new)
      | inr old ↦ inv.will_wake j old
    ];
  }

  pub throttle-Inv : (i : ℕ) (c : Client) → Inv queue l (throttle queue i c s)
  unfolding throttle
  throttle-Inv i outside = inv
  throttle-Inv i throttled =
      client-Inv i (if leb queue s.waiting_collects then checking else outside)
        (λ e. absurd (elsewhere (leb queue s.waiting_collects) e))
    where
      elsewhere : (b : Bool) → (if b then checking else outside) ≢ asleep
      elsewhere true e = cc
      elsewhere false e = cc
  throttle-Inv i checking =
      client-Inv i (if leb queue s.waiting_collects then asleep else throttled) (λ e.
        elim (Bool-cases (leb queue s.waiting_collects)) [
          | inl full ↦ ground arith
          | inr more ↦
              absurd (awake (subst (λ b. (if b then asleep else throttled) ≡ asleep) more e))
        ])
    where
      awake : throttled ≢ asleep
      awake e = cc
  throttle-Inv i asleep = inv

  -- The collector thread wakes up.
  pub wake_up-Inv : s.gc ≡ sleeping → Inv queue l (wake_up s)
  unfolding wake_up
  wake_up-Inv e = record {
    listed = inv.listed;
    stocked = inv.stocked;
    gc_holds = tt;
    will_wake = λ i q. subst (λ g. WillWake queue g s.waiting_collects) e (inv.will_wake i q);
  }
