-- ===== src/Lock/Progress.antt =====
-- The wait inside `try_acquire` of forkscan-changed/thread.c can always come to its end.
use mathlib.Core.Path.{subst}
use native.Mathlib.Decide.{ℕ_discrete}
use pp_final_project.Prelude.{
  ℕ, zero, suc, ◌+◌, ◌-◌, ◌*◌, ◌≤◌, ◌<◌, ◌≡◌, ◌≢◌, refl, sym, ◌∙◌, ap, true, false, ◌==◌, arith,
}
use pp_final_project.Lock.Defs.{
  timestamp_flag, timestamp, raise_flag, is_active, times_after, ThreadData, System, Pc, with_local,
  resume, idle, raising, raised, helping, attempting, waiting, reclaiming, releasing, raise,
  raise_flag_read, raise_flag_write, cleanup_lower_flag, wait_for_timestamp,
}
use pp_final_project.Lock.Run.{Reach, Steps, start, later, Steps-trans}
use pp_final_project.Lock.Invariant.{Local}
use pp_final_project.Lock.Moves.{update_self, update_other}
use pp_final_project.Lock.Safety.{Reach-Inv}

-- In at most `most` steps the threads can come from `s` to a state with `P`.
abbrev Comes : ℕ → System → ℕ → (System → Type 0) → Type 0
Comes n s most P = (k : ℕ) × (t : System) × Steps n s k t × (k ≤ most) × P t

Comes-now : {n : ℕ} {s : System} {P : System → Type 0} (most : ℕ) → P s → Comes n s most P
Comes-now {n} {s} most p = (0, s, start, omega arith, p)

Comes-then :
    {n : ℕ} {s : System} {P Q : System → Type 0} (a b : ℕ)
    → Comes n s a P
    → ((t : System) (k : ℕ) → Steps n s k t → k ≤ a → P t → Comes n t b Q)
    → Comes n s (a + b) Q
Comes-then a b (k, t, st, few, p) next =
    let (k', t', st', few', q) = next t k st few p in
    (k + k', t', Steps-trans st st', omega arith, q)

one_step : (n i : ℕ) (s : System) (p : Pc) → i < n → s.pc i ≡ p → Steps n s 1 (resume n i s raise p)
one_step n i s p lt e = subst (λ q. Steps n s 1 (resume n i s raise q)) e (later i raise lt start)

module _ (n i : ℕ) (w : Pc) where
  -- Thread `i` stands at `w`, and thread `j` at `p`.
  abbrev Apart : ℕ → Pc → System → Type 0
  Apart j p s = (s.pc i ≡ w) × (s.pc j ≡ p)

  -- Thread `i` stands at `w`, and thread `j` helps nobody.
  abbrev Settled : ℕ → System → Type 0
  Settled j s = (s.pc i ≡ w) × (is_active (s.td j).local_timestamp ≡ false)

  module _ (j : ℕ) (below : j < n) (ne : i ≢ j) where
    -- A step of thread `j` from `p` to `q`.
    other_step :
        (p q : Pc) (d : System → ThreadData)
        → ((s : System) → resume n j s raise p ≡ with_local n j s (d s) q)
        → (s : System) → Apart j p s
        → Comes n s 1 (Apart j q)
    other_step p q d eq s (e, f) = (
      1,
      resume n j s raise p,
      one_step n j s p below f,
      omega arith,
      rw (eq s) (update_other s.pc j i q (λ x. ne (sym x)) ∙ e, update_self s.pc j q),
    )

    settle_helping : (s : System) → Apart j helping s → Comes n s 1 (Settled j)
    unfolding resume cleanup_lower_flag
    settle_helping s (e, f) = (
      1,
      resume n j s raise helping,
      one_step n j s helping below f,
      omega arith,
      (
        update_other s.pc j i idle (λ q. ne (sym q)) ∙ e,
        rw
            (update_self s.td j
              (record (s.td j) { local_timestamp = timestamp (s.td j).local_timestamp }))
            (ground arith),
      ),
    )

    settle_raised :
        (old curr : ℕ) (s : System) → Apart j (raised old curr) s → Comes n s 2 (Settled j)
    unfolding resume raise_flag_write
    settle_raised old curr s h =
        Comes-then 1 1
          (other_step (raised old curr) helping
            (λ t. record {
              local_timestamp = raise_flag curr;
              times_without_update = times_after old curr (t.td j).times_without_update;
            })
            (λ t. refl) s h)
          (λ t k st few g. settle_helping t g)

    settle_raising : (old : ℕ) (s : System) → Apart j (raising old) s → Comes n s 3 (Settled j)
    unfolding resume raise_flag_read
    settle_raising old s (e, f) =
        Comes-then {P = Apart j (raised old s.global_timestamp)} 1 2
          (
            1,
            resume n j s raise (raising old),
            one_step n j s (raising old) below f,
            omega arith,
            (update_other s.pc j i _ (λ x. ne (sym x)) ∙ e, update_self s.pc j _),
          )
          (λ t k st few g. settle_raised old s.global_timestamp t g)

    -- Thread `j` finishes its help.
    settle :
        (s : System) (p : Pc)
        → s.pc i ≡ w
        → s.pc j ≡ p
        → Local s.global_timestamp p (s.td j).local_timestamp
        → Comes n s 3 (Settled j)
    unfolding Local
    settle s idle e f l = Comes-now 3 (e, l)
    settle s (raising old) e f l = settle_raising old s (e, f)
    settle s (raised old curr) e f l =
        Comes-then 2 1 (settle_raised old curr s (e, f)) (λ t k st few g. Comes-now 1 g)
    settle s helping e f l =
        Comes-then 1 2 (settle_helping s (e, f)) (λ t k st few g. Comes-now 2 g)
    settle s (attempting old) e f l = Comes-now 3 (e, l.0)
    settle s (waiting k curr) e f l = Comes-now 3 (e, l.0)
    settle s reclaiming e f l = Comes-now 3 (e, l)
    settle s (releasing stamp) e f l = Comes-now 3 (e, l.0)

module _ (n i curr : ℕ) (below : i < n) where
  wait_next :
      (k : ℕ) (s : System)
      → k < n
      → Settled n i (waiting k curr) k s
      → Comes n s 1 (λ t. t.pc i ≡ waiting (suc k) curr)
  unfolding resume wait_for_timestamp
  wait_next k s lt (e, low) = (
    1,
    resume n i s raise (waiting k curr),
    one_step n i s (waiting k curr) below e,
    omega arith,
    let more : (k == n) ≡ false = ground arith in
        rw more (rw low (update_self s.pc i (waiting (suc k) curr))),
  )

  wait_end : (s : System) → s.pc i ≡ waiting n curr → Comes n s 1 (λ t. t.pc i ≡ reclaiming)
  unfolding resume wait_for_timestamp
  wait_end s e = (
    1,
    resume n i s raise (waiting n curr),
    one_step n i s (waiting n curr) below e,
    omega arith,
    let end : (n == n) ≡ true = ground arith in rw end (update_self s.pc i reclaiming),
  )

  -- Thread `k` finishes its help, and the wait goes on to the next.
  wait_round :
      (m k : ℕ) (s : System)
      → m + 1 < timestamp_flag
      → Reach n m s
      → k < n
      → s.pc i ≡ waiting k curr
      → Comes n s 4 (λ t. t.pc i ≡ waiting (suc k) curr)
  unfolding Local
  wait_round m k s short r lt e =
      let inv = Reach-Inv short r in
      Comes-then 3 1
        (elim (ℕ_discrete i k) [
          | yes same ↦ Comes-now {n = n} {s = s} {P = Settled n i (waiting k curr) k} 3 (
            e,
            subst (λ j. is_active (s.td j).local_timestamp ≡ false) same
                (subst (λ p. Local s.global_timestamp p (s.td i).local_timestamp) e
                  (inv.locals i)).0,
          )
          | no ne ↦ settle n i (waiting k curr) k lt ne s (s.pc k) e refl (inv.locals k)
        ])
        (λ t m' st few g. wait_next k t lt g)

  wait_loop :
      (rest m k : ℕ) (s : System)
      → m + (4 * rest + 2) < timestamp_flag
      → k + rest ≡ n
      → Reach n m s
      → s.pc i ≡ waiting k curr
      → Comes n s (4 * rest + 1) (λ t. t.pc i ≡ reclaiming)
  wait_loop zero m k s short sum r e =
      let end : k ≡ n = omega arith in wait_end s (e ∙ ap (λ x. waiting x curr) end)
  wait_loop (suc rest) m k s short sum r e =
      subst (λ b. Comes n s b (λ t. t.pc i ≡ reclaiming)) (omega arith)
        (Comes-then 4 (4 * rest + 1) (wait_round m k s (omega arith) r (omega arith) e)
          (λ t m' st few g.
            wait_loop rest (m + m') (suc k) t (omega arith) (omega arith) (Steps-trans r st) g))

-- In a run of `m` steps of `n` threads, with `m + 4 * n + 2` below 2 ^ 63: wherever a thread waits inside
-- `try_acquire` for the helpers, at thread `k` of the list or past the last, the threads can go on, in at
-- most `4 * n + 1` steps, such that `try_acquire` returns 1 to it.
pub try_acquire-Reaches :
    (n m i k curr : ℕ) (s : System)
    → i < n
    → m + (4 * n + 2) < timestamp_flag
    → k ≤ n
    → Reach n m s
    → s.pc i ≡ waiting k curr
    → (m' : ℕ) × (t : System) × Steps n s m' t × (m' ≤ 4 * n + 1) × (t.pc i ≡ reclaiming)
try_acquire-Reaches n m i k curr s lt short le r e =
    let (m', t, st, few, q) = wait_loop n i curr lt (n - k) m k s (omega arith) (omega arith) r e in
    (m', t, st, omega arith, q)
