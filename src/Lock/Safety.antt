-- ===== src/Lock/Safety.antt =====
-- The lock of forkscan-changed/thread.c is exclusive, and its holder waits for the helpers of every
-- round before its own.
use mathlib.Core.Path.{subst}
use native.Mathlib.Decide.{ℕ_discrete}
use pp_final_project.Prelude.{
  ℕ, suc, ◌+◌, ◌≤◌, ◌<◌, ◌≡◌, refl, sym, Bool, true, false, not, ◌&&◌, ◌==◌, Bool-cases, inl, inr,
  arith,
}
use pp_final_project.Lock.Defs.{
  timestamp_flag, timestamp, raise_flag, is_active, System, Pc, Call, at, resume, idle, raising,
  raised, helping, attempting, waiting, reclaiming, releasing, begin, raise, try_acquire,
  cleanup_raise_flag, raise_flag_read, raise_flag_write, cleanup_lower_flag, cleanup_try_acquire,
  swap_timestamp, wait_for_timestamp, cleanup_release, release_write,
}
use pp_final_project.Lock.Run.{init, Reach, start, later}
use pp_final_project.Lock.Invariant.{Holds, Acknowledged, Local, waited, Inv}
use pp_final_project.Lock.Moves.{move, swap}

clash : {b : Bool} → b ≡ true → b ≡ false → ⊥
clash {b} e f = ground arith

Inv-init : (n : ℕ) → Inv n 0 init
unfolding Holds Local
Inv-init n = record {
  rounds = omega arith;
  word = omega arith;
  locals = λ j. refl;
  behind = λ j. omega arith;
  held = λ j h. absurd h;
  one = λ i j h k. absurd h;
  acks = λ i j h k. absurd h;
}

module _ (n m i : ℕ) (s : System) (inv : Inv n m s) where
  abbrev g : ℕ
  g = s.global_timestamp

  abbrev l : ℕ
  l = (s.td i).local_timestamp

  Local-at : (p : Pc) → s.pc i ≡ p → Local g p l
  Local-at p e = subst (λ q. Local g q l) e (inv.locals i)

  Inv-raise : s.pc i ≡ idle → Inv n (suc m) (cleanup_raise_flag n i s)
  unfolding cleanup_raise_flag Local Holds Acknowledged
  Inv-raise e =
      move n m i s inv (raising l) _ (ground arith) (omega (arith, inv.behind i)) (λ h. absurd h)
        (λ h. tt) (λ h. absurd h)

  Inv-read : (old : ℕ) → s.pc i ≡ raising old → Inv n (suc m) (raise_flag_read n i s old)
  unfolding raise_flag_read Local Holds Acknowledged
  Inv-read old e =
      move n m i s inv (raised old g) (s.td i) (Local-at (raising old) e, inv.behind i, omega arith)
        (inv.behind i) (λ h. absurd h) (λ h. refl) (λ h. absurd h)

  Inv-write :
      (old curr : ℕ) → s.pc i ≡ raised old curr → Inv n (suc m) (raise_flag_write n i s old curr)
  unfolding raise_flag_write Local Holds Acknowledged
  Inv-write old curr e =
      let h = Local-at (raised old curr) e in
      move n m i s inv helping _ (ground arith) (omega (arith, h.2)) (λ h. absurd h)
        (λ a.
          let b : timestamp curr ≡ timestamp g = subst (λ q. Acknowledged (timestamp g) q l) e a in
          omega (arith))
        (λ h. absurd h)

  Inv-lower : s.pc i ≡ helping → Inv n (suc m) (cleanup_lower_flag n i s)
  unfolding cleanup_lower_flag Local Holds Acknowledged
  Inv-lower e =
      move n m i s inv idle _ (ground arith) (omega (arith, inv.behind i)) (λ h. absurd h) (λ h. tt)
        (λ h. absurd h)

  Inv-same : Inv n (suc m) s
  Inv-same = record {
    rounds = omega (arith, inv.rounds);
    word = inv.word;
    locals = inv.locals;
    behind = inv.behind;
    held = inv.held;
    one = inv.one;
    acks = inv.acks;
  }

  Inv-idle : is_active l ≡ false → Inv n (suc m) (at n i s idle)
  unfolding Local Holds Acknowledged
  Inv-idle low =
      move n m i s inv idle (s.td i) low (inv.behind i) (λ h. absurd h) (λ h. tt) (λ h. absurd h)

  Inv-acquire : s.pc i ≡ idle → Inv n (suc m) (cleanup_try_acquire n i s)
  unfolding cleanup_try_acquire Local Holds Acknowledged
  Inv-acquire e = elim (Bool-cases (is_active g)) [
    | inl active ↦ rw (active, cleanup_try_acquire) (Inv-idle (Local-at idle e))
    | inr free ↦
        rw (free, cleanup_try_acquire)
          (move n m i s inv (attempting g) (s.td i) (Local-at idle e, free) (inv.behind i)
            (λ h. absurd h) (λ h. tt) (λ h. absurd h))
  ]

  Inv-swap :
      (old : ℕ)
      → suc m + 1 < timestamp_flag
      → s.pc i ≡ attempting old
      → Inv n (suc m) (swap_timestamp n i s old)
  unfolding swap_timestamp Local Holds Acknowledged waited
  Inv-swap old short e =
      let h = Local-at (attempting old) e in
      elim (Bool-cases (g == old)) [
        | inr lost ↦ rw (lost, swap_timestamp) (Inv-idle h.0)
        | inl same ↦
            let eq : g ≡ old = ground arith in
            let low : old < timestamp_flag = ground (arith, h.1) in
            rw (same, swap_timestamp)
              (swap n m i s inv (waiting 0 (timestamp (raise_flag (old + 1)))) (s.td i)
                (raise_flag (old + 1)) (h.0, refl) (omega (arith, inv.behind i, inv.rounds))
                (λ j ne k. clash (inv.held j k) (subst (λ v. is_active v ≡ false) (sym eq) h.1))
                (omega (arith, inv.rounds)) (omega (arith, inv.rounds)) (omega arith)
                (λ k. ground arith) refl)
      ]

  -- The thread at hand holds the lock.
  Holds-at : (p : Pc) → s.pc i ≡ p → Holds p → Holds (s.pc i)
  Holds-at p e h = subst Holds (sym e) h

  acks_at :
      (p : Pc)
      → s.pc i ≡ p
      → Holds p
      → (j : ℕ) → j < waited n p
      → Acknowledged (timestamp g) (s.pc j) (s.td j).local_timestamp
  acks_at p e h j q = inv.acks i j (Holds-at p e h) (subst (λ p'. j < waited n p') (sym e) q)

  -- A thread that the loop does not wait for any more.
  passed :
      (q : Pc) (v : ℕ)
      → Local g q v
      → timestamp v ≤ timestamp g
      → (is_active v && not (timestamp v == timestamp g)) ≡ false
      → Acknowledged (timestamp g) q v
  unfolding Local Acknowledged
  passed idle v h up e = tt
  passed (raising old) v h up e = tt
  passed (raised old curr) v h up e = ground (arith, h.0, h.1, h.2)
  passed helping v h up e = ground (arith, h)
  passed (attempting old) v h up e = tt
  passed (waiting k curr) v h up e = tt
  passed reclaiming v h up e = tt
  passed (releasing stamp) v h up e = tt

  Inv-wait :
      (k curr : ℕ) → s.pc i ≡ waiting k curr → Inv n (suc m) (wait_for_timestamp n i s k curr)
  unfolding wait_for_timestamp Local Holds Acknowledged waited
  Inv-wait k curr e =
      let h = Local-at (waiting k curr) e in
      let v = (s.td k).local_timestamp in
      elim (Bool-cases (k == n)) [
        | inl end ↦
            let eq : k ≡ n = ground arith in
            rw (end, wait_for_timestamp)
              (move n m i s inv reclaiming (s.td i) h.0 (inv.behind i)
                (λ x. Holds-at (waiting k curr) e tt) (λ x. tt)
                (λ x j q. acks_at (waiting k curr) e tt j (omega arith)))
        | inr more ↦ elim (Bool-cases (is_active v && not (timestamp v == curr))) [
          | inl stay ↦ rw (more, wait_for_timestamp) (rw stay Inv-same)
          | inr go ↦
              rw (more, wait_for_timestamp)
                (rw go (
                  move n m i s inv (waiting (suc k) curr) (s.td i) h (inv.behind i)
                    (λ x. Holds-at (waiting k curr) e tt) (λ x. tt)
                    (λ x j q. elim (ℕ_discrete j k) [
                      | yes here ↦
                          rw here (passed (s.pc k) v (inv.locals k) (inv.behind k) (rw (← h.1) go))
                      | no before ↦ acks_at (waiting k curr) e tt j (omega arith)
                    ])))
        ]
      ]

  Inv-release : s.pc i ≡ reclaiming → Inv n (suc m) (cleanup_release n i s)
  unfolding cleanup_release Local Holds Acknowledged waited
  Inv-release e =
      move n m i s inv (releasing g) (s.td i) (Local-at reclaiming e, refl) (inv.behind i)
        (λ x. Holds-at reclaiming e tt) (λ x. tt) (λ x. acks_at reclaiming e tt)

  Inv-give : (stamp : ℕ) → s.pc i ≡ releasing stamp → Inv n (suc m) (release_write n i s stamp)
  unfolding release_write Local Holds Acknowledged waited
  Inv-give stamp e =
      let h = Local-at (releasing stamp) e in
      let same : stamp ≡ g = h.1 in
      swap n m i s inv idle (s.td i) (timestamp stamp) h.0 (omega (arith, inv.behind i))
        (λ j ne k. ne (inv.one i j (Holds-at (releasing stamp) e tt) k)) (omega arith)
        (omega (arith, inv.rounds)) (omega arith) (λ x. absurd x) refl

  resume-Inv :
      (call : Call) (p : Pc)
      → suc m + 1 < timestamp_flag
      → s.pc i ≡ p
      → Inv n (suc m) (resume n i s call p)
  unfolding resume begin
  resume-Inv raise idle short e = Inv-raise e
  resume-Inv try_acquire idle short e = Inv-acquire e
  resume-Inv call (raising old) short e = Inv-read old e
  resume-Inv call (raised old curr) short e = Inv-write old curr e
  resume-Inv call helping short e = Inv-lower e
  resume-Inv call (attempting old) short e = Inv-swap old short e
  resume-Inv call (waiting k curr) short e = Inv-wait k curr e
  resume-Inv call reclaiming short e = Inv-release e
  resume-Inv call (releasing stamp) short e = Inv-give stamp e

-- Every state that a run of fewer than 2 ^ 63 - 1 steps comes to satisfies the invariant: the
-- timestamp of the process is at most one above the number of steps; a thread's own timestamp bears
-- the flag exactly while the thread raises it or helps; one thread at most holds the lock, and then
-- the global timestamp is active; and the threads that the holder has passed in its wait help no
-- round but the present one.
pub Reach-Inv : {n m : ℕ} {s : System} → m + 1 < timestamp_flag → Reach n m s → Inv n m s
Reach-Inv {n} short start = Inv-init n
Reach-Inv {n} short (later {m} {t} i call p r) =
    resume-Inv n m i t (Reach-Inv (omega arith) r) call (t.pc i) short refl

-- In a run of fewer than 2 ^ 63 - 1 steps: two threads inside the lock, one that waits for the helpers
-- in `try_acquire`, one that reclaims or one that releases, are the same thread, and the global
-- timestamp is active then.
pub Reach-Exclusive :
    {n m : ℕ} {s : System} (i j : ℕ)
    → m + 1 < timestamp_flag
    → Reach n m s
    → Holds (s.pc i)
    → Holds (s.pc j)
    → (i ≡ j) × (is_active s.global_timestamp ≡ true)
Reach-Exclusive i j short r h k = let inv = Reach-Inv short r in (inv.one i j h k, inv.held i h)

-- In a run of fewer than 2 ^ 63 - 1 steps: when a thread has acquired the lock, each thread that is
-- between `raise_flag` and `lower_flag` then has the timestamp of the present round, so no thread
-- helps a round before it any more.
pub Reach-Acknowledged :
    {n m : ℕ} {s : System} (i j : ℕ)
    → m + 1 < timestamp_flag
    → Reach n m s
    → j < n
    → s.pc i ≡ reclaiming
    → s.pc j ≡ helping
    → timestamp (s.td j).local_timestamp ≡ timestamp s.global_timestamp
unfolding Holds Acknowledged waited
Reach-Acknowledged {n} {m} {s} i j short r below e f =
    let inv = Reach-Inv short r in
    subst (λ p. Acknowledged (timestamp s.global_timestamp) p (s.td j).local_timestamp) f
      (inv.acks i j (subst Holds (sym e) tt) (subst (λ p. j < waited n p) (sym e) below))
