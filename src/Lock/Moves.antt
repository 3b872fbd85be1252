-- ===== src/Lock/Moves.antt =====
-- The invariant of the lock, step by step: the accesses of the functions of forkscan-changed/thread.c
-- and proc.c.
use native.Mathlib.Decide.{ℕ_discrete}
use mathlib.Core.Path.{subst}
use pp_final_project.Prelude.{
  ℕ, suc, ◌+◌, ◌≤◌, ◌<◌, ◌≡◌, ◌≢◌, refl, sym, ◌∙◌, true, false, ◌==◌, arith,
}
use pp_final_project.Lock.Defs.{
  timestamp_flag, timestamp, is_active, ThreadData, System, Pc, update, with_local, idle, raising,
  raised, helping, attempting, waiting, reclaiming, releasing,
}
use pp_final_project.Lock.Invariant.{Holds, Acknowledged, Local, waited, Inv}

pub update_self : {A : Type 0} (f : ℕ → A) (i : ℕ) (a : A) → update f i a i ≡ a
update_self f i a = let e : (i == i) ≡ true = ground arith in rw e refl

pub update_other : {A : Type 0} (f : ℕ → A) (i j : ℕ) (a : A) → i ≢ j → update f i a j ≡ f j
update_other f i j a n = let e : (i == j) ≡ false = ground arith in rw e refl

-- What holds of the moved thread and of each other holds of all.
update-all :
    (P : ℕ → Pc → ThreadData → Type 0) (i : ℕ) (s : System) (p : Pc) (d : ThreadData)
    → P i p d
    → ((j : ℕ) → i ≢ j → P j (s.pc j) (s.td j))
    → (j : ℕ) → P j (update s.pc i p j) (update s.td i d j)
update-all P i s p d here others j = elim (ℕ_discrete i j) [
  | yes e ↦ rw (← e) (rw (update_self s.pc i p) (rw (update_self s.td i d) here))
  | no n ↦ rw (update_other s.pc i j p n) (rw (update_other s.td i j d n) (others j n))
]

-- Thread `i` goes to `p` with the data `d`.
module _ (n m i : ℕ) (s : System) (inv : Inv n m s) (p : Pc) (d : ThreadData) where
  -- The global timestamp stays.
  module _ (own : Local s.global_timestamp p d.local_timestamp)
      (old : timestamp d.local_timestamp ≤ timestamp s.global_timestamp)
      (was : Holds p → Holds (s.pc i))
      (ack : Acknowledged (timestamp s.global_timestamp) (s.pc i) (s.td i).local_timestamp
        → Acknowledged (timestamp s.global_timestamp) p d.local_timestamp)
      (acked : Holds p
        → (j : ℕ) → j < waited n p
        → Acknowledged (timestamp s.global_timestamp) (s.pc j) (s.td j).local_timestamp) where
    holder : (j : ℕ) → Holds (update s.pc i p j) → Holds (s.pc j)
    holder = update-all (λ j q e. Holds q → Holds (s.pc j)) i s p d was (λ j ne h. h)

    move_acks :
        (a b : ℕ)
        → Holds (update s.pc i p a)
        → b < waited n (update s.pc i p a)
        → Acknowledged
            (timestamp s.global_timestamp)
            (update s.pc i p b)
            (update s.td i d b).local_timestamp
    move_acks a b =
        let before : (Holds (update s.pc i p a)
            → b < waited n (update s.pc i p a)
            → Acknowledged (timestamp s.global_timestamp) (s.pc b) (s.td b).local_timestamp) =
          update-all
            (λ j q e.
              Holds q
              → b < waited n q
              → Acknowledged (timestamp s.global_timestamp) (s.pc b) (s.td b).local_timestamp)
            i s p d (λ h. acked h b) (λ j ne h. inv.acks j b h) a in
        λ h k.
          update-all
            (λ j q e.
              Acknowledged (timestamp s.global_timestamp) (s.pc j) (s.td j).local_timestamp
              → Acknowledged (timestamp s.global_timestamp) q e.local_timestamp)
            i s p d ack (λ j ne x. x) b (before h k)

    pub move : Inv n (suc m) (with_local n i s d p)
    move = record {
      rounds = omega (arith, inv.rounds);
      word = inv.word;
      locals =
          update-all (λ j q e. Local s.global_timestamp q e.local_timestamp) i s p d own
            (λ j ne. inv.locals j);
      behind =
          update-all (λ j q e. timestamp e.local_timestamp ≤ timestamp s.global_timestamp) i s p d
            old (λ j ne. inv.behind j);
      held = λ j h. inv.held j (holder j h);
      one = λ a b h k. inv.one a b (holder a h) (holder b k);
      acks = move_acks;
    }

  Local-later :
      (g g' : ℕ) (q : Pc) (l : ℕ)
      → (Holds q → ⊥)
      → timestamp g ≤ timestamp g'
      → Local g q l
      → Local g' q l
  unfolding Local Holds
  Local-later g g' idle l free up h = h
  Local-later g g' (raising o) l free up h = h
  Local-later g g' (raised o c) l free up h = (h.0, h.1, omega (arith, h.2))
  Local-later g g' helping l free up h = h
  Local-later g g' (attempting o) l free up h = h
  Local-later g g' (waiting k c) l free up h = absurd (free tt)
  Local-later g g' reclaiming l free up h = absurd (free tt)
  Local-later g g' (releasing v) l free up h = absurd (free tt)

  -- The global timestamp changes, while no other thread holds the lock.
  module _ (g : ℕ) (own : Local g p d.local_timestamp)
      (old : timestamp d.local_timestamp ≤ timestamp g)
      (alone : (j : ℕ) → i ≢ j → Holds (s.pc j) → ⊥)
      (up : timestamp s.global_timestamp ≤ timestamp g) (rounds : timestamp g ≤ suc m + 1)
      (word : g < timestamp_flag + timestamp_flag) (held : Holds p → is_active g ≡ true)
      (first : waited n p ≡ 0) where
    only : (j : ℕ) → Holds (update s.pc i p j) → i ≡ j
    only j h = elim (ℕ_discrete i j) [
      | yes e ↦ e
      | no ne ↦ absurd (alone j ne (subst Holds (update_other s.pc i j p ne) h))
    ]

    pub swap : Inv n (suc m) (record (with_local n i s d p) { global_timestamp = g })
    swap = record {
      rounds = rounds;
      word = word;
      locals =
          update-all (λ j q e. Local g q e.local_timestamp) i s p d own
            (λ j ne.
              Local-later s.global_timestamp g (s.pc j) (s.td j).local_timestamp (alone j ne) up
                (inv.locals j));
      behind =
          update-all (λ j q e. timestamp e.local_timestamp ≤ timestamp g) i s p d old
            (λ j ne. omega (arith, up, inv.behind j));
      held =
          update-all (λ j q e. Holds q → is_active g ≡ true) i s p d held
            (λ j ne h. absurd (alone j ne h));
      one = λ a b h k. sym (only a h) ∙ only b k;
      acks = λ a b h k.
          let none : waited n (update s.pc i p a) ≡ 0 =
            rw (← only a h) (rw (update_self s.pc i p) first) in
          absurd (omega arith);
    }
