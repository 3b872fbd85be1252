-- ===== src/Bench/Moves.antt =====
-- The steps of forkscan_test/main.c: one node at most goes to another place.
use mathlib.Core.Path.{subst}
use native.Mathlib.Decide.{ℕ_discrete}
use pp_final_project.Prelude.{
  ℕ, ◌≤◌, ◌≡◌, ◌≢◌, refl, sym, ap, ◌∙◌, Bool, true, false, Option, none, some, arith, Bool-cases,
  inl, inr,
}
use pp_final_project.Bench.Defs.{
  Pc, idle, allocating, inserting, dropping, removing, retiring, Call, add, remove_node, contains,
  Bench, update, go, add_load, add_allocate, add_swap, add_drop, remove_exchange, remove_collect,
  remove_retire, begin, resume,
}
use pp_final_project.Bench.Places.{
  Place, unused, cell, held, marked, was_retired, was_freed, MayBeSet, Owns, Inv, update_self,
  update_other, stays, Owns-stays, All-stays, NotIn-stays,
}

abbrev pub Placed : Bench → Type 0
Placed s = (place : ℕ → Place) × Inv s place

module _ (s : Bench) (place : ℕ → Place) (inv : Inv s place) (i : ℕ) where
  -- No node moves.
  quiet : (p : Pc) → Owns place i p → Placed (go i s p)
  quiet p o = (
    place,
    record {
      cells = inv.cells;
      owners = λ j. elim (ℕ_discrete i j) [
        | yes h ↦
            subst (λ x. Owns place x (update s.pc i p x)) h
              (subst (Owns place i) (sym (update_self s.pc i p)) o)
        | no n ↦ subst (Owns place j) (sym (update_other s.pc i j p n)) (inv.owners j)
      ];
      flags = inv.flags;
      unmade = inv.unmade;
      retired = inv.retired;
      freed = inv.freed;
      retired_once = inv.retired_once;
      freed_once = inv.freed_once;
    },
  )

  module _ (n : ℕ) (q : Place) (p : Pc) where
    owners_after :
        ((j : ℕ) → i ≢ j → (place n ≢ held j) × (place n ≢ marked j))
        → Owns (update place n q) i p
        → (j : ℕ) → Owns (update place n q) j (update s.pc i p j)
    owners_after apart o j = elim (ℕ_discrete i j) [
      | yes h ↦
          subst (λ x. Owns (update place n q) x (update s.pc i p x)) h
            (subst (Owns (update place n q) i) (sym (update_self s.pc i p)) o)
      | no other ↦
          subst (Owns (update place n q) j) (sym (update_other s.pc i j p other))
            (Owns-stays place n q j (s.pc j) (apart j other).0 (apart j other).1 (inv.owners j))
    ]

    -- The flags, when the node's may be set afterwards or is not set.
    flags_after :
        (f : ℕ → Bool)
        → ((m : ℕ) → n ≢ m → f m ≡ s.collected m)
        → (f n ≡ true → MayBeSet q)
        → (m : ℕ) → f m ≡ true
        → MayBeSet (update place n q m)
    flags_after f same here m e = elim (ℕ_discrete n m) [
      | yes h ↦
          subst MayBeSet (sym (ap (update place n q) (sym h) ∙ update_self place n q))
            (here (ap f h ∙ e))
      | no other ↦
          subst MayBeSet (sym (update_other place n m q other))
            (inv.flags m (sym (same m other) ∙ e))
    ]

  -- A node with the thread is not with another.
  held_apart :
      (n : ℕ) → place n ≡ held i → (j : ℕ) → i ≢ j → (place n ≢ held j) × (place n ≢ marked j)
  held_apart n e j ne = ((λ f. ne cc), (λ f. cc))

  marked_apart :
      (n : ℕ) → place n ≡ marked i → (j : ℕ) → i ≢ j → (place n ≢ held j) × (place n ≢ marked j)
  marked_apart n e j ne = ((λ f. cc), (λ f. ne cc))

  -- A node at 0.
  unset : (n : ℕ) → place n ≡ held i → s.collected n ≡ true → ⊥
  unset n e f = subst MayBeSet e (inv.flags n f)

  Placed-allocate : (key : ℕ) → Placed (add_allocate i s key)
  unfolding add_allocate
  Placed-allocate key =
      let n = s.fresh in
      let e = inv.unmade n (omega arith) in
      let q = held i in
      (
        update place n q,
        record {
          cells = λ k m f. stays place n q m (cell k) (inv.cells k m f) (λ x. cc);
          owners =
              owners_after n q (inserting key n) (λ j ne. ((λ f. cc), (λ f. cc)))
                (update_self place n q);
          flags =
              flags_after n q (inserting key n) (update s.collected n false)
                (λ m ne. update_other s.collected n m false ne)
                (λ f. absurd (clash (sym (update_self s.collected n false) ∙ f)));
          unmade = λ m h.
              update_other place n m q (λ x. absurd (omega arith)) ∙ inv.unmade m (omega arith);
          retired = All-stays place n q was_retired s.retired (λ x. cc) inv.retired;
          freed = All-stays place n q was_freed s.freed (λ x. cc) inv.freed;
          retired_once = inv.retired_once;
          freed_once = inv.freed_once;
        },
      )
    where
      clash : false ≢ true
      clash e = cc

  -- A node that exists goes from one place to another, and the lists of nodes stay.
  unmade_after :
      (n : ℕ) (q : Place) → place n ≢ unused → (m : ℕ) → s.fresh ≤ m → update place n q m ≡ unused
  unmade_after n q ne m h = stays place n q m unused (inv.unmade m h) ne

  flags_kept :
      (n : ℕ) (q : Place)
      → (s.collected n ≡ true → MayBeSet q)
      → (m : ℕ) → s.collected m ≡ true
      → MayBeSet (update place n q m)
  flags_kept n q here = flags_after n q idle s.collected (λ m ne. refl) here

  insert-Inv :
      (key n : ℕ)
      → place n ≡ held i
      → Inv
          (record (go i s idle) { array = update s.array key (some n) })
          (update place n (cell key))
  insert-Inv key n e = record {
    cells = λ k m f. elim (ℕ_discrete key k) [
      | yes h ↦
          let same : some n ≡ some m =
            sym (update_self s.array key (some n)) ∙ ap (update s.array key (some n)) h ∙ f in
          ap (update place n (cell key)) (sym (inj same))
          ∙ update_self place n (cell key)
          ∙ ap cell h
      | no ne ↦
          stays place n (cell key) m (cell k)
            (inv.cells k m (sym (update_other s.array key k (some n) ne) ∙ f)) (λ x. cc)
    ];
    owners = owners_after n (cell key) idle (held_apart n e) tt;
    flags = flags_kept n (cell key) (λ f. absurd (unset n e f));
    unmade = unmade_after n (cell key) (λ x. cc);
    retired = All-stays place n (cell key) was_retired s.retired (λ x. cc) inv.retired;
    freed = All-stays place n (cell key) was_freed s.freed (λ x. cc) inv.freed;
    retired_once = inv.retired_once;
    freed_once = inv.freed_once;
  }
    where
      inj : {a b : ℕ} → some a ≡ some b → a ≡ b
      inj {a} {b} x = cc

  Placed-swap :
      (key n : ℕ)
      → place n ≡ held i
      → (o : Option ℕ) → s.array key ≡ o
      → Placed (add_swap i s key n)
  unfolding add_swap
  Placed-swap key n e none f = rw (f, add_swap) (update place n (cell key), insert-Inv key n e)
  Placed-swap key n e (some m) f = rw (f, add_swap) (quiet (dropping n) e)

  Placed-drop : (n : ℕ) → place n ≡ held i → Placed (add_drop i s n)
  unfolding add_drop
  Placed-drop n e = (
    update place n was_freed,
    record {
      cells = λ k m f. stays place n was_freed m (cell k) (inv.cells k m f) (λ x. cc);
      owners = owners_after n was_freed idle (held_apart n e) tt;
      flags = flags_kept n was_freed (λ f. absurd (unset n e f));
      unmade = unmade_after n was_freed (λ x. cc);
      retired = All-stays place n was_freed was_retired s.retired (λ x. cc) inv.retired;
      freed = (
        update_self place n was_freed,
        All-stays place n was_freed was_freed s.freed (λ x. cc) inv.freed,
      );
      retired_once = inv.retired_once;
      freed_once =
          (NotIn-stays place n was_freed was_freed s.freed (λ x. cc) inv.freed, inv.freed_once);
    },
  )

  Placed-exchange : (key : ℕ) → (o : Option ℕ) → s.array key ≡ o → Placed (remove_exchange i s key)
  unfolding remove_exchange
  Placed-exchange key none f = rw (f, remove_exchange) (quiet idle tt)
  Placed-exchange key (some n) f =
      let e = inv.cells key n f in
      let q = held i in
      rw (f, remove_exchange)
        (
          update place n q,
          record {
            cells = λ k m g. elim (ℕ_discrete key k) [
              | yes h ↦
                  absurd
                    (gone (sym (update_self s.array key none) ∙ ap (update s.array key none) h ∙ g))
              | no ne ↦
                  stays place n q m (cell k)
                    (inv.cells k m (sym (update_other s.array key k none ne) ∙ g)) (λ x. ne cc)
            ];
            owners =
                owners_after n q (removing n) (λ j ne. ((λ x. cc), (λ x. cc)))
                  (update_self place n q);
            flags = flags_kept n q (λ g. absurd (subst MayBeSet e (inv.flags n g)));
            unmade = unmade_after n q (λ x. cc);
            retired = All-stays place n q was_retired s.retired (λ x. cc) inv.retired;
            freed = All-stays place n q was_freed s.freed (λ x. cc) inv.freed;
            retired_once = inv.retired_once;
            freed_once = inv.freed_once;
          },
        )
    where
      gone : {m : ℕ} → none ≢ some m
      gone {m} x = cc

  Placed-collect : (n : ℕ) → place n ≡ held i → Placed (remove_collect i s n)
  unfolding remove_collect
  Placed-collect n e = elim (Bool-cases (s.collected n)) [
    | inl set ↦ absurd (unset n e set)
    | inr clear ↦
        let q = marked i in
        rw (clear, remove_collect)
          (
            update place n q,
            record {
              cells = λ k m f. stays place n q m (cell k) (inv.cells k m f) (λ x. cc);
              owners = owners_after n q (retiring n) (held_apart n e) (update_self place n q);
              flags =
                  flags_after n q (retiring n) (update s.collected n true)
                    (λ m ne. update_other s.collected n m true ne) (λ f. tt);
              unmade = unmade_after n q (λ x. cc);
              retired = All-stays place n q was_retired s.retired (λ x. cc) inv.retired;
              freed = All-stays place n q was_freed s.freed (λ x. cc) inv.freed;
              retired_once = inv.retired_once;
              freed_once = inv.freed_once;
            },
          )
  ]

  Placed-retire : (n : ℕ) → place n ≡ marked i → Placed (remove_retire i s n)
  unfolding remove_retire
  Placed-retire n e = (
    update place n was_retired,
    record {
      cells = λ k m f. stays place n was_retired m (cell k) (inv.cells k m f) (λ x. cc);
      owners = owners_after n was_retired idle (marked_apart n e) tt;
      flags = flags_kept n was_retired (λ f. tt);
      unmade = unmade_after n was_retired (λ x. cc);
      retired = (
        update_self place n was_retired,
        All-stays place n was_retired was_retired s.retired (λ x. cc) inv.retired,
      );
      freed = All-stays place n was_retired was_freed s.freed (λ x. cc) inv.freed;
      retired_once = (
        NotIn-stays place n was_retired was_retired s.retired (λ x. cc) inv.retired,
        inv.retired_once,
      );
      freed_once = inv.freed_once;
    },
  )

  Placed-load : (key : ℕ) → (o : Option ℕ) → s.array key ≡ o → Placed (add_load i s key)
  unfolding add_load
  Placed-load key none f = rw (f, add_load) (quiet (allocating key) tt)
  Placed-load key (some n) f = rw (f, add_load) (quiet idle tt)

  Placed-begin : (call : Call) → Placed (begin i s call)
  unfolding begin
  Placed-begin (add key) = Placed-load key (s.array key) refl
  Placed-begin (remove_node key) = Placed-exchange key (s.array key) refl
  Placed-begin (contains key) = quiet idle tt

  pub Placed-resume : (call : Call) (p : Pc) → s.pc i ≡ p → Placed (resume i s call p)
  unfolding resume
  Placed-resume call idle e = Placed-begin call
  Placed-resume call (allocating key) e = Placed-allocate key
  Placed-resume call (inserting key n) e =
      Placed-swap key n (subst (Owns place i) e (inv.owners i)) (s.array key) refl
  Placed-resume call (dropping n) e = Placed-drop n (subst (Owns place i) e (inv.owners i))
  Placed-resume call (removing n) e = Placed-collect n (subst (Owns place i) e (inv.owners i))
  Placed-resume call (retiring n) e = Placed-retire n (subst (Owns place i) e (inv.owners i))
