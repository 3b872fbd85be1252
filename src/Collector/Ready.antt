-- ===== src/Collector/Ready.antt =====
-- The first half of `aggregate_addrs` of forkscan-changed/forkscan.c: the buffer that the addresses go to.
use pp_final_project.Prelude.{
  ℕ, ◌+◌, ◌≤◌, ◌≡◌, refl, sym, ap, ◌∙◌, ◌>>=◌, true, false, List, [], ◌∷◌, length, take, blit,
  length-blit, length-take, ltb, if◌then◌else◌, Option, none, some, Run, done, fail, Returns,
  Returns-bind, Returns-imp, arith, Bool-cases, inl, inr,
}
use pp_final_project.Buffer.Defs.{AddrBuffer}
use pp_final_project.Buffer.Lists.{
  Store, put, store, load, same_ptr, make_aggregate_buffer, release_buffer,
}
use pp_final_project.Buffer.Chain.{IsChain, NotIn, load_at, put_self, put_other}
use pp_final_project.Buffer.Aggregate.{Available, Made, make_aggregate_buffer-Roomy}
use pp_final_project.Queue.Fifo.{memcpy-done}
use pp_final_project.Collector.Gather.{new_aggregate, move_old, aggregate_buffer}
use pp_final_project.Collector.Contents.{held, length-held, take-blit, Filled}
use pp_final_project.Collector.Kept.{Left, put-Kept, make_aggregate_buffer-Left}
use pp_final_project.Collector.Same.{Same, Same-refl, Same-put, Apart, Kept-Same}

-- Two results of one run.
Returns-both :
    {A : Type 0} (P Q : A → Type 0) (m : Run A)
    → Returns m P
    → Returns m Q
    → Returns m (λ a. P a × Q a)
Returns-both P Q (done a) p q = (p, q)
Returns-both P Q (fail e) p q = elim p [ ]

release_aggregate :
    (i : ℕ) (t : Store) (b : AddrBuffer)
    → same_ptr t.first_retiree i ≡ false
    → same_ptr t.last_retiree i ≡ false
    → t.bufs i ≡ some b
    → b.is_aggregate ≡ true
    → release_buffer i t
      ≡ done (record (store t i (record b { next = t.available_aggregates })) {
        available_aggregates = some i;
      })
unfolding release_buffer
release_aggregate i t b f l at agg =
    rw (f, l)
      (rw (load_at t i b at, release_buffer)
        (rw agg (
          ap
            (λ a.
              done
                (record (store t i (record b { next = t.available_aggregates; is_aggregate = a })) {
                  available_aggregates = some i;
                }))
            agg)))

-- A new buffer: it is empty and has room for `n` addresses, and the others are as before.
abbrev New : ℕ → List ℕ → Store → Store × ℕ → Type 0
New n xs s (t, i) =
    Left xs s (t, i)
    × (b : AddrBuffer) × (t.bufs i ≡ some b)
    × (n ≤ length b.addrs)
    × (b.n_addrs ≡ 0)

-- The old buffer: an aggregate outside all the lists, with room for its addresses.
pub record OldAt (s : Store) (xs ys : List ℕ) (i : ℕ) : Type 0 where
  pub buffer : AddrBuffer
  pub at : s.bufs i ≡ some buffer
  pub aggregate : buffer.is_aggregate ≡ true
  pub fits : buffer.n_addrs ≤ length buffer.addrs
  pub roomy : buffer.capacity ≤ length buffer.addrs
  pub unlisted : NotIn i xs
  pub other : NotIn i ys
  pub not_first : same_ptr s.first_retiree i ≡ false
  pub not_last : same_ptr s.last_retiree i ≡ false

abbrev pub Old : Store → List ℕ → List ℕ → Option ℕ → Type 0
Old s xs ys none = Unit
Old s xs ys (some i) = OldAt s xs ys i

-- Its addresses.
abbrev pub old_held : (ℕ → Option AddrBuffer) → Option ℕ → List ℕ
old_held f none = []
old_held f (some i) = held (f i)

-- The buffer that the addresses go to holds the old ones, and the list is as before.
abbrev pub Ready : Store → Option ℕ → List ℕ → ℕ → Store × ℕ → Type 0
Ready s old ys n (t, i) =
    Same s.bufs t.bufs ys × NotIn i ys × Filled t.bufs i n (old_held s.bufs old)

module _ (s : Store) (d : ℕ) (ys xs : List ℕ) (un : (j : ℕ) → s.fresh ≤ j → s.bufs j ≡ none)
    (av : Available s s.available_aggregates xs) (chain : IsChain s.bufs (some d) (d ∷ ys))
    (apart : Apart xs (d ∷ ys)) where
  new_aggregate-New : (n : ℕ) → Returns (new_aggregate n d s) (New n xs s)
  unfolding new_aggregate
  new_aggregate-New n =
      let (e, b, at, rest) = chain in
      let c = if ltb b.capacity n then n else b.capacity in
      let large : n ≤ c = ground arith in
      rw (load_at s d b at, new_aggregate)
        (Returns-bind (New n xs s) (make_aggregate_buffer c s) _
          (Returns-both (Made c) (Left xs s) (make_aggregate_buffer c s)
            (make_aggregate_buffer-Roomy c s xs un av) (make_aggregate_buffer-Left c s xs un av))
          (detached n c large))
    where
      detached :
          (n c : ℕ)
          → n ≤ c
          → (r : Store × ℕ) → Made c r × Left xs s r
          → Returns
              (do rb ← load r.0 r.1; done (store r.0 r.1 (record rb { next = none }), r.1))
              (New n xs s)
      detached n c le (t, i) ((b, at, room, roomy, empty, refs, zs, more, out), l) =
          rw (load_at t i b at) (
            put-Kept xs s t (store t i (record b { next = none })) i (record b { next = none }) l.0
                l.1 refl refl refl,
            record b { next = none },
            put_self t.bufs i (some (record b { next = none })),
            omega (arith, roomy.0),
            empty,
          )

  -- The old addresses are moved, and the old buffer goes to the available aggregates.
  move_old-Ready :
      (i n : ℕ) (r : Store × ℕ)
      → OldAt s xs (d ∷ ys) i
      → length (held (s.bufs i)) ≤ n
      → New n xs s r
      → Returns (move_old i r.0 r.1) (λ t. Ready s (some i) (d ∷ ys) n (t, r.1))
  unfolding move_old release_buffer
  move_old-Ready i n (t, ret) o le (l, rb, at, room, empty) =
      let ob = o.buffer in
      let other = l.1 i ob o.at o.unlisted in
      let there = l.0.buffers i ob o.at o.unlisted in
      let size = length-held s.bufs i ob o.at o.fits in
      let addrs = blit rb.addrs 0 (take ob.n_addrs ob.addrs) in
      let rb' : AddrBuffer = record rb { addrs = addrs; n_addrs = ob.n_addrs } in
      let old = Kept-Same xs s t ret (some d) (d ∷ ys) l apart chain in
      let taken : 0 + length (take ob.n_addrs ob.addrs) ≡ ob.n_addrs =
        omega (arith, length-take ob.n_addrs ob.addrs, o.fits) in
      let not_first : same_ptr t.first_retiree i ≡ false =
        ap (λ p. same_ptr p i) l.0.first ∙ o.not_first in
      let not_last : same_ptr t.last_retiree i ≡ false =
        ap (λ p. same_ptr p i) l.0.last ∙ o.not_last in
      rw (load_at t i ob there, move_old)
        (rw (load_at t ret rb at, move_old)
          (rw
            (
              memcpy-done rb.addrs 0 ob.addrs 0 ob.n_addrs (omega (arith, o.fits)) (omega arith),
              move_old,
            )
            (rw
              (release_aggregate i (store t ret rb') ob not_first not_last
                (put_other t.bufs ret i (some rb') other ∙ there) o.aggregate)
              (
                Same-put s.bufs (put t.bufs ret (some rb')) i _ (d ∷ ys) o.other
                    (Same-put s.bufs t.bufs ret (some rb') (d ∷ ys) old.1 old.0),
                old.1,
                record {
                  buffer = rb';
                  at =
                      put_other (put t.bufs ret (some rb')) i ret _ (λ q. other (sym q))
                      ∙ put_self t.bufs ret (some rb');
                  n = sym size;
                  cells =
                      ap (λ k. take k addrs) (sym taken)
                      ∙ take-blit rb.addrs 0 (take ob.n_addrs ob.addrs) (omega arith)
                      ∙ ap held (sym o.at);
                  room_left = omega (arith, length-blit rb.addrs 0 (take ob.n_addrs ob.addrs));
                },
              ))))

  -- The buffer that the addresses go to.
  pub aggregate_buffer-Ready :
      (old : Option ℕ) (n : ℕ)
      → Old s xs (d ∷ ys) old
      → length (old_held s.bufs old) ≤ n
      → Returns (aggregate_buffer old n d s) (Ready s old (d ∷ ys) n)
  unfolding aggregate_buffer
  aggregate_buffer-Ready none n o le =
      Returns-imp (new_aggregate n d s)
        (λ r h.
          let same = Kept-Same xs s r.0 r.1 (some d) (d ∷ ys) h.0 apart chain in
          (
            same.0,
            same.1,
            record { buffer = h.1; at = h.2; n = h.4; cells = rw h.4 refl; room_left = h.3 },
          ))
        (new_aggregate-New n)
  aggregate_buffer-Ready (some i) n o le =
      let b = o.buffer in
      rw (load_at s i b o.at, aggregate_buffer)
        (elim (Bool-cases (ltb n b.capacity)) [
          | inl large ↦
              rw (large, Returns, ◌>>=◌)
                (
                  Same-refl s.bufs (d ∷ ys),
                  o.other,
                  record {
                    buffer = b;
                    at = o.at;
                    n = sym (length-held s.bufs i b o.at o.fits);
                    cells = ap held (sym o.at);
                    room_left = ground (arith, o.roomy);
                  },
                )
          | inr small ↦
              rw (small, Returns, ◌>>=◌)
                (Returns-bind (Ready s (some i) (d ∷ ys) n) (new_aggregate n d s) _
                  (new_aggregate-New n)
                  (λ r h.
                    Returns-bind (Ready s (some i) (d ∷ ys) n) (move_old i r.0 r.1) _
                      (move_old-Ready i n r o le h) (λ t q. q)))
        ])
