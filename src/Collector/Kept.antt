-- ===== src/Collector/Kept.antt =====
-- What `forkscan_make_aggregate_buffer` of forkscan-changed/buffer.c leaves of the other buffers.
use native.Mathlib.Decide.{ℕ_discrete}
use pp_final_project.Prelude.{
  ℕ, zero, suc, ◌≤◌, ◌≡◌, ◌≢◌, refl, sym, ap, ◌∙◌, List, [], ◌∷◌, length, ltb, Option, none, some,
  Returns, Returns-bind, Returns-imp, arith, Bool-cases, inl, inr,
}
use pp_final_project.Buffer.Defs.{AddrBuffer}
use pp_final_project.Buffer.Lists.{
  Store, put, unmap_loop, take_aggregate, map_aggregate, make_aggregate_buffer, round_capacity,
}
use pp_final_project.Buffer.Chain.{NotIn, put_self, put_other, IsChain-put, chain-few, some_inj}
use pp_final_project.Buffer.Aggregate.{Available, Free-put, unmap_keep, unmap_next, take_step}

-- The buffers outside the list `xs` are as before, and so is the queue of retiree buffers.
pub record Kept (xs : List ℕ) (s t : Store) : Type 0 where
  pub buffers : (j : ℕ) (b : AddrBuffer) → s.bufs j ≡ some b → NotIn j xs → t.bufs j ≡ some b
  pub first : t.first_retiree ≡ s.first_retiree
  pub last : t.last_retiree ≡ s.last_retiree

-- The buffer found is one of the list, and no buffer is new.
record FoundIn (xs : List ℕ) (s t : Store) (o : Option ℕ) : Type 0 where
  kept : Kept xs s t
  fresh : t.fresh ≡ s.fresh
  gone : (j : ℕ) → s.bufs j ≡ none → t.bufs j ≡ none
  listed : (j : ℕ) → NotIn j xs → o ≢ some j
  free : (i : ℕ) → o ≡ some i → (b : AddrBuffer) × (t.bufs i ≡ some b) × (b.ref_count ≡ 0)

abbrev IsFound : List ℕ → Store → Store × Option ℕ → Type 0
IsFound xs s (t, o) = FoundIn xs s t o

not_some : {A : Type 0} {x : A} → none ≢ some x
not_some {A} {x} e = cc

Kept-refl : (xs : List ℕ) (s : Store) → Kept xs s s
Kept-refl xs s = record { buffers = λ j b e n. e; first = refl; last = refl }

put_gone : (f : ℕ → Option AddrBuffer) (x j : ℕ) → f j ≡ none → put f x none j ≡ none
put_gone f x j e = elim (ℕ_discrete x j) [
  | yes h ↦ ap (put f x none) (sym h) ∙ put_self f x none
  | no n ↦ put_other f x j none n ∙ e
]

-- A buffer of the list, unmapped.
unmapped :
    (x : ℕ) (xs : List ℕ) (s : Store) (r : Store × Option ℕ)
    → IsFound xs (record s { bufs = put s.bufs x none }) r
    → IsFound (x ∷ xs) s r
unmapped x xs s (t, o) f = record {
  kept = record {
    buffers = λ j b e n. f.kept.buffers j b (put_other s.bufs x j none (λ q. n.0 (sym q)) ∙ e) n.1;
    first = f.kept.first;
    last = f.kept.last;
  };
  fresh = f.fresh;
  gone = λ j e. f.gone j (put_gone s.bufs x j e);
  listed = λ j n. f.listed j n.1;
  free = f.free;
}

unmap_loop-FoundIn :
    (fuel c : ℕ) (s : Store) (p : Option ℕ) (xs : List ℕ)
    → length xs ≤ fuel
    → Available s p xs
    → Returns (unmap_loop fuel c s p) (IsFound xs s)
unfolding unmap_loop
unmap_loop-FoundIn fuel c s p [] few av = rw av.chain (record {
  kept = Kept-refl [] s;
  fresh = refl;
  gone = λ j e. e;
  listed = λ j n e. not_some e;
  free = λ i e. absurd (not_some e);
})
unmap_loop-FoundIn zero c s p (x ∷ xs) few av = absurd (omega arith)
unmap_loop-FoundIn (suc fuel) c s p (x ∷ xs) few av =
    let (e, b, at, rest) = av.chain in
    let (b', at', roomy, refs) = av.free.0 in
    rw e (elim (Bool-cases (ltb b.capacity c)) [
      | inr keep ↦ rw (unmap_keep fuel c s x b at keep) (record {
        kept = Kept-refl (x ∷ xs) s;
        fresh = refl;
        gone = λ j q. q;
        listed = λ j n q. n.0 (sym (some_inj q));
        free = λ i q. (b', ap s.bufs (sym (some_inj q)) ∙ at', refs);
      })
      | inl small ↦ rw (unmap_next fuel c s x b at small) (
          Returns-imp (unmap_loop fuel c (record s { bufs = put s.bufs x none }) b.next)
            (unmapped x xs s)
            (unmap_loop-FoundIn fuel c (record s { bufs = put s.bufs x none }) b.next xs
              (omega arith)
              (record {
                chain = IsChain-put s.bufs x none b.next xs av.distinct.0 rest;
                distinct = av.distinct.1;
                free = Free-put s x none xs av.distinct.0 av.free.1;
              })))
    ])

-- The buffer made is not one of those that are kept.
abbrev pub Left : List ℕ → Store → Store × ℕ → Type 0
Left xs s (t, i) = Kept xs s t × ((j : ℕ) (b : AddrBuffer) → s.bufs j ≡ some b → NotIn j xs → i ≢ j)

pub put-Kept :
    (xs : List ℕ) (s t t' : Store) (i : ℕ) (v : AddrBuffer)
    → Kept xs s t
    → ((j : ℕ) (b : AddrBuffer) → s.bufs j ≡ some b → NotIn j xs → i ≢ j)
    → t'.bufs ≡ put t.bufs i (some v)
    → t'.first_retiree ≡ t.first_retiree
    → t'.last_retiree ≡ t.last_retiree
    → Left xs s (t', i)
put-Kept xs s t t' i v k other at e f = (
  record {
    buffers = λ j b q n.
        ap (λ g. g j) at ∙ put_other t.bufs i j (some v) (other j b q n) ∙ k.buffers j b q n;
    first = e ∙ k.first;
    last = f ∙ k.last;
  },
  other,
)

take_aggregate-Left :
    (xs : List ℕ) (s : Store) (c : ℕ)
    → s.bufs s.fresh ≡ none
    → (r : Store × Option ℕ) → IsFound xs s r
    → Returns (take_aggregate c r) (Left xs s)
unfolding take_aggregate map_aggregate
take_aggregate-Left xs s c un (t, none) f = put-Kept xs s t _ t.fresh _ f.kept new refl refl refl
  where
    new : (j : ℕ) (b : AddrBuffer) → s.bufs j ≡ some b → NotIn j xs → t.fresh ≢ j
    new j b at n e = not_some (sym un ∙ ap s.bufs (sym f.fresh ∙ e) ∙ at)
take_aggregate-Left xs s c un (t, some i) f =
    let (b, at, refs) = f.free i refl in
    rw (take_step c t i b at refs) (
      put-Kept xs s t _ i (record b { next = none; n_addrs = 0 }) f.kept
        (λ j b e n q. f.listed j n (ap some q)) refl refl refl)

pub make_aggregate_buffer-Left :
    (capacity : ℕ) (s : Store) (xs : List ℕ)
    → ((j : ℕ) → s.fresh ≤ j → s.bufs j ≡ none)
    → Available s s.available_aggregates xs
    → Returns (make_aggregate_buffer capacity s) (Left xs s)
unfolding make_aggregate_buffer
make_aggregate_buffer-Left capacity s xs un av =
    Returns-bind (Left xs s)
      (unmap_loop (suc s.fresh) (round_capacity capacity) s s.available_aggregates)
      (λ found. take_aggregate (round_capacity capacity) found)
      (unmap_loop-FoundIn (suc s.fresh) (round_capacity capacity) s s.available_aggregates xs
        (omega (arith, chain-few s s.available_aggregates xs un av.chain av.distinct)) av)
      (take_aggregate-Left xs s (round_capacity capacity) (un s.fresh (omega arith)))
