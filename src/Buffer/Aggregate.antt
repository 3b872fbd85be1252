-- ===== src/Buffer/Aggregate.antt =====
-- `forkscan_make_aggregate_buffer` of forkscan-changed/buffer.c: the buffer that it returns has room for
-- the addresses and for their minimap.
use mathlib.Core.Path.{subst}
use pp_final_project.Prelude.{
  ℕ, zero, suc, ◌*◌, ◌≤◌, ◌≡◌, refl, sym, ap, ◌∙◌, true, false, List, [], ◌∷◌, All, length,
  replicate, ltb, ◌==◌, Option, none, some, done, Returns, Returns-bind, Returns-imp, arith,
  Bool-cases, inl, inr,
}
use pp_final_project.Scan.Defs.{page_addrs}
use pp_final_project.Buffer.Defs.{AddrBuffer}
use pp_final_project.Buffer.Lists.{
  Store, put, store, mapped, pages_for, round_capacity, unmap_small, unmap_loop, map_aggregate,
  take_aggregate, make_aggregate_buffer,
}
use pp_final_project.Buffer.Chain.{
  IsChain, NotIn, Distinct, put_self, put_other, IsChain-put, chain-few, load_at, some_inj,
}

-- The arrays of the buffer have room for its capacity.
abbrev pub Roomy : AddrBuffer → Type 0
Roomy b = (b.capacity ≤ length b.addrs) × (b.capacity ≤ length b.minimap * page_addrs)

-- A buffer that may be used again.
abbrev pub Free : (ℕ → Option AddrBuffer) → ℕ → Type 0
Free bufs i = (b : AddrBuffer) × (bufs i ≡ some b) × Roomy b × (b.ref_count ≡ 0)

-- The available aggregates are the list `xs`.
pub record Available (s : Store) (p : Option ℕ) (xs : List ℕ) : Type 0 where
  pub chain : IsChain s.bufs p xs
  pub distinct : Distinct xs
  pub free : All (Free s.bufs) xs

pub length-replicate : (n v : ℕ) → length (replicate n v) ≡ n
length-replicate zero v = refl
length-replicate (suc n) v = ap suc (length-replicate n v)

round_capacity-ge : (n : ℕ) → n ≤ round_capacity n
unfolding round_capacity
round_capacity-ge n = ground arith

mapped-Roomy :
    (c : ℕ)
    → Roomy (mapped true c (pages_for c * page_addrs) (pages_for (pages_for c) * page_addrs))
mapped-Roomy c = (
  omega (arith, length-replicate (pages_for c * page_addrs) 0),
  omega (arith, length-replicate (pages_for (pages_for c) * page_addrs) 0),
)

pub Free-put :
    (s : Store) (i : ℕ) (v : Option AddrBuffer) (xs : List ℕ)
    → NotIn i xs
    → All (Free s.bufs) xs
    → All (Free (put s.bufs i v)) xs
Free-put s i v [] n a = tt
Free-put s i v (x ∷ xs) n a =
    let (b, at, more, zero_refs) = a.0 in
    ((b, put_other s.bufs i x v n.0 ∙ at, more, zero_refs), Free-put s i v xs n.1 a.1)

-- What the `while` finds: nothing, or a buffer that is large enough and free, with the rest of the list
-- behind it.
abbrev Found : ℕ → Store → Store × Option ℕ → Type 0
Found c s (t, none) = Unit
Found c s (t, some i) =
    (b : AddrBuffer) × (t.bufs i ≡ some b)
    × (c ≤ b.capacity)
    × Roomy b
    × (b.ref_count ≡ 0)
    × (ys : List ℕ) × Available t b.next ys
    × NotIn i ys

module _ (fuel c : ℕ) (s : Store) (x : ℕ) (b : AddrBuffer) (at : s.bufs x ≡ some b) where
  pub unmap_keep : ltb b.capacity c ≡ false → unmap_loop (suc fuel) c s (some x) ≡ done (s, some x)
  unfolding unmap_loop unmap_small
  unmap_keep h = rw (load_at s x b at, unmap_loop) (rw (h, unmap_small) refl)

  pub unmap_next :
      ltb b.capacity c ≡ true
      → unmap_loop (suc fuel) c s (some x)
        ≡ unmap_loop fuel c (record s { bufs = put s.bufs x none }) b.next
  unfolding unmap_loop unmap_small
  unmap_next h = rw (load_at s x b at, unmap_loop) (rw (h, unmap_small) refl)

unmap_loop-Found :
    (fuel c : ℕ) (s : Store) (p : Option ℕ) (xs : List ℕ)
    → length xs ≤ fuel
    → Available s p xs
    → Returns (unmap_loop fuel c s p) (Found c s)
unfolding unmap_loop
unmap_loop-Found fuel c s p [] few av = rw av.chain tt
unmap_loop-Found zero c s p (x ∷ xs) few av = absurd (omega arith)
unmap_loop-Found (suc fuel) c s p (x ∷ xs) few av =
    let (e, b, at, rest) = av.chain in
    let (b', at', roomy, zero_refs) = av.free.0 in
    let same : b' ≡ b = some_inj (sym at' ∙ at) in
    rw e (elim (Bool-cases (ltb b.capacity c)) [
      | inr keep ↦ rw (unmap_keep fuel c s x b at keep) (
        b,
        at,
        ground arith,
        subst Roomy same roomy,
        ap (λ z. z.ref_count) (sym same) ∙ zero_refs,
        xs,
        record { chain = rest; distinct = av.distinct.1; free = av.free.1 },
        av.distinct.0,
      )
      | inl small ↦ rw (unmap_next fuel c s x b at small) (
          unmap_loop-Found fuel c (record s { bufs = put s.bufs x none }) b.next xs (omega arith)
            (record {
              chain = IsChain-put s.bufs x none b.next xs av.distinct.0 rest;
              distinct = av.distinct.1;
              free = Free-put s x none xs av.distinct.0 av.free.1;
            }))
    ])

-- The buffer `i` is new or free, and the list of available buffers is `ys`, without it.
abbrev pub Made : ℕ → Store × ℕ → Type 0
Made c (t, i) =
    (b : AddrBuffer) × (t.bufs i ≡ some b)
    × (c ≤ b.capacity)
    × Roomy b
    × (b.n_addrs ≡ 0)
    × (b.ref_count ≡ 0)
    × (ys : List ℕ) × Available t t.available_aggregates ys
    × NotIn i ys

take_none : (c : ℕ) (s : Store) → Returns (take_aggregate c (s, none)) (Made c)
unfolding take_aggregate map_aggregate
take_none c s =
    let b = mapped true c (pages_for c * page_addrs) (pages_for (pages_for c) * page_addrs) in
    (
      mapped true c (pages_for c * page_addrs) (pages_for (pages_for c) * page_addrs),
      put_self s.bufs s.fresh _,
      omega arith,
      mapped-Roomy c,
      refl,
      refl,
      [],
      record { chain = refl; distinct = tt; free = tt },
      tt,
    )

pub take_step :
    (c : ℕ) (s : Store) (i : ℕ) (b : AddrBuffer)
    → s.bufs i ≡ some b
    → b.ref_count ≡ 0
    → take_aggregate c (s, some i)
      ≡ done (
        record (store s i (record b { next = none; n_addrs = 0 })) {
          available_aggregates = b.next;
        },
        i,
      )
unfolding take_aggregate
take_step c s i b at refs =
    let test : (b.ref_count == 0) ≡ true = ground arith in
    rw (load_at s i b at, take_aggregate) (rw test refl)

take_some :
    (c : ℕ) (s t : Store) (i : ℕ)
    → Found c s (t, some i)
    → Returns (take_aggregate c (t, some i)) (Made c)
take_some c s t i (b, at, large, roomy, refs, ys, av, out) = rw (take_step c t i b at refs) (
  record b { next = none; n_addrs = 0 },
  put_self t.bufs i _,
  large,
  roomy,
  refl,
  refs,
  ys,
  record {
    chain = IsChain-put t.bufs i _ b.next ys out av.chain;
    distinct = av.distinct;
    free = Free-put t i _ ys out av.free;
  },
  out,
)

-- With a list of available buffers that are free and have room for their capacities, a call for
-- `capacity` addresses returns a buffer, one of the list or a new one, that is empty and free, has
-- room for that many addresses and for their minimap, and is not in the list any more; the rest of the
-- list is as good as before.
pub make_aggregate_buffer-Roomy :
    (capacity : ℕ) (s : Store) (xs : List ℕ)
    → ((j : ℕ) → s.fresh ≤ j → s.bufs j ≡ none)
    → Available s s.available_aggregates xs
    → Returns (make_aggregate_buffer capacity s) (Made capacity)
unfolding make_aggregate_buffer
make_aggregate_buffer-Roomy capacity s xs un av =
    let rounded = round_capacity capacity in
    Returns-bind (Made capacity)
      (unmap_loop (suc s.fresh) (round_capacity capacity) s s.available_aggregates)
      (λ found. take_aggregate (round_capacity capacity) found)
      (unmap_loop-Found (suc s.fresh) (round_capacity capacity) s s.available_aggregates xs
        (omega (arith, chain-few s s.available_aggregates xs un av.chain av.distinct)) av)
      (λ r f.
        Returns-imp (take_aggregate (round_capacity capacity) r)
          (weaker (round_capacity-ge capacity)) (take (round_capacity capacity) r f))
  where
    take : (c : ℕ) (r : Store × Option ℕ) → Found c s r → Returns (take_aggregate c r) (Made c)
    take c (t, none) f = take_none c t
    take c (t, some i) f = take_some c s t i f

    weaker : {c d : ℕ} → c ≤ d → (r : Store × ℕ) → Made d r → Made c r
    weaker {c} {d} le (t, i) (b, at, large, roomy, empty, refs, ys, av, out) =
        (b, at, omega arith, roomy, empty, refs, ys, av, out)
