-- ===== src/Alloc/Subrange.antt =====
-- `metadata_break_range` of forkscan-changed/alloc.c.
use pp_final_project.Prelude.{
  ℕ, min, ◌≤◌, ◌<◌, ◌≡◌, ◌⊎◌, inl, inr, true, false, ◌&&◌, List, [], ◌∷◌, ltb, Returns, arith,
  Bool-cases, ltb→lt, refl, sym,
}
use native.Mathlib.Decide.{dec_lt}
use mathlib.Core.Path.{subst}
use pp_final_project.Alloc.Defs.{
  Metadata, MemRange, low_addr, high_addr, advance, advance_low, current, nodes_from, cut_high,
  break_at, metadata_break_range,
}
use pp_final_project.Alloc.Order.{Owned, Ordered, Owned-above}
use pp_final_project.Alloc.Advance.{
  Reaches, advance-Reaches, Begins, Advanced, advance_low-Advanced,
}

-- What `metadata_break_range` promises of the subrange `ret` of `big` and the range `rest` that remains.
pub record Subrange (l : List Metadata) (big ret rest : MemRange) : Type 0 where
  pub from : big.low ≤ ret.low
  pub within : ret.low ≤ ret.high
  pub to : ret.high ≤ big.high
  pub remains : rest ≡ record big { low = ret.high }
  pub free : (x : ℕ) → ret.low ≤ x → x < ret.high → Owned l x → ⊥
  pub skipped : (x : ℕ) → big.low ≤ x → x < ret.low → Owned l x
  pub progress : big.low < big.high → big.low < ret.high

-- The whole range, if no block has an address in it.
whole-Subrange :
    (l : List Metadata) (big : MemRange)
    → big.low ≤ big.high
    → ((x : ℕ) → big.low ≤ x → x < big.high → Owned l x → ⊥)
    → Subrange l big big (record big { low = big.high })
whole-Subrange l big h free = record {
  from = omega arith;
  within = h;
  to = omega arith;
  remains = refl;
  free = free;
  skipped = λ x p q. absurd (omega arith);
  progress = λ p. p;
}

cut_high-cases :
    (ret : MemRange) (curr : Metadata)
    → (ret.low < low_addr curr)
        × (cut_high ret curr ≡ record ret { high = min (low_addr curr) ret.high })
      ⊎ (low_addr curr ≤ ret.low) × (cut_high ret curr ≡ ret)
cut_high-cases ret curr = elim (Bool-cases (ltb ret.low (low_addr curr))) [
  | inl e ↦ inl (ltb→lt _ _ e, unfold cut_high in rw (e, cut_high))
  | inr e ↦ inr (ground arith, unfold cut_high in rw (e, cut_high))
]

-- An end at or before that of the range, with nothing owned before it.
ends-Subrange :
    (l : List Metadata) (big ret : MemRange) (left : List Metadata) (high : ℕ)
    → Begins l big.low ret left
    → ret.low ≤ high
    → high ≤ ret.high
    → ret.high ≡ big.high
    → ((x : ℕ) → ret.low ≤ x → x < high → Owned left x → ⊥)
    → (ret.low < high) ⊎ (high ≡ big.high)
    → Subrange l big (record ret { high = high }) (record big { low = high })
ends-Subrange l big ret left high s p q e free more = record {
  from = s.from;
  within = p;
  to = omega arith;
  remains = refl;
  free = λ x f g h. free x f g (s.ahead x f (omega arith) h);
  skipped = s.skipped;
  progress = λ h. omega (arith, s.from, more);
}

-- The end that `cut_high` makes.
cut-Subrange :
    (l : List Metadata) (big : MemRange) (first : Metadata) (r : MemRange × List Metadata)
    → Advanced l big r
    → let ret = cut_high r.0 (current first r.1) in
      Subrange l big ret (record big { low = ret.high })
cut-Subrange l big first (ret, []) (s, c, e) = elim (cut_high-cases ret first) [
  | inl (lt, f) ↦ rw f (
      ends-Subrange l big ret [] (min (low_addr first) ret.high) s (omega (arith, s.within))
        (omega arith) e (λ x p q h. h) (omega (arith, s.within, e)))
  | inr (le, f) ↦
      rw f (ends-Subrange l big ret [] ret.high s s.within (omega arith) e (λ x p q h. h) (inr e))
]
cut-Subrange l big first (ret, m ∷ left) (s, c, e) = elim (cut_high-cases ret m) [
  | inl (lt, f) ↦ rw f (
      ends-Subrange l big ret (m ∷ left) (min (low_addr m) ret.high) s (omega (arith, s.within))
        (omega arith) e
        (λ x p q h. let up = Owned-above (low_addr m) (m ∷ left) x c.1 h in omega arith)
        (omega (arith, s.within, e)))
  | inr (le, f) ↦ absurd (omega (arith, c.0))
]

-- The two outcomes of the test of `curr`.
break_at-cases :
    (first : Metadata) (tail : List Metadata) (big : MemRange) (nodes : List Metadata)
    → let curr = current first nodes in
      let r = advance_low big (nodes_from first tail nodes) in
      let ret = cut_high r.0 (current first r.1) in
      ((big.low < high_addr curr) × (low_addr curr < big.high))
        × (break_at first tail big nodes ≡ (ret, record big { low = ret.high }))
      ⊎ ((high_addr curr ≤ big.low) ⊎ (big.high ≤ low_addr curr))
        × (break_at first tail big nodes ≡ (big, record big { low = big.high }))
break_at-cases first tail big nodes =
    let curr = current first nodes in
    elim (Bool-cases (ltb big.low (high_addr curr) && ltb (low_addr curr) big.high)) [
      | inl e ↦ inl (both _ _ _ _ e, unfold break_at in rw (e, break_at))
      | inr e ↦ inr (neither _ _ _ _ e, unfold break_at in rw (e, break_at))
    ]
  where
    both : (a b c d : ℕ) → (ltb a b && ltb c d) ≡ true → (a < b) × (c < d)
    both a b c d e = ground arith

    neither : (a b c d : ℕ) → (ltb a b && ltb c d) ≡ false → (b ≤ a) ⊎ (d ≤ c)
    neither a b c d e = ground arith

-- What `break_at` makes of the nodes that `advance` ended at.
abbrev Broken : List Metadata → MemRange → MemRange × MemRange → Type 0
Broken l big r = Subrange l big r.0 r.1

break_at-Subrange :
    (b : ℕ) (first : Metadata) (tail : List Metadata) (big : MemRange) (nodes : List Metadata)
    → Ordered b (first ∷ tail)
    → big.low ≤ big.high
    → Reaches big.low (first ∷ tail) nodes
    → Broken (first ∷ tail) big (break_at first tail big nodes)
break_at-Subrange b first tail big [] o h r = elim (break_at-cases first tail big []) [
  | inr (out, e) ↦
      subst (Broken (first ∷ tail) big) (sym e)
        (whole-Subrange (first ∷ tail) big h (λ x p q a. r.keeps x p a))
  | inl (inside, e) ↦ elim (dec_lt (low_addr first) big.low) [
    | yes p ↦ absurd (r.keeps big.low (omega arith) (inl (omega arith, inside.0)))
    | no n ↦ absurd (r.keeps (low_addr first) (omega arith) (inl (omega arith, o.1)))
  ]
]
break_at-Subrange b first tail big (m ∷ rest) o h r =
    elim (break_at-cases first tail big (m ∷ rest)) [
      | inr (out, e) ↦ subst (Broken (first ∷ tail) big) (sym e) (
          whole-Subrange (first ∷ tail) big h (λ x p q a.
            let up : low_addr m ≤ x =
              Owned-above (low_addr m) (m ∷ rest) x (omega arith, r.order.1, r.order.2)
                (r.keeps x p a) in
            omega (arith, out, r.beyond)))
      | inl (inside, e) ↦ subst (Broken (first ∷ tail) big) (sym e) (
          cut-Subrange (first ∷ tail) big first (advance_low big (m ∷ rest)) (
            advance_low-Advanced (first ∷ tail) big 0 big (m ∷ rest) r.order r.sub
              (record {
                from = omega arith;
                within = h;
                skipped = λ x p q. absurd (omega arith);
                ahead = λ x p q a. r.keeps x p a;
              })
              refl))
    ]

-- The blocks being in order and the range not inverted, `metadata_break_range` returns. The subrange
-- lies in the range and no block has an address in it; the addresses of the range before it all belong
-- to blocks; the range that remains starts at its end; and if the range was not empty the one that
-- remains is smaller.
pub metadata_break_range-Subrange :
    (b : ℕ) (first : Metadata) (tail : List Metadata) (big : MemRange)
    → Ordered b (first ∷ tail)
    → big.low ≤ big.high
    → Returns (metadata_break_range (first ∷ tail) big) (λ r. Subrange (first ∷ tail) big r.0 r.1)
unfolding metadata_break_range
metadata_break_range-Subrange b first tail big o h =
    break_at-Subrange b first tail big (advance big.low (first ∷ tail)) o h
      (advance-Reaches big.low b (first ∷ tail) o)
