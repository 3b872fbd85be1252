-- ===== src/Alloc/Advance.antt =====
-- The two loops of `metadata_break_range` of forkscan-changed/alloc.c.
use pp_final_project.Prelude.{
  ℕ, min, ◌≤◌, ◌<◌, ◌≡◌, inl, inr, true, false, List, [], ◌∷◌, leb, arith, Bool-cases, leb→le, sym,
}
use native.Mathlib.Decide.{dec_lt}
use mathlib.Core.Path.{subst}
use pp_final_project.Alloc.Defs.{Metadata, MemRange, low_addr, high_addr, advance, advance_low}
use pp_final_project.Alloc.Order.{Owned, Ordered, Ordered-le}

-- The first node, if any, reaches beyond `low`.
abbrev Beyond : ℕ → List Metadata → Type 0
Beyond low [] = Unit
Beyond low (m ∷ l) = low < high_addr m

-- The nodes that `advance` ends at: they own what the list owns from `low` on.
pub record Reaches (low : ℕ) (l nodes : List Metadata) : Type 0 where
  pub keeps : (x : ℕ) → low ≤ x → Owned l x → Owned nodes x
  pub sub : (x : ℕ) → Owned nodes x → Owned l x
  pub order : Ordered 0 nodes
  pub beyond : Beyond low nodes

advance-past :
    (low : ℕ) (m : Metadata) (l : List Metadata)
    → leb (high_addr m) low ≡ true
    → advance low (m ∷ l) ≡ advance low l
unfolding advance
advance-past low m l e = rw (e, advance)

advance-stop :
    (low : ℕ) (m : Metadata) (l : List Metadata)
    → leb (high_addr m) low ≡ false
    → advance low (m ∷ l) ≡ m ∷ l
unfolding advance
advance-stop low m l e = rw (e, advance)

pub advance-Reaches : (low b : ℕ) (l : List Metadata) → Ordered b l → Reaches low l (advance low l)
advance-Reaches low b [] o =
    unfold advance in record { keeps = λ x p h. h; sub = λ x h. h; order = tt; beyond = tt }
advance-Reaches low b (m ∷ l) o = elim (Bool-cases (leb (high_addr m) low)) [
  | inl past ↦
      let rec = advance-Reaches low (high_addr m) l o.2 in
      subst (Reaches low (m ∷ l)) (sym (advance-past low m l past)) (record {
        keeps = λ x p h. elim h [ inl a ↦ absurd (ground (arith, a)) | inr a ↦ rec.keeps x p a ];
        sub = λ x h. inr (rec.sub x h);
        order = rec.order;
        beyond = rec.beyond;
      })
  | inr stop ↦ subst (Reaches low (m ∷ l)) (sym (advance-stop low m l stop)) (record {
    keeps = λ x p h. h;
    sub = λ x h. h;
    order = Ordered-le 0 b (m ∷ l) (omega arith) o;
    beyond = ground arith;
  })
]

-- The range `ret` begins at or behind `low`, the addresses left out are owned, and what is owned from
-- there on is owned by the nodes `left`.
pub record Begins (l : List Metadata) (low : ℕ) (ret : MemRange) (left : List Metadata)
    : Type 0 where
  pub from : low ≤ ret.low
  pub within : ret.low ≤ ret.high
  pub skipped : (x : ℕ) → low ≤ x → x < ret.low → Owned l x
  pub ahead : (x : ℕ) → ret.low ≤ x → x < ret.high → Owned l x → Owned left x

-- No block reaches the beginning any more.
abbrev Clear : MemRange → List Metadata → Type 0
Clear ret [] = Unit
Clear ret (m ∷ l) = (ret.low < low_addr m) × Ordered (low_addr m) (m ∷ l)

abbrev pub Advanced : List Metadata → MemRange → MemRange × List Metadata → Type 0
Advanced l big r = Begins l big.low r.0 r.1 × Clear r.0 r.1 × (r.0.high ≡ big.high)

advance_low-stop :
    (ret : MemRange) (m : Metadata) (l : List Metadata)
    → leb (low_addr m) ret.low ≡ false
    → advance_low ret (m ∷ l) ≡ (ret, m ∷ l)
unfolding advance_low
advance_low-stop ret m l e = rw (e, advance_low)

advance_low-move :
    (ret : MemRange) (m : Metadata) (l : List Metadata)
    → leb (low_addr m) ret.low ≡ true
    → leb ret.low (high_addr m) ≡ true
    → advance_low ret (m ∷ l) ≡ advance_low (record ret { low = min (high_addr m) ret.high }) l
unfolding advance_low
advance_low-move ret m l e f = rw (e, advance_low) (rw (f, advance_low))

advance_low-stay :
    (ret : MemRange) (m : Metadata) (l : List Metadata)
    → leb (low_addr m) ret.low ≡ true
    → leb ret.low (high_addr m) ≡ false
    → advance_low ret (m ∷ l) ≡ advance_low ret l
unfolding advance_low
advance_low-stay ret m l e f = rw (e, advance_low) (rw (f, advance_low))

pub advance_low-Advanced :
    (l : List Metadata) (big : MemRange) (b : ℕ) (ret : MemRange) (left : List Metadata)
    → Ordered b left
    → ((x : ℕ) → Owned left x → Owned l x)
    → Begins l big.low ret left
    → ret.high ≡ big.high
    → Advanced l big (advance_low ret left)
advance_low-Advanced l big b ret [] o sub s e = unfold advance_low in (s, tt, e)
advance_low-Advanced l big b ret (m ∷ left) o sub s e =
    elim (Bool-cases (leb (low_addr m) ret.low)) [
      | inr stop ↦
          subst (Advanced l big) (sym (advance_low-stop ret m left stop))
            (s, (ground arith, (omega arith, o.1, o.2)), e)
      | inl reached ↦ elim (Bool-cases (leb ret.low (high_addr m))) [
        | inl move ↦ subst (Advanced l big) (sym (advance_low-move ret m left reached move)) (
            advance_low-Advanced l big (high_addr m)
              (record ret { low = min (high_addr m) ret.high }) left o.2 (λ x h. sub x (inr h))
              (moved reached move) e)
        | inr stay ↦ subst (Advanced l big) (sym (advance_low-stay ret m left reached stay)) (
            advance_low-Advanced l big (high_addr m) ret left o.2 (λ x h. sub x (inr h))
              (stayed stay) e)
      ]
    ]
  where
    moved :
        leb (low_addr m) ret.low ≡ true
        → leb ret.low (high_addr m) ≡ true
        → Begins l big.low (record ret { low = min (high_addr m) ret.high }) left
    moved reached move =
        let below : low_addr m ≤ ret.low = leb→le _ _ reached in
        let reach : ret.low ≤ high_addr m = leb→le _ _ move in
        record {
          from = omega (arith, s.from, s.within);
          within = omega arith;
          skipped = λ x p q. elim (dec_lt x ret.low) [
            | yes before ↦ s.skipped x p before
            | no n ↦ sub x (inl (omega arith, omega arith))
          ];
          ahead = λ x p q h. elim (s.ahead x (omega (arith, s.within)) q h) [
            | inl a ↦ absurd (omega (arith, a))
            | inr a ↦ a
          ];
        }

    stayed : leb ret.low (high_addr m) ≡ false → Begins l big.low ret left
    stayed stay = record {
      from = s.from;
      within = s.within;
      skipped = s.skipped;
      ahead = λ x p q h. elim (s.ahead x p q h) [ inl a ↦ absurd (ground (arith, a)) | inr a ↦ a ];
    }
