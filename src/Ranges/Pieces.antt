-- ===== src/Ranges/Pieces.antt =====
-- What a list of ranges covers of the memory between two addresses.
use pp_final_project.Prelude.{
  ℕ, ◌+◌, ◌-◌, ◌≤◌, ◌<◌, ◌≡◌, ◌⊎◌, inl, inr, List, [], ◌∷◌, ◌++◌, All, All-append, All-imp, arith,
}
use native.Mathlib.Decide.{dec_lt}
use pp_final_project.Alloc.Defs.{Metadata, MemRange}
use pp_final_project.Alloc.Order.{Owned}
use pp_final_project.Ranges.Defs.{max_range_size}

-- The address `x` lies in a range of the list.
abbrev pub Covers : List MemRange → ℕ → Type 0
Covers [] x = ⊥
Covers (r ∷ rs) x = (r.low ≤ x) × (x < r.high) ⊎ Covers rs x

abbrev pub total : List MemRange → ℕ
total [] = 0
total (r ∷ rs) = r.high - r.low + total rs

-- A range between `lo` and `hi` that is not empty nor too long, with no address of a block.
pub record Piece (blocks : List Metadata) (lo hi : ℕ) (r : MemRange) : Type 0 where
  pub from : lo ≤ r.low
  pub some_address : r.low < r.high
  pub to : r.high ≤ hi
  pub short : r.high ≤ r.low + max_range_size
  pub free : (x : ℕ) → r.low ≤ x → x < r.high → Owned blocks x → ⊥

-- The ranges are such pieces, and what lies between `lo` and `hi` is in one of them or owned.
pub record Pieces (blocks : List Metadata) (lo hi : ℕ) (rs : List MemRange) : Type 0 where
  pub each : All (Piece blocks lo hi) rs
  pub covers : (x : ℕ) → lo ≤ x → x < hi → Covers rs x ⊎ Owned blocks x

pub Covers-append_left : (rs ss : List MemRange) (x : ℕ) → Covers rs x → Covers (rs ++ ss) x
Covers-append_left [] ss x h = absurd h
Covers-append_left (r ∷ rs) ss x (inl h) = inl h
Covers-append_left (r ∷ rs) ss x (inr h) = inr (Covers-append_left rs ss x h)

pub Covers-append_right : (rs ss : List MemRange) (x : ℕ) → Covers ss x → Covers (rs ++ ss) x
Covers-append_right [] ss x h = h
Covers-append_right (r ∷ rs) ss x h = inr (Covers-append_right rs ss x h)

pub total-append : (rs ss : List MemRange) → total (rs ++ ss) ≡ total rs + total ss
total-append [] ss = omega arith
total-append (r ∷ rs) ss = omega (arith, total-append rs ss)

module _ (blocks : List Metadata) where
  Piece-widen :
      (lo lo' hi hi' : ℕ) (r : MemRange)
      → lo' ≤ lo
      → hi ≤ hi'
      → Piece blocks lo hi r
      → Piece blocks lo' hi' r
  Piece-widen lo lo' hi hi' r p q s = record {
    from = omega (arith, s.from);
    some_address = s.some_address;
    to = omega (arith, s.to);
    short = s.short;
    free = s.free;
  }

  pub Pieces-append :
      (lo mid hi : ℕ) (rs ss : List MemRange)
      → lo ≤ mid
      → mid ≤ hi
      → Pieces blocks lo mid rs
      → Pieces blocks mid hi ss
      → Pieces blocks lo hi (rs ++ ss)
  Pieces-append lo mid hi rs ss p q r s = record {
    each =
        All-append (Piece blocks lo hi) rs ss
          (All-imp (λ x. Piece-widen lo lo mid hi x (omega arith) q) rs r.each)
          (All-imp (λ x. Piece-widen mid lo hi hi x p (omega arith)) ss s.each);
    covers = λ x f g. elim (dec_lt x mid) [
      | yes lt ↦ elim (r.covers x f lt) [
        | inl c ↦ inl (Covers-append_left rs ss x c)
        | inr o ↦ inr o
      ]
      | no n ↦ elim (s.covers x (omega arith) g) [
        | inl c ↦ inl (Covers-append_right rs ss x c)
        | inr o ↦ inr o
      ]
    ];
  }

  pub Pieces-Owned :
      (lo hi : ℕ) → ((x : ℕ) → lo ≤ x → x < hi → Owned blocks x) → Pieces blocks lo hi []
  Pieces-Owned lo hi o = record { each = tt; covers = λ x p q. inr (o x p q) }

  pub Pieces-one :
      (lo hi : ℕ)
      → lo < hi
      → hi ≤ lo + max_range_size
      → ((x : ℕ) → lo ≤ x → x < hi → Owned blocks x → ⊥)
      → Pieces blocks lo hi (record { low = lo; high = hi } ∷ [])
  Pieces-one lo hi p short free = record {
    each = (
      record { from = omega arith; some_address = p; to = omega arith; short = short; free = free },
      tt,
    );
    covers = λ x f g. inl (inl (f, g));
  }
