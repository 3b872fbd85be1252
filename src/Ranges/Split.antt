-- ===== src/Ranges/Split.antt =====
-- The inner loop of `collect_ranges` of forkscan-changed/child.c, and what is added for one subrange.
use mathlib.Core.Path.{subst}
use pp_final_project.Prelude.{
  ℕ, zero, suc, ◌+◌, ◌-◌, ◌≤◌, ◌<◌, ◌≡◌, ◌⊎◌, inl, inr, true, false, List, [], ◌∷◌, ◌++◌, length,
  length-append, ltb, leb, Run, done, fail, fatal, out_of_bounds, ◌>>=◌, refl, sym, ap, ◌∙◌,
  append-nil, append_assoc, Bool-cases, arith, ltb→lt,
}
use pp_final_project.Alloc.Defs.{Metadata, MemRange}
use pp_final_project.Alloc.Order.{Owned}
use pp_final_project.Ranges.Defs.{
  RangeTable, max_ranges, max_range_size, add_range, split_loop, add_subrange,
}
use pp_final_project.Ranges.Pieces.{
  total, Pieces, total-append, Pieces-append, Pieces-Owned, Pieces-one,
}

-- The call ends with a value that satisfies `P`, or it stops, and then `F` holds.
abbrev pub ReturnsOrFull : {A : Type 0} → Run A → (A → Type 0) → Type 0 → Type 0
ReturnsOrFull (done a) P F = P a
ReturnsOrFull (fail e) P F = ((e ≡ out_of_bounds) ⊎ (e ≡ fatal)) × F

pub ReturnsOrFull-bind :
    {A B : Type 0} {P : A → Type 0} {F : Type 0} (Q : B → Type 0) (G : Type 0) (m : Run A)
    (f : A → Run B)
    → ReturnsOrFull m P F
    → (F → G)
    → ((a : A) → P a → ReturnsOrFull (f a) Q G)
    → ReturnsOrFull (m >>= f) Q G
ReturnsOrFull-bind Q G (done a) f h full step = step a h
ReturnsOrFull-bind Q G (fail e) f h full step = (h.0, full h.1)

pub ReturnsOrFull-imp :
    {A : Type 0} {P Q : A → Type 0} {F G : Type 0} (m : Run A)
    → ((a : A) → P a → Q a)
    → (F → G)
    → ReturnsOrFull m P F
    → ReturnsOrFull m Q G
ReturnsOrFull-imp (done a) f g h = f a h
ReturnsOrFull-imp (fail e) f g h = (h.0, g h.1)

-- The ranges for what lies between `lo` and some address up to `hi`, behind those of `t`, are as many as the
-- table has places for.
pub record Full (blocks : List Metadata) (lo hi : ℕ) (t : RangeTable) : Type 0 where
  pub reached : ℕ
  pub from : lo ≤ reached
  pub within : reached ≤ hi
  pub added : List MemRange
  pub pieces : Pieces blocks lo reached added
  pub no_room : max_ranges ≤ length t.ranges + length added

-- `t'` is `t` with ranges added for what lies between `lo` and `hi`.
pub record Collected (blocks : List Metadata) (lo hi : ℕ) (t t' : RangeTable) : Type 0 where
  pub added : List MemRange
  pub grows : t'.ranges ≡ t.ranges ++ added
  pub bytes : t'.bytes_to_scan ≡ t.bytes_to_scan + total added
  pub pieces : Pieces blocks lo hi added

-- The ranges that `split_loop` adds, up to the one it leaves.
record Split (blocks : List Metadata) (next : MemRange) (t : RangeTable) (r : MemRange × RangeTable)
    : Type 0 where
  added : List MemRange
  grows : r.1.ranges ≡ t.ranges ++ added
  bytes : r.1.bytes_to_scan ≡ t.bytes_to_scan
  pieces : Pieces blocks next.low r.0.low added
  ahead : next.low ≤ r.0.low
  left : r.0.low < r.0.high
  end : r.0.high ≡ next.high
  short : r.0.high ≤ r.0.low + max_range_size
  count : total added + (r.0.high - r.0.low) ≡ next.high - next.low

pub add_range-lem :
    (t : RangeTable) (r : MemRange)
    → ReturnsOrFull
        (add_range t r)
        (λ t'. t' ≡ record t { ranges = t.ranges ++ r ∷ [] })
        (max_ranges ≤ length t.ranges)
unfolding add_range
add_range-lem t r = elim (Bool-cases (ltb (length t.ranges) max_ranges)) [
  | inl e ↦ rw (e, ReturnsOrFull) refl
  | inr e ↦ rw (e, ReturnsOrFull) (inl refl, ground arith)
]

split_loop-last :
    (fuel : ℕ) (next : MemRange) (t : RangeTable)
    → ltb (next.low + max_range_size) next.high ≡ false
    → split_loop (suc fuel) next t ≡ done (next, t)
unfolding split_loop
split_loop-last fuel next t e = rw (e, split_loop)

split_loop-next :
    (fuel : ℕ) (next : MemRange) (t : RangeTable)
    → ltb (next.low + max_range_size) next.high ≡ true
    → split_loop (suc fuel) next t ≡ (
        add_range t (record next { high = next.low + max_range_size }) >>= λ t'.
        split_loop fuel (record next { low = next.low + max_range_size }) t')
unfolding split_loop
split_loop-next fuel next t e = rw (e, split_loop)

module _ (blocks : List Metadata) where
  abbrev Free : ℕ → ℕ → Type 0
  Free lo hi = (x : ℕ) → lo ≤ x → x < hi → Owned blocks x → ⊥

  -- The table is full already.
  Full-here :
      (lo hi : ℕ) (t : RangeTable) → lo ≤ hi → max_ranges ≤ length t.ranges → Full blocks lo hi t
  Full-here lo hi t h full = record {
    reached = lo;
    from = omega arith;
    within = h;
    added = [];
    pieces = Pieces-Owned blocks lo lo (λ x f g. absurd (omega arith));
    no_room = omega arith;
  }

  -- The table is full behind the ranges of a first part.
  pub Full-append :
      (lo mid hi : ℕ) (t t' : RangeTable) (added : List MemRange)
      → lo ≤ mid
      → t'.ranges ≡ t.ranges ++ added
      → Pieces blocks lo mid added
      → Full blocks mid hi t'
      → Full blocks lo hi t
  Full-append lo mid hi t t' added h grows pieces f = record {
    reached = f.reached;
    from = omega (arith, f.from);
    within = f.within;
    added = added ++ f.added;
    pieces = Pieces-append blocks lo mid f.reached added f.added h f.from pieces f.pieces;
    no_room = omega (
      arith,
      f.no_room,
      ap length grows,
      length-append t.ranges added,
      length-append added f.added,
    );
  }

  abbrev first_chunk : MemRange → MemRange
  first_chunk next = record next { high = next.low + max_range_size }

  abbrev second_part : MemRange → MemRange
  second_part next = record next { low = next.low + max_range_size }

  abbrev with_chunk : MemRange → RangeTable → RangeTable
  with_chunk next t = record t { ranges = t.ranges ++ first_chunk next ∷ [] }

  Split-cons :
      (next : MemRange) (t : RangeTable) (r : MemRange × RangeTable)
      → next.low + max_range_size < next.high
      → Free next.low next.high
      → Split blocks (second_part next) (with_chunk next t) r
      → Split blocks next t r
  Split-cons next t r long free s = record {
    added = first_chunk next ∷ s.added;
    grows = s.grows ∙ append_assoc t.ranges (first_chunk next ∷ []) s.added;
    bytes = s.bytes;
    pieces =
        Pieces-append blocks next.low (next.low + max_range_size) r.0.low (first_chunk next ∷ [])
          s.added (omega arith) s.ahead
          (Pieces-one blocks next.low (next.low + max_range_size) (omega arith) (omega arith)
            (λ x f g. free x f (omega arith)))
          s.pieces;
    ahead = omega (arith, s.ahead);
    left = s.left;
    end = s.end;
    short = s.short;
    count = omega (arith, s.count);
  }

  split_loop-Split :
      (fuel : ℕ) (next : MemRange) (t : RangeTable)
      → next.high - next.low < fuel
      → next.low < next.high
      → Free next.low next.high
      → ReturnsOrFull
          (split_loop fuel next t)
          (Split blocks next t)
          (Full blocks next.low next.high t)
  split_loop-Split zero next t few p free = absurd (omega arith)
  split_loop-Split (suc fuel) next t few p free =
      elim (Bool-cases (ltb (next.low + max_range_size) next.high)) [
        | inr last ↦ rw (split_loop-last fuel next t last) (record {
          added = [];
          grows = sym (append-nil t.ranges);
          bytes = refl;
          pieces = Pieces-Owned blocks next.low next.low (λ x f g. absurd (omega arith));
          ahead = omega arith;
          left = p;
          end = refl;
          short = ground arith;
          count = omega arith;
        })
        | inl more ↦
            let long : next.low + max_range_size < next.high = ltb→lt _ _ more in
            rw (split_loop-next fuel next t more) (
              ReturnsOrFull-bind (Split blocks next t) (Full blocks next.low next.high t)
                (add_range t (first_chunk next)) _ (add_range-lem t (first_chunk next))
                (Full-here next.low next.high t (omega arith))
                (λ t' e. rw e (
                  ReturnsOrFull-imp (split_loop fuel (second_part next) (with_chunk next t))
                    (λ r s. Split-cons next t r long free s)
                    (λ f.
                      Full-append next.low (next.low + max_range_size) next.high t
                        (with_chunk next t) (first_chunk next ∷ []) (omega arith) refl
                        (Pieces-one blocks next.low (next.low + max_range_size) (omega arith)
                          (omega arith) (λ x f g. free x f (omega arith)))
                        f)
                    (split_loop-Split fuel (second_part next) (with_chunk next t) (omega arith)
                      (omega arith) (λ x f g. free x (omega arith) g)))))
      ]

  -- A subrange that is not empty and free of blocks is added whole.
  pub add_subrange-Collected :
      (next : MemRange) (t : RangeTable)
      → next.low < next.high
      → Free next.low next.high
      → ReturnsOrFull
          (add_subrange next t)
          (Collected blocks next.low next.high t)
          (Full blocks next.low next.high t)
  unfolding add_subrange
  add_subrange-Collected next t p free =
      let full = Full blocks next.low next.high t in
      ReturnsOrFull-bind (Collected blocks next.low next.high t) full
        (split_loop (suc (next.high - next.low)) next counted) _
        (split_loop-Split (suc (next.high - next.low)) next counted (omega arith) p free)
        (λ f. record {
          reached = f.reached;
          from = f.from;
          within = f.within;
          added = f.added;
          pieces = f.pieces;
          no_room = f.no_room;
        })
        (λ r s.
          ReturnsOrFull-bind (Collected blocks next.low next.high t) full (add_range r.1 r.0) _
            (add_range-lem r.1 r.0)
            (λ none_left.
              Full-append next.low r.0.low next.high t r.1 s.added s.ahead s.grows s.pieces
                (Full-here r.0.low next.high r.1 (omega (arith, s.left, s.end)) none_left))
            (λ t'' e. elim (Bool-cases (leb max_ranges (length t''.ranges))) [
              | inl over ↦
                  rw (over, ReturnsOrFull)
                    (
                      inr refl,
                      let c = whole r s in
                          Full-append next.low next.high next.high t
                            (record r.1 { ranges = r.1.ranges ++ r.0 ∷ [] }) c.added (omega arith)
                            c.grows c.pieces
                            (Full-here next.high next.high _ (omega arith) (
                              subst (λ (u : RangeTable). max_ranges ≤ length u.ranges) e
                                (ground arith))),
                    )
              | inr room ↦ rw (room, ReturnsOrFull) (rw e (whole r s))
            ]))
    where
      counted : RangeTable
      counted = record t { bytes_to_scan = t.bytes_to_scan + (next.high - next.low) }

      whole :
          (r : MemRange × RangeTable)
          → Split blocks next counted r
          → Collected blocks next.low next.high t (record r.1 { ranges = r.1.ranges ++ r.0 ∷ [] })
      whole r s = record {
        added = s.added ++ r.0 ∷ [];
        grows = ap (λ xs. xs ++ r.0 ∷ []) s.grows ∙ append_assoc t.ranges s.added (r.0 ∷ []);
        bytes = omega (arith, s.bytes, s.count, total-append s.added (r.0 ∷ []));
        pieces =
            Pieces-append blocks next.low r.0.low next.high s.added (r.0 ∷ []) s.ahead
              (omega (arith, s.left, s.end)) s.pieces
              (subst (λ h. Pieces blocks r.0.low h (r.0 ∷ [])) s.end
                (Pieces-one blocks r.0.low r.0.high s.left s.short
                  (λ x f g. free x (omega (arith, s.ahead)) (omega (arith, s.end)))));
      }

  -- Nothing is added for a subrange that blocks fill.
  pub Collected-Owned :
      (lo hi : ℕ) (t : RangeTable)
      → ((x : ℕ) → lo ≤ x → x < hi → Owned blocks x)
      → Collected blocks lo hi t t
  Collected-Owned lo hi t o = record {
    added = [];
    grows = sym (append-nil t.ranges);
    bytes = omega arith;
    pieces = Pieces-Owned blocks lo hi o;
  }

  pub Collected-append :
      (lo mid hi : ℕ) (t t' t'' : RangeTable)
      → lo ≤ mid
      → mid ≤ hi
      → Collected blocks lo mid t t'
      → Collected blocks mid hi t' t''
      → Collected blocks lo hi t t''
  Collected-append lo mid hi t t' t'' p q c d = record {
    added = c.added ++ d.added;
    grows = d.grows ∙ ap (λ xs. xs ++ d.added) c.grows ∙ append_assoc t.ranges c.added d.added;
    bytes = omega (arith, c.bytes, d.bytes, total-append c.added d.added);
    pieces = Pieces-append blocks lo mid hi c.added d.added p q c.pieces d.pieces;
  }
