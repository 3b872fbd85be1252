-- ===== src/Scan/Mark.antt =====
-- `recursive_mark` of forkscan-changed/child.c: it ends, and marks exactly what the scanned block
-- refers to itself.
use native.Mathlib.Decide.{ℕ_discrete}
use mathlib.Core.Path.{subst}
use pp_final_project.Prelude.{
  ℕ, zero, suc, ◌+◌, ◌*◌, ◌/◌, ◌%◌, ◌≤◌, ◌<◌, ◌≡◌, ◌≢◌, refl, sym, ap, ◌∙◌, true, false, List,
  length, set, if◌then◌else◌, Run, done, fail, Returns, arith, inl, inr, ◌⊎◌, get_or-set_self,
  get_or-set_ne,
}
use pp_final_project.Buffer.Defs.{AddrBuffer}
use pp_final_project.Scan.Defs.{addr_find, ptr_mask, is_marked}
use pp_final_project.Scan.Binary.{◌!◌}
use pp_final_project.Scan.Find.{Tracked, addr_find_in_bounds, addr_find_unmarked}

-- The number of cells among the first `n` that bear no mark.
unfoldable pub unmarked : List ℕ → ℕ → ℕ
unmarked a zero = 0
unmarked a (suc n) = (if is_marked (a ! n) then 0 else 1) + unmarked a n

-- `addr_find` returns, and no other cell holds the value unmarked.
pub addr_find_lem :
    (ab : AddrBuffer) (orig : List ℕ) (val : ℕ)
    → Tracked ab orig
    → val % 4 ≡ 0
    → (loc : ℕ) × (addr_find val ab ≡ done loc)
      × (loc < ab.n_addrs)
      × ((j : ℕ) → j < ab.n_addrs → ab.addrs ! j ≡ val → loc ≡ j)
addr_find_lem ab orig val t low = go (addr_find val ab) refl
  where
    go :
        (m : Run ℕ)
        → addr_find val ab ≡ m
        → (loc : ℕ) × (addr_find val ab ≡ done loc)
          × (loc < ab.n_addrs)
          × ((j : ℕ) → j < ab.n_addrs → ab.addrs ! j ≡ val → loc ≡ j)
    go (done loc) e = (
      loc,
      e,
      subst (λ m. Returns m (λ l. l < ab.n_addrs)) e (addr_find_in_bounds ab orig t val),
      λ j p f. subst (λ m. Returns m (λ l. l ≡ j)) e (addr_find_unmarked ab orig t val j p low f),
    )
    go (fail x) e =
        absurd (subst (λ m. Returns m (λ l. l < ab.n_addrs)) e (addr_find_in_bounds ab orig t val))

module _ (mem : ℕ → ℕ) (usable_size : ℕ → ℕ) (ptr : ℕ) where
  -- The reference that word `i` of the block holds.
  abbrev pub ref : ℕ → ℕ
  ref i = ptr_mask (mem (ptr + 8 * i))

  abbrev pub n_words : ℕ
  n_words = usable_size ptr / 8

  -- Some word of the block refers to `v`.
  abbrev pub Refers : ℕ → Type 0
  Refers v = (i : ℕ) × (i < n_words) × (ref i ≡ v)

  -- `ab'` is `ab` with marks on cells that the block refers to, and on no others.
  pub record Marks (ab ab' : AddrBuffer) : Type 0 where
    pub same : ab' ≡ record ab { addrs = ab'.addrs }
    pub size : length ab'.addrs ≡ length ab.addrs
    pub cells :
        (j : ℕ)
        → (ab'.addrs ! j ≡ ab.addrs ! j)
          ⊎ (ab'.addrs ! j ≡ ab.addrs ! j + 1) × Refers (ab.addrs ! j)

  -- No cell holds, unmarked, what one of the first `k` words refers to.
  abbrev pub Covered : ℕ → AddrBuffer → Type 0
  Covered k ab = (i j : ℕ) → i < k → j < ab.n_addrs → ab.addrs ! j ≢ ref i

  pub Marks-refl : (ab : AddrBuffer) → Marks ab ab
  Marks-refl ab = record { same = refl; size = refl; cells = λ j. inl refl }

  pub Marks-trans : {a b c : AddrBuffer} → Marks a b → Marks b c → Marks a c
  Marks-trans {a} {b} {c} p q = record {
    same = q.same ∙ ap (λ (x : AddrBuffer). record x { addrs = c.addrs }) p.same;
    size = q.size ∙ p.size;
    cells = λ j. elim (p.cells j) [
      | inl e ↦ elim (q.cells j) [ inl f ↦ inl (f ∙ e) | inr f ↦ inr (rw (← e) f) ]
      | inr e ↦ elim (q.cells j) [
        | inl f ↦ inr (f ∙ e.0, e.1)
        | inr f ↦ absurd (odd_ref (a.addrs ! j) (b.addrs ! j) e f.1)
      ]
    ];
  }
    where
      -- A marked cell is no reference, since references are aligned.
      odd_ref : (v w : ℕ) → (w ≡ v + 1) × Refers v → Refers w → ⊥
      odd_ref v w (e, (i, p, f)) (j, q, g) = omega arith

  pub Marks-Tracked :
      {ab ab' : AddrBuffer} (orig : List ℕ) → Marks ab ab' → Tracked ab orig → Tracked ab' orig
  Marks-Tracked {ab} {ab'} orig m t =
      subst (λ x. Tracked x orig) (sym m.same)
        (record {
          some_addr = t.some_addr;
          room = omega (arith, t.room, m.size);
          sorted = t.sorted;
          aligned = t.aligned;
          cells = λ i p.
              marked_cell (orig ! i) (ab.addrs ! i) (t.aligned i p) (t.cells i p) (m.cells i);
          map_room = t.map_room;
          last_page = t.last_page;
          all_pages = t.all_pages;
          map_cells = t.map_cells;
        })
    where
      marked_cell :
          (o v : ℕ) {w : ℕ}
          → o % 4 ≡ 0
          → (v ≡ o) ⊎ (v ≡ o + 1)
          → (w ≡ v) ⊎ (w ≡ v + 1) × Refers v
          → (w ≡ o) ⊎ (w ≡ o + 1)
      marked_cell o v low old (inl e) = omega arith
      marked_cell o v low old (inr (e, (i, p, f))) = omega arith

  pub Marks-unmarked :
      {ab ab' : AddrBuffer} (n : ℕ) → Marks ab ab' → unmarked ab'.addrs n ≤ unmarked ab.addrs n
  unfolding unmarked
  Marks-unmarked zero m = omega arith
  Marks-unmarked {ab} {ab'} (suc n) m =
      omega (arith, Marks-unmarked n m, last (ab.addrs ! n) (ab'.addrs ! n) (m.cells n))
    where
      last :
          (v w : ℕ)
          → (w ≡ v) ⊎ (w ≡ v + 1) × Refers v
          → (if is_marked w then 0 else 1) ≤ (if is_marked v then 0 else 1)
      last v w (inl e) = rw e (omega arith)
      last v w (inr (e, (i, p, f))) = ground arith

unmarked-set_beyond : (a : List ℕ) (n loc v : ℕ) → n ≤ loc → unmarked (set a loc v) n ≡ unmarked a n
unfolding unmarked
unmarked-set_beyond a zero loc v h = refl
unmarked-set_beyond a (suc n) loc v h =
    let other : set a loc v ! n ≡ a ! n = get_or-set_ne a loc n v 0 (omega arith) in
    rw (other, unmarked-set_beyond a n loc v (omega arith))

pub unmarked-set :
    (a : List ℕ) (n loc v : ℕ)
    → loc < n
    → n ≤ length a
    → is_marked (a ! loc) ≡ false
    → is_marked v ≡ true
    → unmarked (set a loc v) n + 1 ≡ unmarked a n
unfolding unmarked
unmarked-set a zero loc v h r e f = absurd (omega arith)
unmarked-set a (suc n) loc v h r e f = elim (ℕ_discrete loc n) [
  | yes same ↦
      let here : set a loc v ! n ≡ v = rw (← same) (get_or-set_self a loc v 0 (omega arith)) in
      let was : is_marked (a ! n) ≡ false = rw (← same) e in
      rw (here, was, f, unmarked-set_beyond a n loc v (omega arith)) (omega arith)
  | no other ↦
      let kept : set a loc v ! n ≡ a ! n = get_or-set_ne a loc n v 0 other in
      rw kept (omega (arith, unmarked-set a n loc v (omega arith) (omega arith) e f))
]
