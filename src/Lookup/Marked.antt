-- ===== src/Lookup/Marked.antt =====
-- A buffer with marks on some of its addresses.
use mathlib.Core.Path.{subst}
use pp_final_project.Prelude.{
  ℕ, ◌+◌, ◌%◌, ◌<◌, ◌≡◌, ◌≢◌, ◌⊎◌, inl, inr, refl, sym, ap, ◌∙◌, List, length, arith,
}
use pp_final_project.Buffer.Defs.{AddrBuffer}
use pp_final_project.Scan.Binary.{◌!◌}
use pp_final_project.Scan.Find.{Tracked}

-- `ab'` is `ab` with marks on cells whose addresses satisfy `P`, and on no others.
pub record MarkedBy (P : ℕ → Type 0) (ab ab' : AddrBuffer) : Type 0 where
  pub same : ab' ≡ record ab { addrs = ab'.addrs }
  pub size : length ab'.addrs ≡ length ab.addrs
  pub cells :
      (j : ℕ)
      → (ab'.addrs ! j ≡ ab.addrs ! j)
        ⊎ (ab'.addrs ! j ≡ ab.addrs ! j + 1) × (ab.addrs ! j % 4 ≡ 0) × P (ab.addrs ! j)

-- No cell holds the address without a mark.
abbrev pub Absent : AddrBuffer → ℕ → Type 0
Absent ab v = (j : ℕ) → j < ab.n_addrs → ab.addrs ! j ≢ v

pub MarkedBy-refl : (P : ℕ → Type 0) (ab : AddrBuffer) → MarkedBy P ab ab
MarkedBy-refl P ab = record { same = refl; size = refl; cells = λ j. inl refl }

pub MarkedBy-imp :
    (P Q : ℕ → Type 0) {a b : AddrBuffer} → ((v : ℕ) → P v → Q v) → MarkedBy P a b → MarkedBy Q a b
MarkedBy-imp P Q {a} {b} f m = record {
  same = m.same;
  size = m.size;
  cells = λ j. elim (m.cells j) [ inl e ↦ inl e | inr h ↦ inr (h.0, h.1, f (a.addrs ! j) h.2) ];
}

pub MarkedBy-trans :
    (P : ℕ → Type 0) {a b c : AddrBuffer} → MarkedBy P a b → MarkedBy P b c → MarkedBy P a c
MarkedBy-trans P {a} {b} {c} p q = record {
  same = q.same ∙ ap (λ (x : AddrBuffer). record x { addrs = c.addrs }) p.same;
  size = q.size ∙ p.size;
  cells = λ j. elim (p.cells j) [
    | inl e ↦ elim (q.cells j) [ inl f ↦ inl (f ∙ e) | inr f ↦ inr (rw (← e) f) ]
    | inr e ↦ elim (q.cells j) [
      | inl f ↦ inr (f ∙ e.0, e.1, e.2)
      | inr f ↦ absurd (odd (a.addrs ! j) (b.addrs ! j) e.0 e.1 f.1)
    ]
  ];
}
  where
    odd : (v w : ℕ) → w ≡ v + 1 → v % 4 ≡ 0 → w % 4 ≡ 0 → ⊥
    odd v w e f g = omega arith

pub MarkedBy-n_addrs : (P : ℕ → Type 0) {a b : AddrBuffer} → MarkedBy P a b → b.n_addrs ≡ a.n_addrs
MarkedBy-n_addrs P m = ap (λ (x : AddrBuffer). x.n_addrs) m.same

-- An address that stands nowhere without a mark does not appear.
pub MarkedBy-Absent :
    (P : ℕ → Type 0) {a b : AddrBuffer} (v : ℕ)
    → v % 4 ≡ 0
    → MarkedBy P a b
    → Absent a v
    → Absent b v
MarkedBy-Absent P {a} {b} v low m h j p e = elim (m.cells j) [
  | inl f ↦ h j (omega (arith, MarkedBy-n_addrs P m)) (sym f ∙ e)
  | inr f ↦ absurd (omega (arith, f.0, f.1))
]

pub MarkedBy-Tracked :
    (P : ℕ → Type 0) {ab ab' : AddrBuffer} (orig : List ℕ)
    → MarkedBy P ab ab'
    → Tracked ab orig
    → Tracked ab' orig
MarkedBy-Tracked P {ab} {ab'} orig m t =
    subst (λ x. Tracked x orig) (sym m.same)
      (record {
        some_addr = t.some_addr;
        room = omega (arith, t.room, m.size);
        sorted = t.sorted;
        aligned = t.aligned;
        cells =
            λ i p. marked_cell (orig ! i) (ab.addrs ! i) (t.aligned i p) (t.cells i p) (m.cells i);
        map_room = t.map_room;
        last_page = t.last_page;
        all_pages = t.all_pages;
        map_cells = t.map_cells;
      })
  where
    marked_cell :
        (o v : ℕ) {w : ℕ}
        → o % 4 ≡ 0
        → (v ≡ o) ⊎ (v ≡ o + 1)
        → (w ≡ v) ⊎ (w ≡ v + 1) × (v % 4 ≡ 0) × P v
        → (w ≡ o) ⊎ (w ≡ o + 1)
    marked_cell o v low old (inl e) = omega arith
    marked_cell o v low old (inr e) = omega (arith, e.0, e.1)
