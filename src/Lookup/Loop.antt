-- ===== src/Lookup/Loop.antt =====
-- The loop of `lookup_lookaside_list` of forkscan-changed/child.c over a list of which the first part is
-- increasing, and the rest repeats values of it.
use mathlib.Core.Path.{subst}
use pp_final_project.Prelude.{
  ℕ, zero, suc, some, ◌-◌, ◌%◌, ◌≤◌, ◌<◌, ◌≡◌, ◌≢◌, ◌⊎◌, inl, inr, refl, sym, ◌∙◌, false, List, [],
  ◌∷◌, ◌++◌, length, ◌==◌, Bool, fail, Run, done, Returns, Returns-imp, Returns-bind, ◌>>=◌, arith,
  get_elem?, drop, All, All-imp, All-append_right,
}
use pp_final_project.Buffer.Defs.{AddrBuffer}
use pp_final_project.Scan.Defs.{TraceStats, is_ref}
use pp_final_project.Scan.Binary.{◌!◌}
use pp_final_project.Scan.Find.{Tracked}
use pp_final_project.Scan.Mark.{ref, Refers}
use pp_final_project.Sort.Distinct.{IsIncreasing}
use pp_final_project.Lookup.Defs.{lookup_loop, lookup_at, addr_find_hint}
use pp_final_project.Lookup.Hint.{Only, Before, Hinted, addr_find_hint-Hinted}
use pp_final_project.Lookup.Marked.{
  MarkedBy, MarkedBy-refl, MarkedBy-imp, MarkedBy-trans, MarkedBy-Tracked, MarkedBy-Absent,
  MarkedBy-n_addrs, Absent,
}
use pp_final_project.Lookup.Found.{Named, Scanned, Looked, lookup_at-Looked}

-- The list has the value.
abbrev pub Listed : ℕ → List ℕ → Type 0
Listed v [] = ⊥
Listed v (x ∷ xs) = (x ≡ v) ⊎ Listed v xs

-- No two neighbours are equal, where `last` stands before the list.
abbrev pub NoRuns : ℕ → List ℕ → Type 0
NoRuns last [] = Unit
NoRuns last (x ∷ xs) = (last ≢ x) × NoRuns x xs

-- The values that the loop can meet.
abbrev pub Fits : List ℕ → ℕ → ℕ → Type 0
Fits orig n x = (x % 4 ≡ 0) × (orig ! 0 ≤ x) × (x ≤ orig ! (n - 1))

drop-cons :
    (i : ℕ) (a : List ℕ) (x : ℕ) (xs : List ℕ)
    → drop i a ≡ x ∷ xs
    → (get_elem? a i ≡ some x) × (drop (suc i) a ≡ xs)
drop-cons zero [] x xs e = cc
drop-cons zero (y ∷ a) x xs e = (cc, cc)
drop-cons (suc i) [] x xs e = cc
drop-cons (suc i) (y ∷ a) x xs e = drop-cons i a x xs e

module _ (mem : ℕ → ℕ) (usable_size : ℕ → ℕ) (ts : TraceStats) (base : ℕ) where
  -- An address of the list, or one that the block at an address of the list refers to.
  abbrev pub NamedBy : List ℕ → ℕ → Type 0
  NamedBy ys v = (y : ℕ) × Listed y ys × Named mem usable_size ts base y v

  -- `x` has its mark. If it had none before, its block was scanned, or a block of the list refers to it.
  abbrev pub Handled : List ℕ → AddrBuffer → AddrBuffer → ℕ → Type 0
  Handled ys ab ab' x =
      Absent ab' x
      × ((j : ℕ)
          → j < ab.n_addrs
          → ab.addrs ! j ≡ x
          → Scanned mem usable_size ts base x ab'
            ⊎ ((y : ℕ) × Listed y ys × Refers mem usable_size y x))

  -- What the lookup of all values of `ys` does to a buffer.
  abbrev pub LookedUp : List ℕ → AddrBuffer → AddrBuffer → Type 0
  LookedUp ys ab ab' = MarkedBy (NamedBy ys) ab ab' × ((x : ℕ) → Listed x ys → Handled ys ab ab' x)

  LookedUp-nil : (ab : AddrBuffer) → LookedUp [] ab ab
  LookedUp-nil ab = (MarkedBy-refl (NamedBy []) ab, λ x h. elim h [ ])

  -- The lookup of one value, and then those of the others.
  LookedUp-cons :
      (x : ℕ) (ys : List ℕ) (a b c : AddrBuffer)
      → All (λ y. y % 4 ≡ 0) (x ∷ ys)
      → Looked mem usable_size ts base x a b
      → LookedUp ys b c
      → LookedUp (x ∷ ys) a c
  LookedUp-cons x ys a b c low p q = (
    MarkedBy-trans (NamedBy (x ∷ ys))
        (MarkedBy-imp (Named mem usable_size ts base x) (NamedBy (x ∷ ys)) (λ v h. (x, inl refl, h))
          p.0)
        (MarkedBy-imp (NamedBy ys) (NamedBy (x ∷ ys)) (λ v h. (h.0, inr h.1, h.2)) q.0),
    handled,
  )
    where
      later : (v : ℕ) → v % 4 ≡ 0 → Absent b v → Absent c v
      later v e h = MarkedBy-Absent (NamedBy ys) v e q.0 h

      scanned : Scanned mem usable_size ts base x b → Scanned mem usable_size ts base x c
      scanned h i r = later (ref mem usable_size x i) (omega arith) (h i r)

      handled : (z : ℕ) → Listed z (x ∷ ys) → Handled (x ∷ ys) a c z
      handled z (inl e) =
          subst (Handled (x ∷ ys) a c) e (later x low.0 p.1, λ j r f. inl (scanned (p.2 j r f)))
      handled z (inr h) = (
        (q.1 z h).0,
        λ j r f. elim (p.0.cells j) [
          | inl g ↦ elim ((q.1 z h).1 j (omega (arith, MarkedBy-n_addrs _ p.0)) (g ∙ f)) [
            | inl s ↦ inl s
            | inr s ↦ inr (s.0, inr s.1, s.2)
          ]
          | inr g ↦ elim (g.2) [
            | inl same ↦
                let e : x ≡ z = sym same ∙ f in
                inl (
                  subst (λ v. Scanned mem usable_size ts base v c) e
                    (scanned (p.2 j r (f ∙ sym e))))
            | inr refers ↦ inr (x, inl refl, subst (Refers mem usable_size x) f refers)
          ]
        ],
      )

  module _ (orig : List ℕ) (n : ℕ)
      (spans : (j : ℕ) → j < n → (ts.least ≤ orig ! j) × (orig ! j ≤ ts.greatest))
      (list : List ℕ) where
    -- One round of the loop: `P` is what the rest of the loop gives.
    lookup_round :
        (rounds i cmp cached x : ℕ) (ab : AddrBuffer) (zs : List ℕ) (P : AddrBuffer → Type 0)
        → (t : Tracked ab orig) → ab.n_addrs ≡ n
        → cached < n
        → drop i list ≡ x ∷ zs
        → cmp ≢ x
        → Fits orig n x
        → Before ab orig t x cached ⊎ Absent ab x
        → ((loc : ℕ) (ab' : AddrBuffer)
            → loc < n
            → (Before ab orig t x cached → Before ab orig t x loc)
            → drop (suc i) list ≡ zs
            → Looked mem usable_size ts base x ab ab'
            → Returns (lookup_loop mem usable_size ts base list rounds (suc i) x loc ab') P)
        → Returns (lookup_loop mem usable_size ts base list (suc rounds) i cmp cached ab) P
    unfolding lookup_loop
    lookup_round rounds i cmp cached x ab zs P t size c at differs fits hint rest =
        let (found, left) = drop-cons i list x zs at in
        let test : (cmp == x) ≡ false = ground arith in
        rw found (
          rw test (
            Returns-bind P (addr_find_hint base x ab cached) _
              (addr_find_hint-Hinted ab orig t x (fits.0) (fits.1) (rw size (fits.2)) base cached
                (rw size c))
              (λ loc h. Returns-assoc loc (
                Returns-bind P
                  (is_ref ab loc x >>= λ hit. lookup_at mem usable_size ts base hit x loc ab) _
                  (lookup_at-Looked mem usable_size ts base ab orig t (rw size spans) x loc (fits.0)
                    h.0 (only loc h))
                  (λ ab' l. rest loc ab' (rw (← size) h.0) (λ b. (h.1 b).1) left l)))))
      where
        only : (loc : ℕ) → Hinted ab orig t x cached loc → Only ab orig t x loc
        only loc h = elim hint [ inl b ↦ (h.1 b).0 | inr a ↦ λ j q e. absurd (a j q e) ]

        Returns-assoc :
            (loc : ℕ)
            → Returns
                ((is_ref ab loc x >>= λ hit. lookup_at mem usable_size ts base hit x loc ab)
                  >>= λ ab'. lookup_loop mem usable_size ts base list rounds (suc i) x loc ab')
                P
            → Returns
                (is_ref ab loc x >>= λ hit.
                  lookup_at mem usable_size ts base hit x loc ab >>= λ ab'.
                  lookup_loop mem usable_size ts base list rounds (suc i) x loc ab')
                P
        Returns-assoc loc = by_ref (is_ref ab loc x)
          where
            by_ref :
                (m : Run Bool)
                → Returns
                    ((m >>= λ hit. lookup_at mem usable_size ts base hit x loc ab) >>= λ ab'.
                      lookup_loop mem usable_size ts base list rounds (suc i) x loc ab')
                    P
                → Returns
                    (m >>= λ hit. lookup_at mem usable_size ts base hit x loc ab >>= λ ab'.
                      lookup_loop mem usable_size ts base list rounds (suc i) x loc ab')
                    P
            by_ref (done hit) h = h
            by_ref (fail e) h = h

    -- The rest of the loop after a round.
    add_round :
        (x : ℕ) (ys : List ℕ) (a b : AddrBuffer) (m : Run AddrBuffer)
        → All (Fits orig n) (x ∷ ys)
        → Looked mem usable_size ts base x a b
        → Returns m (LookedUp ys b)
        → Returns m (LookedUp (x ∷ ys) a)
    add_round x ys a b m fits l =
        Returns-imp m (λ c h. LookedUp-cons x ys a b c (All-imp (λ y f. f.0) (x ∷ ys) fits) l h)

    -- What the loop needs of the buffer and the list before it goes on.
    pub record Ready (ab : AddrBuffer) (i cmp cached : ℕ) (ys tail : List ℕ) : Type 0 where
      pub tracked : Tracked ab orig
      pub size : ab.n_addrs ≡ n
      pub hint : cached < n
      pub at : drop i list ≡ ys ++ tail
      pub no_runs : NoRuns cmp ys
      pub fits : All (Fits orig n) ys

    Ready-next :
        {ab ab' : AddrBuffer} {i cmp cached x loc : ℕ} {ys tail : List ℕ}
        → Ready ab i cmp cached (x ∷ ys) tail
        → loc < n
        → drop (suc i) list ≡ ys ++ tail
        → Looked mem usable_size ts base x ab ab'
        → Ready ab' (suc i) x loc ys tail
    Ready-next r p d l = record {
      tracked = MarkedBy-Tracked _ orig l.0 r.tracked;
      size = MarkedBy-n_addrs _ l.0 ∙ r.size;
      hint = p;
      at = d;
      no_runs = r.no_runs.1;
      fits = r.fits.1;
    }

    still-Absent :
        {ab ab' : AddrBuffer} (x : ℕ) (s t : List ℕ)
        → Looked mem usable_size ts base x ab ab'
        → All (Fits orig n) t
        → All (λ z. Absent ab z ⊎ Listed z (x ∷ s)) t
        → All (λ z. Absent ab' z ⊎ Listed z s) t
    still-Absent x s [] l f h = tt
    still-Absent {ab} {ab'} x s (z ∷ t) l f h = (here h.0, still-Absent x s t l f.1 h.1)
      where
        here : Absent ab z ⊎ Listed z (x ∷ s) → Absent ab' z ⊎ Listed z s
        here (inl a) = inl (MarkedBy-Absent _ z f.0.0 l.0 a)
        here (inr (inl e)) = inl (subst (Absent ab') e l.1)
        here (inr (inr g)) = inr g

    -- The part that repeats values.
    repeated_loop :
        (t : List ℕ) (i cmp cached : ℕ) (ab : AddrBuffer) (tail : List ℕ)
        → Ready ab i cmp cached t tail
        → All (λ z. Absent ab z ⊎ Listed z []) t
        → Returns
            (lookup_loop mem usable_size ts base list (length t) i cmp cached ab)
            (LookedUp t ab)
    repeated_loop [] i cmp cached ab tail r h = unfold lookup_loop in LookedUp-nil ab
    repeated_loop (x ∷ t) i cmp cached ab tail r h =
        lookup_round (length t) i cmp cached x ab (t ++ tail) (LookedUp (x ∷ t) ab) r.tracked r.size
          r.hint r.at r.no_runs.0 r.fits.0 (inr (absent h.0))
          (λ loc ab' p b d l. add_round x t ab ab' _ r.fits l (
            repeated_loop t (suc i) x loc ab' tail (Ready-next r p d l) (
              still-Absent x [] t l r.fits.1
                (All-imp (λ z g. elim g [ inl a ↦ inl a | inr e ↦ inr (inr e) ]) t h.1))))
      where
        absent : Absent ab x ⊎ Listed x [] → Absent ab x
        absent (inl a) = a
        absent (inr e) = elim e [ ]

    -- The increasing part `s`, and then the rest, `t`.
    pub lookup_loop-LookedUp :
        (s t : List ℕ) (i cmp cached : ℕ) (ab : AddrBuffer) (tail : List ℕ)
        → Ready ab i cmp cached (s ++ t) tail
        → IsIncreasing s
        → All (λ y. (j : ℕ) → j < cached → orig ! j < y) s
        → All (λ z. Absent ab z ⊎ Listed z s) t
        → Returns
            (lookup_loop mem usable_size ts base list (length (s ++ t)) i cmp cached ab)
            (LookedUp (s ++ t) ab)
    lookup_loop-LookedUp [] t i cmp cached ab tail r inc b h =
        repeated_loop t i cmp cached ab tail r h
    lookup_loop-LookedUp (x ∷ s) t i cmp cached ab tail r inc b h =
        lookup_round (length (s ++ t)) i cmp cached x ab ((s ++ t) ++ tail)
          (LookedUp (x ∷ (s ++ t)) ab) r.tracked r.size r.hint r.at r.no_runs.0 r.fits.0 (inl b.0)
          (λ loc ab' p b' d l. add_round x (s ++ t) ab ab' _ r.fits l (
            lookup_loop-LookedUp s t (suc i) x loc ab' tail (Ready-next r p d l) inc.1
              (All-imp (λ y lt j q. omega (arith, b' (b.0) j q)) s inc.0)
              (still-Absent x s t l (All-append_right (Fits orig n) s t r.fits.1) h)))
