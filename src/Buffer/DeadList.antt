-- ===== src/Buffer/DeadList.antt =====
-- The dead references that forkscan-changed/buffer.c collects, as a list.
use mathlib.Core.Path.{subst}
use pp_final_project.Prelude.{
  ℕ, zero, suc, ◌+◌, ◌≤◌, ◌<◌, ◌≡◌, refl, sym, ap, ap₂, ◌∙◌, Bool, true, false, List, [], ◌∷◌, ◌++◌,
  length, get_elem?, set, take, drop, ltb, leb, ◌==◌, if◌then◌else◌, some, Run, done, Returns,
  arith, Bool-cases, inl, inr, get_elem?-drop, lt→ltb, leb→le, length-set, length-append,
}
use pp_final_project.Buffer.Defs.{AddrBuffer}
use pp_final_project.Buffer.Dead.{low_bits, copy_dead, dead_loop}

-- The addresses that are neither marked nor freed.
unfoldable pub dead_list : List ℕ → List ℕ
dead_list [] = []
dead_list (x ∷ xs) = if low_bits x == 0 then x ∷ dead_list xs else dead_list xs

-- `ret` has collected the addresses `ds`, at most its capacity.
pub record Collected (ret : AddrBuffer) (cells : ℕ) (ds : List ℕ) : Type 0 where
  pub size : ret.n_addrs ≡ length ds
  pub content : take (length ds) ret.addrs ≡ ds
  pub room : length ret.addrs ≡ cells

-- Of `ds ++ more`, `ret` has all and is not full, or it is full with the first of them.
abbrev pub Ends : ℕ → ℕ → List ℕ → Bool × AddrBuffer → Type 0
Ends cells capacity all r =
    (ds rest : List ℕ) × (all ≡ ds ++ rest)
    × Collected r.1 cells ds
    × (r.1.capacity ≡ capacity)
    × (if r.0 then length ds ≡ capacity else (rest ≡ []) × (length ds < capacity))

take-set :
    (a ds : List ℕ) (v : ℕ)
    → take (length ds) a ≡ ds
    → length ds < length a
    → take (length (ds ++ v ∷ [])) (set a (length ds) v) ≡ ds ++ v ∷ []
take-set [] ds v e h = absurd (omega arith)
take-set (x ∷ a) [] v e h = refl
take-set (x ∷ a) (d ∷ ds) v e h =
    let (first, others) = cons_inj e in ap₂ ◌∷◌ first (take-set a ds v others (omega arith))
  where
    cons_inj : {x d : ℕ} {xs ds : List ℕ} → x ∷ xs ≡ d ∷ ds → (x ≡ d) × (xs ≡ ds)
    cons_inj {x} {d} {xs} {ds} e = (cc, cc)

-- The buffer with one address more.
abbrev added : AddrBuffer → ℕ → AddrBuffer
added ret addr = record ret { addrs = set ret.addrs ret.n_addrs addr; n_addrs = suc ret.n_addrs }

added-Collected :
    (ret : AddrBuffer) (cells : ℕ) (ds : List ℕ) (addr : ℕ)
    → Collected ret cells ds
    → length ds < cells
    → Collected (added ret addr) cells (ds ++ addr ∷ [])
added-Collected ret cells ds addr c h = record {
  size = omega (arith, c.size, length-append ds (addr ∷ []));
  content =
      subst (λ n. take (length (ds ++ addr ∷ [])) (set ret.addrs n addr) ≡ ds ++ addr ∷ [])
        (sym c.size) (take-set ret.addrs ds addr c.content (omega (arith, c.room)));
  room = length-set ret.addrs ret.n_addrs addr ∙ c.room;
}

module _ (next : AddrBuffer → Run (Bool × AddrBuffer)) (addr : ℕ) (ret : AddrBuffer) where
  copy_skip : (low_bits addr == 0) ≡ false → copy_dead next addr ret ≡ next ret
  unfolding copy_dead
  copy_skip h = rw (h, copy_dead) refl

  copy_full :
      (low_bits addr == 0) ≡ true
      → ltb ret.n_addrs (length ret.addrs) ≡ true
      → leb ret.capacity (suc ret.n_addrs) ≡ true
      → copy_dead next addr ret ≡ done (true, added ret addr)
  unfolding copy_dead
  copy_full h r f = rw (h, copy_dead) (rw r (rw f refl))

  copy_next :
      (low_bits addr == 0) ≡ true
      → ltb ret.n_addrs (length ret.addrs) ≡ true
      → leb ret.capacity (suc ret.n_addrs) ≡ false
      → copy_dead next addr ret ≡ next (added ret addr)
  unfolding copy_dead
  copy_next h r f = rw (h, copy_dead) (rw r (rw f refl))

dead_step :
    (rounds i : ℕ) (ab ret : AddrBuffer) (addr : ℕ)
    → get_elem? ab.addrs i ≡ some addr
    → dead_loop (suc rounds) i ab ret
      ≡ copy_dead (λ ret'. dead_loop rounds (suc i) ab ret') addr ret
unfolding dead_loop
dead_step rounds i ab ret addr at = rw (at, dead_loop) refl

list_skip :
    (addr : ℕ) (xs : List ℕ) → (low_bits addr == 0) ≡ false → dead_list (addr ∷ xs) ≡ dead_list xs
unfolding dead_list
list_skip addr xs h = rw h refl

list_take :
    (addr : ℕ) (xs : List ℕ)
    → (low_bits addr == 0) ≡ true
    → dead_list (addr ∷ xs) ≡ addr ∷ dead_list xs
unfolding dead_list
list_take addr xs h = rw h refl

snoc_append : (ds : List ℕ) (x : ℕ) (xs : List ℕ) → (ds ++ x ∷ []) ++ xs ≡ ds ++ x ∷ xs
snoc_append [] x xs = refl
snoc_append (d ∷ ds) x xs = ap (◌∷◌ d) (snoc_append ds x xs)

module _ (cells : ℕ) (ab : AddrBuffer) where
  pub dead_loop-Ends :
      (rounds i : ℕ) (ret : AddrBuffer) (ds : List ℕ)
      → i + rounds ≤ length ab.addrs
      → Collected ret cells ds
      → length ds < ret.capacity
      → ret.capacity ≤ cells
      → Returns
          (dead_loop rounds i ab ret)
          (Ends cells ret.capacity (ds ++ dead_list (take rounds (drop i ab.addrs))))
  unfolding dead_loop dead_list
  dead_loop-Ends zero i ret ds room c less fits = (ds, [], refl, c, refl, (refl, less))
  dead_loop-Ends (suc rounds) i ret ds room c less fits =
      let (addr, at, split) = get_elem?-drop ab.addrs i (omega arith) in
      let inside : ltb ret.n_addrs (length ret.addrs) ≡ true =
        lt→ltb ret.n_addrs (length ret.addrs) (omega (arith, c.size, c.room)) in
      let ws = take rounds (drop (suc i) ab.addrs) in
      let next = λ (ret' : AddrBuffer). dead_loop rounds (suc i) ab ret' in
      rw (dead_step rounds i ab ret addr at) (
        rw split (elim (Bool-cases (low_bits addr == 0)) [
          | inr skip ↦ rw (copy_skip next addr ret skip) (
              rw (list_skip addr ws skip)
                (dead_loop-Ends rounds (suc i) ret ds (omega arith) c less fits))
          | inl dead ↦
              let c' = added-Collected ret cells ds addr c (omega arith) in
              rw (list_take addr ws dead) (elim (Bool-cases (leb ret.capacity (suc ret.n_addrs))) [
                | inl full ↦ rw (copy_full next addr ret dead inside full) (
                  ds ++ addr ∷ [],
                  dead_list ws,
                  sym (snoc_append ds addr (dead_list ws)),
                  c',
                  refl,
                  omega (
                    arith,
                    leb→le ret.capacity (suc ret.n_addrs) full,
                    c.size,
                    length-append ds (addr ∷ []),
                  ),
                )
                | inr more ↦ rw (copy_next next addr ret dead inside more) (
                    subst
                      (λ all.
                        Returns (dead_loop rounds (suc i) ab (added ret addr))
                          (Ends cells ret.capacity all))
                      (snoc_append ds addr (dead_list ws))
                      (dead_loop-Ends rounds (suc i) (added ret addr) (ds ++ addr ∷ [])
                        (omega arith) c'
                        (omega (
                          arith,
                          not_full (ret.capacity) ret.n_addrs more,
                          c.size,
                          length-append ds (addr ∷ []),
                        ))
                        fits))
              ])
        ]))
    where
      not_full : (c n : ℕ) → leb c (suc n) ≡ false → suc n < c
      not_full c n h = ground arith
