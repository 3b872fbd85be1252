-- ===== src/Pool/Disjoint.antt =====
-- The blocks of a pool of forkscan-changed/metautil.h, those in the pool and those handed out, never
-- overlap.
use mathlib.Core.Path.{subst}
use native.Mathlib.Nat.{mul-le-mul_right}
use pp_final_project.Prelude.{
  ℕ, zero, suc, ◌+◌, ◌-◌, ◌*◌, ◌≤◌, ◌≡◌, ◌⊎◌, inl, inr, List, [], ◌∷◌, ◌++◌, All, All-imp,
  All-append, arith, append_assoc, sym,
}
use pp_final_project.Pool.Defs.{Pool, carve, pool_alloc, pool_free}

module _ (dtsize : ℕ) where
  -- The blocks at `x` and `y` have no address in common.
  abbrev pub Clear : ℕ → ℕ → Type 0
  Clear x y = (x + dtsize ≤ y) ⊎ (y + dtsize ≤ x)

  abbrev pub AllClear : List ℕ → Type 0
  AllClear [] = Unit
  AllClear (x ∷ xs) = All (Clear x) xs × AllClear xs

  -- The `size` addresses from `arr` on are apart from the blocks.
  abbrev pub Outside : ℕ → ℕ → List ℕ → Type 0
  Outside arr size xs = All (λ y. (arr + size ≤ y) ⊎ (y + dtsize ≤ arr)) xs

  module _ (arr batch_sz : ℕ) (out : List ℕ) (outside : Outside arr (batch_sz * dtsize) out) where
    -- The blocks of the batch up to number `i`, without the first.
    abbrev Carved : ℕ → List ℕ → Type 0
    Carved i fs =
        AllClear (fs ++ out) × All (λ x. (arr + dtsize ≤ x) × (x + dtsize ≤ arr + i * dtsize)) fs

    next_clear :
        (i : ℕ) (fs : List ℕ)
        → suc i ≤ batch_sz
        → 1 ≤ i
        → Carved i fs
        → Carved (suc i) ((arr + i * dtsize) ∷ fs)
    next_clear i fs lt pos c =
        let step : suc i * dtsize ≡ i * dtsize + dtsize = grind arith in
        let top : suc i * dtsize ≤ batch_sz * dtsize = mul-le-mul_right dtsize lt in
        let low : 1 * dtsize ≤ i * dtsize = mul-le-mul_right dtsize pos in
        (
          (
            All-append (Clear (arr + i * dtsize)) fs out (All-imp (λ x h. inr h.1) fs c.1)
                (All-imp (λ y h. between i y step top h) out outside),
            c.0,
          ),
          ((omega arith, omega arith), All-imp (λ x h. (h.0, omega (arith, h.1))) fs c.1),
        )
      where
        between :
            (i y : ℕ)
            → suc i * dtsize ≡ i * dtsize + dtsize
            → suc i * dtsize ≤ batch_sz * dtsize
            → (arr + batch_sz * dtsize ≤ y) ⊎ (y + dtsize ≤ arr)
            → Clear (arr + i * dtsize) y
        between i y step top (inl h) = inl (omega arith)
        between i y step top (inr h) = inr (omega arith)

    carve-Carved :
        (rounds i : ℕ) (fs : List ℕ)
        → i + rounds ≤ batch_sz
        → 1 ≤ i
        → Carved i fs
        → (j : ℕ) × Carved j (carve dtsize arr rounds i fs)
    unfolding carve
    carve-Carved zero i fs le pos c = (i, c)
    carve-Carved (suc rounds) i fs le pos c =
        carve-Carved rounds (suc i) ((arr + i * dtsize) ∷ fs) (omega arith) (omega arith)
          (next_clear i fs (omega arith) pos c)

  -- Of disjoint blocks, a block in the middle may as well stand in front.
  AllClear-front : (xs ys : List ℕ) (p : ℕ) → AllClear (xs ++ p ∷ ys) → AllClear (p ∷ (xs ++ ys))
  AllClear-front [] ys p a = a
  AllClear-front (x ∷ xs) ys p a =
      let rest = AllClear-front xs ys p a.1 in
      let (here, others) = pick xs ys p x a.0 in ((swap_sides x p here, rest.0), (others, rest.1))
    where
      swap_sides : (x p : ℕ) → Clear x p → Clear p x
      swap_sides x p (inl h) = inr h
      swap_sides x p (inr h) = inl h

      pick :
          (xs ys : List ℕ) (p x : ℕ)
          → All (Clear x) (xs ++ p ∷ ys)
          → Clear x p × All (Clear x) (xs ++ ys)
      pick [] ys p x a = a
      pick (z ∷ xs) ys p x a = let r = pick xs ys p x a.1 in (r.0, (a.0, r.1))

  -- The blocks in the pool and the blocks `out` that are in use are disjoint, and `mmap` returns memory
  -- for a batch apart from those in use: the block that `pool_alloc` hands out, those that are in the
  -- pool after it and those in use are disjoint.
  pub pool_alloc-AllClear :
      (batch_sz arr : ℕ) (pool : Pool) (out : List ℕ)
      → 1 ≤ batch_sz
      → AllClear (pool.nodes ++ out)
      → Outside arr (batch_sz * dtsize) out
      → AllClear (
          (pool_alloc dtsize batch_sz arr pool).0
          ∷ ((pool_alloc dtsize batch_sz arr pool).1.nodes ++ out))
  unfolding pool_alloc
  pool_alloc-AllClear batch_sz arr pool out pos clear outside = from pool.nodes clear
    where
      ahead :
          (y : ℕ)
          → 1 * dtsize ≤ batch_sz * dtsize
          → (arr + batch_sz * dtsize ≤ y) ⊎ (y + dtsize ≤ arr)
          → Clear arr y
      ahead y size (inl h) = inl (omega arith)
      ahead y size (inr h) = inr h

      first_batch : AllClear out → AllClear (arr ∷ (carve dtsize arr (batch_sz - 1) 1 [] ++ out))
      first_batch used =
          let size : 1 * dtsize ≤ batch_sz * dtsize = mul-le-mul_right dtsize pos in
          let (j, c) =
            carve-Carved arr batch_sz out outside (batch_sz - 1) 1 [] (omega arith) (omega arith)
              (used, tt) in
          (
            All-append (Clear arr) (carve dtsize arr (batch_sz - 1) 1 []) out
                (All-imp (λ x h. inl h.0) (carve dtsize arr (batch_sz - 1) 1 []) c.1)
                (All-imp (λ y h. ahead y size h) out outside),
            c.0,
          )

      from :
          (nodes : List ℕ)
          → AllClear (nodes ++ out)
          → AllClear (
              (pool_alloc dtsize batch_sz arr (record { nodes = nodes })).0
              ∷ ((pool_alloc dtsize batch_sz arr (record { nodes = nodes })).1.nodes ++ out))
      from [] c = first_batch c
      from (x ∷ nodes) c = c

  -- A block in use that is given back is disjoint from the others as before.
  pub pool_free-AllClear :
      (pool : Pool) (p : ℕ) (xs ys : List ℕ)
      → AllClear (pool.nodes ++ (xs ++ p ∷ ys))
      → AllClear ((pool_free p pool).nodes ++ (xs ++ ys))
  unfolding pool_free
  pool_free-AllClear pool p xs ys a =
      subst (λ l. AllClear (p ∷ l)) (append_assoc pool.nodes xs ys)
        (AllClear-front (pool.nodes ++ xs) ys p
          (subst AllClear (sym (append_assoc pool.nodes xs (p ∷ ys))) a))
