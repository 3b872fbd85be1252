-- ===== src/Free/Invariant.antt =====
-- The invariant of the threads that free addresses of the retiree buffers: their ranges are apart and
-- below `free_idx`, or past the last address; the addresses that were freed are those of no thread's range.
use native.Mathlib.Decide.{ℕ_discrete}
use pp_final_project.Prelude.{
  ℕ, ◌+◌, ◌%◌, ◌≤◌, ◌<◌, ◌≡◌, ◌≢◌, ◌⊎◌, inl, inr, refl, sym, ◌∙◌, true, false, List, [], ◌∷◌,
  length, min, Option, some, arith, ◌==◌,
}
use pp_final_project.Scan.Defs.{is_marked}
use pp_final_project.Scan.Binary.{◌!◌}
use pp_final_project.Free.Defs.{
  Place, outside, looping, holding, tested, claiming, freeing, Freer, FreeCall, World, update,
  free_range_sz,
}
use pp_final_project.Free.View.{Cells, cells_of}

-- Cell `j` of buffer `k` was freed.
abbrev pub Freed : ℕ → ℕ → List FreeCall → Type 0
Freed k j [] = ⊥
Freed k j (e ∷ l) = (e.buffer ≡ k) × (e.cell ≡ j) ⊎ Freed k j l

-- Each of the first `limit k` cells of buffer `k` is freed at most once, with the address that it held at
-- first; and no address that is freed bears a mark.
abbrev pub Once : (ℕ → ℕ) → (ℕ → ℕ → ℕ) → List FreeCall → Type 0
Once limit orig [] = Unit
Once limit orig (e ∷ l) =
    (e.cell < limit e.buffer → (Freed e.buffer e.cell l → ⊥) × (e.address ≡ orig e.buffer e.cell))
    × (e.address % 4 ≡ 0)
    × Once limit orig l

-- What a thread's place says of its range.
abbrev pub Fits : Place → Freer → ℕ → Type 0
Fits (claiming round begin_idx end_idx) t n = end_idx ≡ min n (begin_idx + free_range_sz)
Fits (freeing round) t n = (t.begin_retiree_idx < t.end_retiree_idx) ⊎ (n ≤ t.begin_retiree_idx)
Fits (tested round) t n = Unit
Fits outside t n = Unit
Fits (looping round) t n = Unit
Fits (holding round) t n = Unit

pub record Owns (l : List FreeCall) (k : ℕ) (t : Freer) (c : Cells) : Type 0 where
  pub range : (t.begin_retiree_idx ≤ t.end_retiree_idx) ⊎ (c.n_addrs ≤ t.begin_retiree_idx)
  pub below : t.end_retiree_idx ≤ c.free_idx
  pub within : t.end_retiree_idx ≤ c.n_addrs
  pub kept : (j : ℕ) → Freed k j l → (j < t.begin_retiree_idx) ⊎ (t.end_retiree_idx ≤ j)
  pub fits : Fits t.place t c.n_addrs

abbrev pub Mine : (ℕ → Option Cells) → List FreeCall → Freer → Type 0
Mine f l t = (k : ℕ) → t.retiree_buffer ≡ some k → (c : Cells) × (f k ≡ some c) × Owns l k t c

abbrev pub Apart : Freer → Freer → Type 0
Apart t u =
    (k : ℕ)
    → t.retiree_buffer ≡ some k
    → u.retiree_buffer ≡ some k
    → (t.end_retiree_idx ≤ u.begin_retiree_idx) ⊎ (u.end_retiree_idx ≤ t.begin_retiree_idx)

pub record Sound (limit : ℕ → ℕ) (orig : ℕ → ℕ → ℕ) (l : List FreeCall) (k : ℕ) (c : Cells)
    : Type 0 where
  pub sized : c.n_addrs ≤ length c.addrs
  pub cells : (j : ℕ) → j < c.n_addrs → (c.addrs ! j ≡ orig k j) ⊎ Freed k j l
  pub clean : (j : ℕ) → j < c.n_addrs → (is_marked (orig k j) ≡ true) ⊎ (orig k j % 4 ≡ 0)
  pub passed : (j : ℕ) → Freed k j l → (j < c.free_idx) ⊎ (c.n_addrs ≤ j)
  pub count : c.n_addrs ≡ limit k

pub record Inv (limit : ℕ → ℕ) (orig : ℕ → ℕ → ℕ) (w : World) : Type 0 where
  pub mine : (i : ℕ) → Mine (cells_of w.buffers) w.freed (w.tds i)
  pub apart : (i j : ℕ) → i ≢ j → Apart (w.tds i) (w.tds j)
  pub sound : (k : ℕ) (c : Cells) → cells_of w.buffers k ≡ some c → Sound limit orig w.freed k c
  pub once : Once limit orig w.freed

update_self : (f : ℕ → Freer) (i : ℕ) (t : Freer) → update f i t i ≡ t
update_self f i t = let e : (i == i) ≡ true = ground arith in rw e refl

-- A property of all threads, where one changes.
pub update_each :
    (P : Freer → Type 0) (f : ℕ → Freer) (i : ℕ) (t : Freer)
    → P t
    → ((j : ℕ) → i ≢ j → P (f j))
    → (j : ℕ) → P (update f i t j)
update_each P f i t new old j = by_place (ℕ_discrete i j)
  where
    by_place : Dec (i ≡ j) → P (update f i t j)
    by_place (yes e) = let b : (i == j) ≡ true = ground arith in rw b new
    by_place (no n) = let b : (i == j) ≡ false = ground arith in rw b (old j n)

Apart-sym : (t u : Freer) → Apart t u → Apart u t
Apart-sym t u a k e f = elim (a k f e) [ inl p ↦ inr p | inr p ↦ inl p ]

-- Threads stay apart where one changes.
pub update-Apart :
    (f : ℕ → Freer) (i : ℕ) (t : Freer)
    → ((j k : ℕ) → j ≢ k → Apart (f j) (f k))
    → ((j : ℕ) → i ≢ j → Apart t (f j))
    → (j k : ℕ) → j ≢ k
    → Apart (update f i t j) (update f i t k)
update-Apart f i t old new j k n = by_place (ℕ_discrete i j) (ℕ_discrete i k)
  where
    by_place : Dec (i ≡ j) → Dec (i ≡ k) → Apart (update f i t j) (update f i t k)
    by_place (yes p) (yes q) = absurd (n (sym p ∙ q))
    by_place (yes p) (no q) =
        let b : (i == j) ≡ true = ground arith in
        let c : (i == k) ≡ false = ground arith in rw (b, c) (new k q)
    by_place (no p) (yes q) =
        let b : (i == j) ≡ false = ground arith in
        let c : (i == k) ≡ true = ground arith in rw (b, c) (Apart-sym t (f j) (new j p))
    by_place (no p) (no q) =
        let b : (i == j) ≡ false = ground arith in
        let c : (i == k) ≡ false = ground arith in rw (b, c) (old j k n)
