-- ===== src/Buffer/DeadRefs.antt =====
-- `forkscan_buffer_get_dead_references` of forkscan-changed/buffer.c collects the dead addresses of all
-- retiree buffers, as far as there is room.
use mathlib.Core.Path.{subst}
use pp_final_project.Prelude.{
  ℕ, zero, suc, ◌≤◌, ◌<◌, ◌≡◌, refl, sym, ap, ◌∙◌, Bool, true, false, List, [], ◌∷◌, ◌++◌, All,
  length, take, Option, none, some, Run, done, ◌>>=◌, Returns, Returns-bind, arith, inl, inr, ◌⊎◌,
  append_assoc, append-nil,
}
use pp_final_project.Buffer.Defs.{AddrBuffer}
use pp_final_project.Buffer.Lists.{Store, store}
use pp_final_project.Buffer.Chain.{IsChain, Retirees, Retirees-few, load_at}
use pp_final_project.Buffer.Dead.{
  dead_loop, dead_buffers, dead_buffer, collect_dead, get_dead_references,
}
use pp_final_project.Buffer.DeadList.{dead_list, Collected, Ends, dead_loop-Ends}

-- The dead addresses of the buffer `x`, and of the buffers `xs`.
unfoldable pub dead_of : Option AddrBuffer → List ℕ
dead_of none = []
dead_of (some b) = dead_list (take b.n_addrs b.addrs)

unfoldable pub all_dead : (ℕ → Option AddrBuffer) → List ℕ → List ℕ
all_dead bufs [] = []
all_dead bufs (x ∷ xs) = dead_of (bufs x) ++ all_dead bufs xs

-- The addresses of a buffer are in its array.
abbrev pub Whole : (ℕ → Option AddrBuffer) → ℕ → Type 0
Whole bufs i = (b : AddrBuffer) → bufs i ≡ some b → b.n_addrs ≤ length b.addrs

-- Of `all`, `ret` has the first, and all of them unless it is full.
abbrev pub First : ℕ → ℕ → List ℕ → AddrBuffer → Type 0
First cells capacity all ret =
    (ds rest : List ℕ) × (all ≡ ds ++ rest)
    × Collected ret cells ds
    × (ret.capacity ≡ capacity)
    × ((rest ≡ []) ⊎ (length ds ≡ capacity))

-- After the loop over one buffer, with the rest of the loop, `go`.
after_buffer :
    (go : AddrBuffer → Run AddrBuffer) (cells capacity : ℕ) (here others all : List ℕ)
    → here ++ others ≡ all
    → capacity ≤ cells
    → ((ds : List ℕ) (ret : AddrBuffer)
        → Collected ret cells ds
        → length ds < ret.capacity
        → ret.capacity ≤ cells
        → Returns (go ret) (First cells ret.capacity (ds ++ others)))
    → (found : Bool × AddrBuffer) → Ends cells capacity here found
    → Returns
        (elim (found.0) [ true ↦ done found.1 | false ↦ go found.1 ])
        (First cells capacity all)
after_buffer go cells capacity here others all e fits next (true, r)
      (ds, rest, split, c, same, full) =
    (
      ds,
      rest ++ others,
      sym e ∙ ap (λ l. l ++ others) split ∙ append_assoc ds rest others,
      c,
      same,
      inr full,
    )
after_buffer go cells capacity here others all e fits next (false, r)
      (ds, rest, split, c, same, more) =
    let whole : ds ++ others ≡ all =
      ap (λ l. l ++ others) (sym (split ∙ ap (λ l. ds ++ l) more.0 ∙ append-nil ds)) ∙ e in
    subst (λ l. Returns (go r) (First cells capacity l)) whole
      (subst (λ k. Returns (go r) (First cells k (ds ++ others))) same
        (next ds r c (omega (arith, same, more.1)) (omega (arith, same))))

module _ (s : Store) where
  buffers_step :
      (fuel x : ℕ) (b ret : AddrBuffer)
      → s.bufs x ≡ some b
      → dead_buffers (suc fuel) s (some x) ret ≡ (
          dead_loop b.n_addrs 0 b ret >>= λ found. elim (found.0) [
            | true ↦ done found.1
            | false ↦ dead_buffers fuel s b.next found.1
          ])
  unfolding dead_buffers
  buffers_step fuel x b ret at = rw (load_at s x b at, dead_buffers) refl

  dead_buffers-First :
      (fuel cells : ℕ) (p : Option ℕ) (xs ds : List ℕ) (ret : AddrBuffer)
      → length xs ≤ fuel
      → IsChain s.bufs p xs
      → All (Whole s.bufs) xs
      → Collected ret cells ds
      → length ds < ret.capacity
      → ret.capacity ≤ cells
      → Returns (dead_buffers fuel s p ret) (First cells ret.capacity (ds ++ all_dead s.bufs xs))
  unfolding dead_buffers all_dead dead_of
  dead_buffers-First fuel cells p [] ds ret few chain whole c less fits =
      rw chain (ds, [], refl, c, refl, inl refl)
  dead_buffers-First zero cells p (x ∷ xs) ds ret few chain whole c less fits = absurd (omega arith)
  dead_buffers-First (suc fuel) cells p (x ∷ xs) ds ret few (e, b, at, rest) whole c less fits =
      rw e (
        rw (buffers_step fuel x b ret at) (
          Returns-bind (First cells ret.capacity (ds ++ (dead_of (s.bufs x) ++ all_dead s.bufs xs)))
            (dead_loop b.n_addrs 0 b ret)
            (λ found. elim (found.0) [
              | true ↦ done found.1
              | false ↦ dead_buffers fuel s b.next found.1
            ])
            (dead_loop-Ends cells b b.n_addrs 0 ret ds (omega (arith, whole.0 b at)) c less fits)
            (after_buffer (dead_buffers fuel s b.next) cells ret.capacity
              (ds ++ dead_list (take b.n_addrs b.addrs)) (all_dead s.bufs xs)
              (ds ++ (dead_of (s.bufs x) ++ all_dead s.bufs xs))
              (append_assoc ds (dead_list (take b.n_addrs b.addrs)) (all_dead s.bufs xs)
                ∙ ap (λ o. ds ++ (dead_of o ++ all_dead s.bufs xs)) (sym at))
              fits
              (λ ds' ret' c' less' fits'.
                dead_buffers-First fuel cells b.next xs ds' ret' (omega arith) rest whole.1 c' less'
                  fits'))))

-- In a store whose queue of retiree buffers is `xs`, with their addresses inside their arrays, and where
-- the static buffer `i` is mapped and has room: the call returns that buffer. It holds, in the order of
-- the queue, the addresses that are neither marked nor freed, all of them, or its capacity full of the
-- first of them; and no other buffer is changed.
pub get_dead_references-First :
    (s : Store) (xs : List ℕ) (i : ℕ) (ret : AddrBuffer)
    → Retirees s xs
    → All (Whole s.bufs) xs
    → s.dead_references ≡ some i
    → s.bufs i ≡ some ret
    → 0 < ret.capacity
    → ret.capacity ≤ length ret.addrs
    → Returns (get_dead_references s) (λ r.
      (r.1 ≡ i)
      × (r' : AddrBuffer) × (r.0 ≡ store s i r')
      × First (length ret.addrs) ret.capacity (all_dead s.bufs xs) r')
unfolding get_dead_references dead_buffer collect_dead
get_dead_references-First s xs i ret q whole e at pos fits =
    subst (λ d. Returns (dead_buffer s d >>= collect_dead) Dead) (sym e)
      (rw (load_at s i ret at) (
        Returns-bind Dead
          (dead_buffers (suc s.fresh) s s.first_retiree (record ret { n_addrs = 0 }))
          (λ collected. done (store s i collected, i))
          (dead_buffers-First s (suc s.fresh) (length ret.addrs) s.first_retiree xs []
            (record ret { n_addrs = 0 }) (omega (arith, Retirees-few s xs q)) q.chain whole
            (record { size = refl; content = refl; room = refl }) pos fits)
          (λ r' f. (refl, r', refl, f))))
  where
    Dead : Store × ℕ → Type 0
    Dead r =
        (r.1 ≡ i)
        × (r' : AddrBuffer) × (r.0 ≡ store s i r')
        × First (length ret.addrs) ret.capacity (all_dead s.bufs xs) r'
