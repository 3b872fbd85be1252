-- ===== src/Sort/Compact.antt =====
-- `forkscan_util_compact` of forkscan-changed/util.c.
use pp_final_project.Prelude.{
  ℕ, zero, suc, ◌+◌, ◌-◌, ◌≤◌, ◌<◌, ◌≡◌, refl, sym, ap, ◌∙◌, true, false, List, [], ◌∷◌, ◌++◌,
  length, get_elem?, set, take, drop, blit, ltb, ◌==◌, if◌then◌else◌, Run, done, arith,
  get_elem?-drop, drop-set, set-get_elem?, length-set, get_elem?-set_self, Bool-cases, inl, inr,
  ◌>>=◌, some, blit-zero, blit-suc, length-take,
}
use pp_final_project.Sort.Defs.{compact, compact_loop}

-- What is left of a list after `last` when each run of equal elements is cut to its first.
unfoldable pub dedup_from : ℕ → List ℕ → List ℕ
dedup_from last [] = []
dedup_from last (x ∷ xs) = elim (x == last) [
  | true ↦ dedup_from last xs
  | false ↦ x ∷ dedup_from x xs
]

unfoldable pub dedup : List ℕ → List ℕ
dedup [] = []
dedup (x ∷ xs) = x ∷ dedup_from x xs

pub length-dedup_from : (last : ℕ) (xs : List ℕ) → length (dedup_from last xs) ≤ length xs
unfolding dedup_from
length-dedup_from last [] = omega arith
length-dedup_from last (x ∷ xs) = ground (arith, length-dedup_from last xs, length-dedup_from x xs)

dedup_from-same :
    (last x : ℕ) (xs : List ℕ) → (x == last) ≡ true → dedup_from last (x ∷ xs) ≡ dedup_from last xs
unfolding dedup_from
dedup_from-same last x xs e = rw (e, dedup_from)

dedup_from-differ :
    (last x : ℕ) (xs : List ℕ)
    → (x == last) ≡ false
    → dedup_from last (x ∷ xs) ≡ x ∷ dedup_from x xs
unfolding dedup_from
dedup_from-differ last x xs e = rw (e, dedup_from)

-- The store of the loop, which it skips where the value is in place already.
store_found :
    (a : List ℕ) (search write x : ℕ)
    → write < search
    → get_elem? a search ≡ some x
    → (if ltb (suc write) search then set a (suc write) x else a) ≡ set a (suc write) x
store_found a search write x h e = elim (Bool-cases (ltb (suc write) search)) [
  | inl lt ↦ rw lt
  | inr ge ↦
      let same : suc write ≡ search = ground arith in
      rw ge (sym (set-get_elem? a (suc write) x (rw same e)))
]

compact_loop-same :
    (rounds : ℕ) (a : List ℕ) (search write x : ℕ)
    → get_elem? a search ≡ some x
    → get_elem? a write ≡ some x
    → compact_loop (suc rounds) a search write ≡ compact_loop rounds a (suc search) write
unfolding compact_loop
compact_loop-same rounds a search write x e f = ground arith

compact_loop-differ :
    (rounds : ℕ) (a : List ℕ) (search write x kept : ℕ)
    → write < search
    → get_elem? a search ≡ some x
    → get_elem? a write ≡ some kept
    → (x == kept) ≡ false
    → compact_loop (suc rounds) a search write
      ≡ compact_loop rounds (set a (suc write) x) (suc search) (suc write)
unfolding compact_loop
compact_loop-differ rounds a search write x kept h e f d =
    ground (arith, store_found a search write x h e)

-- The array and `write` at the end of the loop: the values kept stand behind the one at `write`.
abbrev loop_result : List ℕ → ℕ → List ℕ → Run (List ℕ × ℕ)
loop_result a write tail = done (blit a (suc write) tail, write + length tail)

-- The result of the later rounds after a store, in terms of the array before it.
after_store :
    (a : List ℕ) (write search x kept rounds : ℕ)
    → write < search
    → (x == kept) ≡ false
    → loop_result
        (set a (suc write) x)
        (suc write)
        (dedup_from x (take rounds (drop (suc search) (set a (suc write) x))))
      ≡ loop_result a write (dedup_from kept (x ∷ take rounds (drop (suc search) a)))
unfolding blit
after_store a write search x kept rounds order differ =
    rw
      (
        drop-set a (suc write) (suc search) x (omega arith),
        dedup_from-differ kept x (take rounds (drop (suc search) a)) differ,
      )
      (ap (λ w. done (blit (set a (suc write) x) (suc (suc write)) tail, w)) count)
  where
    tail : List ℕ
    tail = dedup_from x (take rounds (drop (suc search) a))

    count : suc write + length tail ≡ write + suc (length tail)
    count = omega arith

compact_loop-eq :
    (rounds : ℕ) (a : List ℕ) (search write kept : ℕ)
    → search + rounds ≤ length a
    → write < search
    → get_elem? a write ≡ some kept
    → let tail = dedup_from kept (take rounds (drop search a)) in
      compact_loop rounds a search write ≡ done (blit a (suc write) tail, write + length tail)
compact_loop-eq zero a search write kept room order at =
    unfold compact_loop dedup_from blit in ap (λ w. done (a, w)) (omega arith)
compact_loop-eq (suc rounds) a search write kept room order at =
    let (x, at_search, rest) = get_elem?-drop a search (omega arith) in
    elim (Bool-cases (x == kept)) [
      | inl same ↦
          let e : x ≡ kept = ground arith in
          rw (rest) (
            compact_loop-same rounds a search write x at_search (rw e at)
            ∙ compact_loop-eq rounds a (suc search) write kept (omega arith) (omega arith) at
            ∙ ap (loop_result a write)
                (sym (dedup_from-same kept x (take rounds (drop (suc search) a)) same)))
      | inr differ ↦ rw (rest) (
          compact_loop-differ rounds a search write x kept order at_search at differ
          ∙ compact_loop-eq rounds (set a (suc write) x) (suc search) (suc write) x
              (omega (arith, length-set a (suc write) x)) (omega arith)
              (get_elem?-set_self a (suc write) x (omega arith))
          ∙ after_store a write search x kept rounds order differ)
    ]

-- The last lines of `forkscan_util_compact`.
abbrev finish : ℕ → List ℕ × ℕ → Run (List ℕ × ℕ)
finish len p = done (p.0, len - suc p.1)

compact_long :
    (a : List ℕ) (rounds : ℕ)
    → 0 < rounds
    → compact a (suc rounds) ≡ (compact_loop rounds a 1 0 >>= finish (suc rounds))
unfolding compact
compact_long a rounds h =
    let e : suc rounds - 1 ≡ rounds = omega arith in
    let long : ltb (suc rounds) 2 ≡ false = ground arith in rw (long, e)

-- `forkscan_util_compact` returns: the first `len` cells become the array with each run of equal
-- neighbours cut to one, the cells behind are as before, and the savings are the count of cells that
-- the compacted array no longer takes.
pub compact_lem :
    (a : List ℕ) (len : ℕ)
    → len ≤ length a
    → let kept = dedup (take len a) in
      compact a len ≡ done (kept ++ drop (length kept) a, len - length kept)
compact_lem a zero h = unfold compact dedup in refl
compact_lem [] (suc len) h = absurd (omega arith)
compact_lem (x ∷ a) (suc zero) h = unfold compact dedup dedup_from in refl
compact_lem (x ∷ a) (suc (suc len)) h =
    let tail : List ℕ = dedup_from x (take (suc len) a) in
    let short : length tail ≤ length a =
      omega (arith, length-dedup_from x (take (suc len) a), length-take (suc len) a) in
    let saved : suc (suc len) - suc (0 + length tail) ≡ suc (suc len) - suc (length tail) =
      omega arith in
    compact_long (x ∷ a) (suc len) (omega arith)
    ∙ ap (λ (r : Run (List ℕ × ℕ)). r >>= finish (suc (suc len)))
        (compact_loop-eq (suc len) (x ∷ a) 1 0 x (omega arith) (omega arith) refl)
    ∙ unfold dedup in
      rw (blit-suc x a 0 tail, blit-zero a tail short)
        (ap (λ (w : ℕ). done (x ∷ (tail ++ drop (length tail) a), w)) saved)
