-- ===== src/Threads/Remove.antt =====
-- `forkscan_util_thread_list_remove` of forkscan-changed/util.c takes one thread off the list.
use native.Mathlib.Decide.{ℕ_discrete}
use pp_final_project.Prelude.{
  ℕ, zero, suc, ◌≤◌, ◌<◌, ◌≡◌, refl, sym, ap, ap₂, ◌∙◌, true, false, List, [], ◌∷◌, ◌++◌, length,
  ltb, ◌==◌, Option, done, Returns, arith, length-append,
}
use pp_final_project.Buffer.Chain.{Distinct}
use pp_final_project.Threads.Defs.{Td, Threads, put, find_before, unlink, thread_list_remove}
use pp_final_project.Threads.Chain.{
  IsChain, last_of, last_of-differs, IsChain-put, IsChain-unlink, Distinct-unlink, Disjoint-unlink,
  Disjoint-last_of, put_self, put_other, NotIn-unlink,
}
use pp_final_project.Threads.Registry.{Registry}

find_before_lem :
    (fuel i : ℕ) (s : Threads) (p : Option ℕ) (x : ℕ) (xs ys : List ℕ)
    → IsChain s.td p (x ∷ (xs ++ i ∷ ys))
    → Distinct (x ∷ (xs ++ i ∷ ys))
    → length xs < fuel
    → find_before fuel i s x ≡ done (last_of x xs)
unfolding find_before
find_before_lem zero i s p x xs ys c d few = absurd (omega arith)
find_before_lem (suc fuel) i s p x [] ys c d few =
    let e : (i == i) ≡ true = ground arith in rw (c.1.0, find_before) (rw (e, find_before) refl)
find_before_lem (suc fuel) i s p x (z ∷ xs) ys c d few =
    let n = (NotIn-unlink z i xs ys d.1.0).0 in
    let e : (z == i) ≡ false = ground arith in
    rw (c.1.0, find_before)
      (rw (e, find_before)
        (rw (c.1.0, find_before)
          (find_before_lem fuel i s (s.td x).next z xs ys c.1 d.1 (omega arith))))

-- The records are as before, but for their links.
abbrev pub SameButNext : (ℕ → Td) → (ℕ → Td) → Type 0
SameButNext f g = (j : ℕ) → g j ≡ record (f j) { next = (g j).next }

put-SameButNext :
    (f : ℕ → Td) (i : ℕ) (p : Option ℕ) → SameButNext f (put f i (record (f i) { next = p }))
put-SameButNext f i p j = elim (ℕ_discrete i j) [
  | yes e ↦
      let t : Td = record (f i) { next = p } in
      let at : put f i t j ≡ t = ap (put f i t) (sym e) ∙ put_self f i t in
      at
      ∙ ap₂ (λ (u : Td) (q : Option ℕ). record u { next = q }) (ap f e)
          (sym (ap (λ (u : Td). u.next) at))
  | no n ↦
      let at = put_other f i j (record (f i) { next = p }) n in
      at ∙ ap (λ (q : Option ℕ). record (f j) { next = q }) (sym (ap (λ (u : Td). u.next) at))
]

-- A registered thread is taken off the thread list: the list is otherwise as before, its count is one
-- less, and the thread's own record stays as it was.
pub thread_list_remove-Registry :
    (fuel i : ℕ) (s : Threads) (xs ys exited : List ℕ)
    → Registry s (xs ++ i ∷ ys) exited
    → length xs ≤ fuel
    → Returns (thread_list_remove fuel i s) (λ s'.
      Registry s' (xs ++ ys) exited
      × (s'.td i ≡ s.td i)
      × (s'.td_pool ≡ s.td_pool)
      × (s'.list_pool ≡ s.list_pool)
      × (s'.stack_pool ≡ s.stack_pool)
      × (s'.total_wait_time_ms ≡ s.total_wait_time_ms)
      × SameButNext s.td s'.td)
unfolding thread_list_remove unlink
thread_list_remove-Registry fuel i s [] ys exited r few =
    let e : (i == i) ≡ true = ground arith in
    let positive : ltb 0 s.count ≡ true = let h = r.counted in ground arith in
    rw (r.chain.0, thread_list_remove)
      (rw (e, unlink)
        (rw positive (
          record {
            chain = r.chain.1;
            staged_chain = r.staged_chain;
            distinct = r.distinct.1;
            staged_distinct = r.staged_distinct;
            apart = r.apart.1;
            counted = omega (arith, r.counted);
          },
          refl,
          refl,
          refl,
          refl,
          refl,
          λ j. refl,
        )))
thread_list_remove-Registry fuel i s (x ∷ xs) ys exited r few =
    let n = (NotIn-unlink x i xs ys r.distinct.0).0 in
    let e : (x == i) ≡ false = ground arith in
    let positive : ltb 0 s.count ≡ true = let h = r.counted in ground arith in
    rw (r.chain.0, thread_list_remove)
      (rw (e, unlink)
        (rw (find_before_lem fuel i s s.head x xs ys r.chain r.distinct (omega arith)) (
          rw positive (
            record {
              chain = IsChain-unlink s.td i s.head x xs ys r.distinct r.chain;
              staged_chain =
                  IsChain-put s.td (last_of x xs) _ s.staged exited
                    (Disjoint-last_of x xs (i ∷ ys) exited r.apart) r.staged_chain;
              distinct = (Distinct-unlink i (x ∷ xs) ys r.distinct).0;
              staged_distinct = r.staged_distinct;
              apart = (Disjoint-unlink i (x ∷ xs) ys exited r.apart).0;
              counted =
                  omega
                    (arith, r.counted, length-append (x ∷ xs) ys, length-append (x ∷ xs) (i ∷ ys));
            },
            put_other s.td (last_of x xs) i _
                (last_of-differs i x xs ys (Distinct-unlink i (x ∷ xs) ys r.distinct).1),
            refl,
            refl,
            refl,
            refl,
            put-SameButNext s.td (last_of x xs) (s.td i).next,
          ))))
