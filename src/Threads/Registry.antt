-- ===== src/Threads/Registry.antt =====
-- The thread list and the list of exited threads of forkscan-changed/util.c stand for two lists without a
-- record in common; adding a thread and finding one.
use pp_final_project.Prelude.{
  ℕ, zero, suc, ◌+◌, ◌^◌, ◌≤◌, ◌<◌, ◌≡◌, inl, inr, refl, sym, ap, ◌∙◌, true, false, List, [], ◌∷◌,
  length, ltb, leb, ◌&&◌, Option, none, some, done, arith, Bool-cases,
}
use pp_final_project.Buffer.Chain.{NotIn, Distinct}
use pp_final_project.Threads.Defs.{
  Td, Threads, store, thread_list_init, thread_list_add, proc_add_thread_data, thread_list_find,
  increment,
}
use pp_final_project.Threads.Chain.{IsChain, Disjoint, IsChain-put, put_self}

-- The registered threads and those that have exited and wait for their clean-up.
pub record Registry (s : Threads) (live exited : List ℕ) : Type 0 where
  pub chain : IsChain s.td s.head live
  pub staged_chain : IsChain s.td s.staged exited
  pub distinct : Distinct live
  pub staged_distinct : Distinct exited
  pub apart : Disjoint live exited
  pub counted : s.count ≡ length live

-- The list is initialised already.
thread_list_init-same :
    (s : Threads) (live exited : List ℕ) → Registry s live exited → thread_list_init s ≡ s
unfolding thread_list_init
thread_list_init-same s [] exited r =
    rw (r.chain, thread_list_init)
      (ap (λ n. record s { count = n }) (sym r.counted) ∙ ap (λ h. record s { head = h }) r.chain)
thread_list_init-same s (x ∷ xs) exited r =
    rw (r.chain.0, thread_list_init) (ap (λ h. record s { head = h }) r.chain.0)

-- A thread that is on neither list is put at the head of the thread list, and the others stay. There are
-- fewer than 2 ^ 32 - 1 threads.
pub proc_add_thread_data-Registry :
    (s : Threads) (live exited : List ℕ) (i : ℕ)
    → Registry s live exited
    → NotIn i live
    → NotIn i exited
    → length live + 1 < 2 ^ 32
    → Registry (proc_add_thread_data i s) (i ∷ live) exited
unfolding proc_add_thread_data thread_list_add
proc_add_thread_data-Registry s live exited i r out out' few =
    rw (thread_list_init-same s live exited r) (record {
      chain =
          (refl, rw (put_self s.td i linked) (IsChain-put s.td i linked s.head live out r.chain));
      staged_chain = IsChain-put s.td i linked s.staged exited out' r.staged_chain;
      distinct = (out, r.distinct);
      staged_distinct = r.staged_distinct;
      apart = (out', r.apart);
      counted = omega (arith, r.counted);
    })
  where
    linked : Td
    linked = record (s.td i) { next = s.head }

-- The first registered thread whose stack has the address.
pub owner : (ℕ → Td) → ℕ → List ℕ → Option ℕ
owner f addr [] = none
owner f addr (x ∷ xs) = elim (leb (f x).user_stack_low addr && ltb addr (f x).user_stack_high) [
  | true ↦ some x
  | false ↦ owner f addr xs
]

-- One more reference of a thread.
abbrev pub with_reference : Threads → Option ℕ → Threads
with_reference s none = s
with_reference s (some i) = store s i (record (s.td i) { ref_count = increment (s.td i).ref_count })

-- `thread_list_find` gives the first registered thread whose stack has the address, if there is one, and
-- counts one more reference of it. All else stays.
pub thread_list_find_lem :
    (fuel addr : ℕ) (s : Threads) (p : Option ℕ) (live : List ℕ)
    → IsChain s.td p live
    → length live ≤ fuel
    → thread_list_find fuel addr s p
      ≡ done (owner s.td addr live, with_reference s (owner s.td addr live))
unfolding thread_list_find owner
thread_list_find_lem fuel addr s p [] c few = rw c refl
thread_list_find_lem zero addr s p (x ∷ xs) c few = absurd (omega arith)
thread_list_find_lem (suc fuel) addr s p (x ∷ xs) (e, c) few =
    rw e
      (elim (Bool-cases (leb (s.td x).user_stack_low addr && ltb addr (s.td x).user_stack_high)) [
        | inl here ↦ rw (here, thread_list_find, owner) refl
        | inr other ↦
            rw (other, thread_list_find, owner)
              (thread_list_find_lem fuel addr s (s.td x).next xs c (omega arith))
      ])
