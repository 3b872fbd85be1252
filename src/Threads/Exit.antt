-- ===== src/Threads/Exit.antt =====
-- The end of a thread: `forkscan_thread_cleanup` of forkscan-changed/thread.c, and
-- `forkscan_util_thread_data_cleanup` of util.c, which the thread that joins it calls.
use mathlib.Core.Path.{subst}
use pp_final_project.Prelude.{
  ℕ, zero, suc, ◌+◌, ◌≤◌, ◌<◌, ◌≡◌, ◌≢◌, refl, sym, ap, ap₂, ◌∙◌, true, false, List, [], ◌∷◌, ◌++◌,
  length, ◌==◌, Option, none, some, if◌then◌else◌, done, Returns, Returns-imp, Returns-bind, arith,
  Bool-cases, inl, inr,
}
use pp_final_project.Buffer.Chain.{NotIn}
use pp_final_project.Pool.Defs.{pool_free, buffer_freestack}
use pp_final_project.Threads.Defs.{
  Td, Threads, put, store, decrement, thread_list_remove, proc_remove_thread_data,
  thread_data_decr_ref, thread_cleanup, find_staged, unlink_staged, cleanup_found, thread_data_free,
  thread_data_cleanup,
}
use pp_final_project.Threads.Chain.{
  IsChain, last_of, last_of-differs, IsChain-put, IsChain-put_kept, IsChain-unlink, Distinct-unlink,
  Disjoint-sym_unlink, Disjoint-cons, Disjoint-unlink, last_of-Disjoint, put_self, put_other,
}
use pp_final_project.Threads.Registry.{Registry}
use pp_final_project.Threads.Remove.{thread_list_remove-Registry}

-- A change of a field that the lists do not depend on.
Registry-kept :
    (s : Threads) (live exited : List ℕ) (i : ℕ) (t : Td)
    → t.next ≡ (s.td i).next
    → Registry s live exited
    → Registry (store s i t) live exited
Registry-kept s live exited i t same r = record {
  chain = IsChain-put_kept s.td i t s.head live same r.chain;
  staged_chain = IsChain-put_kept s.td i t s.staged exited same r.staged_chain;
  distinct = r.distinct;
  staged_distinct = r.staged_distinct;
  apart = r.apart;
  counted = r.counted;
}

-- The last reference of a thread that is on no list: its record is put on the list of exited threads.
decr_ref-last :
    (s : Threads) (live exited : List ℕ) (i : ℕ)
    → Registry s live exited
    → NotIn i live
    → NotIn i exited
    → (s.td i).ref_count ≡ 1
    → Registry (thread_data_decr_ref i s) live (i ∷ exited)
unfolding thread_data_decr_ref
decr_ref-last s live exited i r out out' one =
    let zero_left : decrement (s.td i).ref_count ≡ 0 = rw one refl in
    rw zero_left (record {
      chain = IsChain-put _ i _ s.head live out (IsChain-put s.td i _ s.head live out r.chain);
      staged_chain = (
        refl,
        rw (put_self (put s.td i counted) i linked) (
            IsChain-put _ i _ s.staged exited out'
              (IsChain-put s.td i _ s.staged exited out' r.staged_chain)),
      );
      distinct = r.distinct;
      staged_distinct = (out', r.staged_distinct);
      apart = Disjoint-cons i live exited out r.apart;
      counted = r.counted;
    })
  where
    counted : Td
    counted = record (s.td i) { ref_count = 0 }

    linked : Td
    linked = record (put s.td i counted i) { next = s.staged }

decr_ref-td :
    (s : Threads) (i : ℕ)
    → (s.td i).ref_count ≡ 1
    → (thread_data_decr_ref i s).td i ≡ record (s.td i) { next = s.staged; ref_count = 0 }
unfolding thread_data_decr_ref
decr_ref-td s i one =
    let zero_left : decrement (s.td i).ref_count ≡ 0 = rw one refl in
    rw zero_left (
      put_self (put s.td i counted) i (record (put s.td i counted i) { next = s.staged })
      ∙ ap (λ (t : Td). record t { next = s.staged }) (put_self s.td i counted))
  where
    counted : Td
    counted = record (s.td i) { ref_count = 0 }

-- None of the threads has the number.
abbrev pub Others : (ℕ → Td) → ℕ → List ℕ → Type 0
Others f tid [] = Unit
Others f tid (x ∷ xs) = ((f x).self ≢ tid) × Others f tid xs

find_staged_here :
    (fuel tid i : ℕ) (s : Threads) (last : Option ℕ)
    → (s.td i).self ≡ tid
    → find_staged (suc fuel) tid s last i ≡ done (last, i)
unfolding find_staged
find_staged_here fuel tid i s last e =
    let test : ((s.td i).self == tid) ≡ true = ground arith in rw (test, find_staged) refl

find_staged_past :
    (fuel tid x z : ℕ) (s : Threads) (last : Option ℕ)
    → (s.td x).self ≢ tid
    → (s.td x).next ≡ some z
    → find_staged (suc fuel) tid s last x ≡ find_staged fuel tid s (some x) z
unfolding find_staged
find_staged_past fuel tid x z s last n e =
    let test : ((s.td x).self == tid) ≡ false = ground arith in
    rw (test, find_staged) (rw (e, find_staged) refl)

-- The search stops at the record, and knows the one before it.
find_staged_lem :
    (fuel tid i x : ℕ) (s : Threads) (last p : Option ℕ) (xs ys : List ℕ)
    → IsChain s.td p (x ∷ (xs ++ i ∷ ys))
    → Others s.td tid (x ∷ xs)
    → (s.td i).self ≡ tid
    → length xs < fuel
    → find_staged (suc fuel) tid s last x ≡ done (some (last_of x xs), i)
find_staged_lem zero tid i x s last p xs ys c o e few = absurd (omega arith)
find_staged_lem (suc fuel) tid i x s last p [] ys c o e few =
    find_staged_past (suc fuel) tid x i s last o.0 c.1.0 ∙ find_staged_here fuel tid i s (some x) e
find_staged_lem (suc fuel) tid i x s last p (z ∷ xs) ys c o e few =
    find_staged_past (suc fuel) tid x z s last o.0 c.1.0
    ∙ find_staged_lem fuel tid i z s (some x) (s.td x).next xs ys c.1 o.1 e (omega arith)

-- What the clean-up gives back.
abbrev pub GivenBack : ℕ → Threads → Threads → Type 0
GivenBack i s s' =
    (s'.td_pool ≡ pool_free i s.td_pool)
    × (s'.list_pool ≡ pool_free (s.td i).list_e s.list_pool)
    × (s'.stack_pool ≡ (
        if (s.td i).stack_is_ours
        then buffer_freestack (s.td i).user_stack_low s.stack_pool
        else s.stack_pool))

-- A change of what the lists do not depend on.
Registry-pools :
    (s s' : Threads) (live exited : List ℕ)
    → s'.td ≡ s.td
    → s'.head ≡ s.head
    → s'.staged ≡ s.staged
    → s'.count ≡ s.count
    → Registry s live exited
    → Registry s' live exited
Registry-pools s s' live exited t h g n r = record {
  chain = rw (t, h) r.chain;
  staged_chain = rw (t, g) r.staged_chain;
  distinct = r.distinct;
  staged_distinct = r.staged_distinct;
  apart = r.apart;
  counted = n ∙ r.counted;
}

cleanup_found-Registry :
    (i : ℕ) (s : Threads) (live exited : List ℕ)
    → Registry s live exited
    → (s.td i).ref_count ≡ 0
    → Returns (cleanup_found i s) (λ s'. Registry s' live exited × GivenBack i s s')
unfolding cleanup_found thread_data_free
cleanup_found-Registry i s live exited r none_left =
    rw (none_left, cleanup_found)
      (elim (Bool-cases (s.td i).stack_is_ours) [
        | inl ours ↦ rw ours (
            rw none_left (Registry-pools s _ live exited refl refl refl refl r, (refl, refl, refl)))
        | inr other ↦ rw other (
            rw none_left (Registry-pools s _ live exited refl refl refl refl r, (refl, refl, refl)))
      ])

-- The thread that exited with number `tid` is on the list of exited threads, is the first there with that
-- number, and has no reference any more. The clean-up takes it off the list, leaves the others and the
-- thread list as they were, and gives its record, its array of pointers and, if it is the library's, its
-- stack back to their pools.
pub thread_data_cleanup-Registry :
    (fuel tid i : ℕ) (s : Threads) (live xs ys : List ℕ)
    → Registry s live (xs ++ i ∷ ys)
    → Others s.td tid xs
    → (s.td i).self ≡ tid
    → (s.td i).ref_count ≡ 0
    → length xs ≤ fuel
    → Returns
        (thread_data_cleanup (suc fuel) tid s)
        (λ s'. Registry s' live (xs ++ ys) × GivenBack i s s')
unfolding thread_data_cleanup unlink_staged
thread_data_cleanup-Registry fuel tid i s live [] ys r o e none_left few =
    rw (r.staged_chain.0, thread_data_cleanup)
      (rw (find_staged_here fuel tid i s none e) (
        cleanup_found-Registry i (record s { staged = (s.td i).next }) live ys
          (record {
            chain = r.chain;
            staged_chain = r.staged_chain.1;
            distinct = r.distinct;
            staged_distinct = r.staged_distinct.1;
            apart = (Disjoint-sym_unlink i live [] ys r.apart).0;
            counted = r.counted;
          })
          none_left))
thread_data_cleanup-Registry fuel tid i s live (x ∷ xs) ys r o e none_left few =
    rw (r.staged_chain.0, thread_data_cleanup)
      (rw (find_staged_lem fuel tid i x s none s.staged xs ys r.staged_chain o e (omega arith)) (
        Returns-imp (cleanup_found i s1) (λ s' h. (h.0, subst (λ t. Back t s') same h.1))
          (cleanup_found-Registry i s1 live (x ∷ (xs ++ ys))
            (record {
              chain =
                  IsChain-put s.td (last_of x xs) _ s.head live
                    (last_of-Disjoint live x xs (i ∷ ys) r.apart) r.chain;
              staged_chain =
                  IsChain-unlink s.td i s.staged x xs ys r.staged_distinct r.staged_chain;
              distinct = r.distinct;
              staged_distinct = (Distinct-unlink i (x ∷ xs) ys r.staged_distinct).0;
              apart = (Disjoint-sym_unlink i live (x ∷ xs) ys r.apart).0;
              counted = r.counted;
            })
            (ap (λ t. t.ref_count) same ∙ none_left))))
  where
    s1 : Threads
    s1 = store s (last_of x xs) (record (s.td (last_of x xs)) { next = (s.td i).next })

    same : s1.td i ≡ s.td i
    same =
        put_other s.td (last_of x xs) i _
          (last_of-differs i x xs ys (Distinct-unlink i (x ∷ xs) ys r.staged_distinct).1)

    Back : Td → Threads → Type 0
    Back t s' =
        (s'.td_pool ≡ pool_free i s.td_pool)
        × (s'.list_pool ≡ pool_free t.list_e s.list_pool)
        × (s'.stack_pool ≡ (
            if t.stack_is_ours
            then buffer_freestack t.user_stack_low s.stack_pool
            else s.stack_pool))

decr_ref-other :
    (s : Threads) (i j : ℕ)
    → (s.td i).ref_count ≡ 1
    → i ≢ j
    → (thread_data_decr_ref i s).td j ≡ s.td j
unfolding thread_data_decr_ref
decr_ref-other s i j one n =
    let zero_left : decrement (s.td i).ref_count ≡ 0 = rw one refl in
    rw zero_left (put_other (put s.td i counted) i j _ n ∙ put_other s.td i j _ n)
  where
    counted : Td
    counted = record (s.td i) { ref_count = 0 }

-- The pools, and the time, are not touched.
decr_ref-rest :
    (s : Threads) (i : ℕ)
    → (s.td i).ref_count ≡ 1
    → let s' = thread_data_decr_ref i s in
      (s'.td_pool ≡ s.td_pool)
      × (s'.list_pool ≡ s.list_pool)
      × (s'.stack_pool ≡ s.stack_pool)
      × (s'.total_wait_time_ms ≡ s.total_wait_time_ms)
unfolding thread_data_decr_ref
decr_ref-rest s i one =
    let zero_left : decrement (s.td i).ref_count ≡ 0 = rw one refl in
    rw zero_left (refl, refl, refl, refl)

-- A registered thread with one reference ends: it is taken off the thread list and put at the head of the
-- list of exited threads, inactive, with its number and without a reference. The other threads stay in
-- their order, and the count of the thread list is one less; their records are as before but for the links
-- of the lists; the pools stay, and the total of the waiting times grows by that of the thread.
pub thread_cleanup-Registry :
    (fuel i : ℕ) (s : Threads) (xs ys exited : List ℕ)
    → Registry s (xs ++ i ∷ ys) exited
    → (s.td i).ref_count ≡ 1
    → length xs ≤ fuel
    → Returns (thread_cleanup fuel i s) (λ s'.
      Registry s' (xs ++ ys) (i ∷ exited)
      × (s'.td i ≡ record (s.td i) { next = (s'.td i).next; is_active = false; ref_count = 0 })
      × ((j : ℕ) → i ≢ j → s'.td j ≡ record (s.td j) { next = (s'.td j).next })
      × (s'.td_pool ≡ s.td_pool)
      × (s'.list_pool ≡ s.list_pool)
      × (s'.stack_pool ≡ s.stack_pool)
      × (s'.total_wait_time_ms ≡ s.total_wait_time_ms + (s.td i).wait_time_ms))
unfolding thread_cleanup proc_remove_thread_data
thread_cleanup-Registry fuel i s xs ys exited r one few =
    Returns-bind _ (thread_list_remove fuel i s0) _
      (thread_list_remove-Registry fuel i s0 xs ys exited
        (Registry-kept s (xs ++ i ∷ ys) exited i (record (s.td i) { is_active = false }) refl r)
        few)
      (λ s1 h.
        let s2 = record s1 {
          total_wait_time_ms = s1.total_wait_time_ms + (s1.td i).wait_time_ms;
        } in
        let same : s1.td i ≡ record (s.td i) { is_active = false } = h.1 ∙ put_self s.td i _ in
        let rest = decr_ref-rest s2 i (ap (λ t. t.ref_count) same ∙ one) in
        let out = (Distinct-unlink i xs ys r.distinct).1 in
        let out' = (Disjoint-unlink i xs ys exited r.apart).1 in
        (
          decr_ref-last s2 (xs ++ ys) exited i
              (Registry-pools s1 s2 (xs ++ ys) exited refl refl refl refl h.0) out out'
              (ap (λ t. t.ref_count) same ∙ one),
          ended (s1.td i) same (thread_data_decr_ref i s2)
              (decr_ref-td s2 i (ap (λ t. t.ref_count) same ∙ one)),
          λ j n.
              let after = decr_ref-other s2 i j (ap (λ t. t.ref_count) same ∙ one) n in
              other j n (s1.td j) (h.6 j) ((thread_data_decr_ref i s2).td j) after,
          rest.0 ∙ h.2,
          rest.1 ∙ h.3,
          rest.2 ∙ h.4,
          rest.3 ∙ ap₂ (λ a b. a + b) h.5 (ap (λ (t : Td). t.wait_time_ms) same),
        ))
  where
    s0 : Threads
    s0 = store s i (record (s.td i) { is_active = false })

    other :
        (j : ℕ)
        → i ≢ j
        → (t : Td) → t ≡ record (s0.td j) { next = t.next }
        → (u : Td) → u ≡ t
        → u ≡ record (s.td j) { next = u.next }
    other j n t e u f =
        f
        ∙ e
        ∙ ap₂ (λ (v : Td) (q : Option ℕ). record v { next = q }) (put_other s.td i j _ n)
            (sym (ap (λ (v : Td). v.next) f))

    ended :
        (t : Td)
        → t ≡ record (s.td i) { is_active = false }
        → (s3 : Threads) {p : Option ℕ} → s3.td i ≡ record t { next = p; ref_count = 0 }
        → s3.td i ≡ record (s.td i) { next = (s3.td i).next; is_active = false; ref_count = 0 }
    ended t e s3 {p} f =
        f
        ∙ ap (λ (u : Td). record u { next = p; ref_count = 0 }) e
        ∙ ap (λ (q : Option ℕ). record (s.td i) { next = q; is_active = false; ref_count = 0 })
            (sym (ap (λ (u : Td). u.next) f))
