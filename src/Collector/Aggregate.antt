-- ===== src/Collector/Aggregate.antt =====
-- `aggregate_addrs` of forkscan-changed/forkscan.c: the buffer that a collection works on.
use mathlib.Core.Path.{subst}
use pp_final_project.Prelude.{
  ℕ, suc, ◌+◌, ◌*◌, ◌≤◌, ◌<◌, ◌≡◌, refl, sym, ap, ◌>>=◌, true, false, List, ◌∷◌, ◌++◌, length,
  length-append, ◌==◌, max, Option, none, some, done, Returns, Returns-bind, Returns-imp, arith,
}
use pp_final_project.Buffer.Lists.{Store}
use pp_final_project.Buffer.Chain.{IsChain, Distinct, load_at, chain-few}
use pp_final_project.Buffer.Aggregate.{Available}
use pp_final_project.Collector.Gather.{old_count, gather_loop, aggregate_buffer, aggregate_addrs}
use pp_final_project.Collector.Contents.{
  length-held, contents, Sized, count_loop_lem, Filled, gather_loop-Filled,
}
use pp_final_project.Collector.Same.{Same-chain, Same-Sized, Same-contents, Apart}
use pp_final_project.Collector.Ready.{Old, old_held, Ready, aggregate_buffer-Ready}

old_count_lem :
    (s : Store) (xs ys : List ℕ) (old : Option ℕ)
    → Old s xs ys old
    → old_count s old ≡ done (length (old_held s.bufs old))
unfolding old_count
old_count_lem s xs ys none o = refl
old_count_lem s xs ys (some i) o =
    rw (load_at s i o.buffer o.at, old_count)
      (ap (λ n. done n) (sym (length-held s.bufs i o.buffer o.at o.fits)))

-- All the addresses: the old ones, then those of the list.
abbrev pub all_addrs : Store → Option ℕ → List ℕ → List ℕ
all_addrs s old ys = old_held s.bufs old ++ contents s.bufs ys

-- The buffer returned holds them, and `g_frees_required` is set.
abbrev pub Aggregated : Store → Option ℕ → List ℕ → Store × ℕ × ℕ → Type 0
Aggregated s old ys (t, ret, frees) =
    Filled t.bufs ret (length (all_addrs s old ys)) (all_addrs s old ys)
    × (frees ≡ max (length ys * 8) 8)

gathered :
    (s : Store) (old p : Option ℕ) (ys : List ℕ) (n : ℕ) (r : Store × ℕ) (fuel : ℕ)
    → IsChain s.bufs p ys
    → Sized s.bufs ys
    → length ys ≤ fuel
    → length (old_held s.bufs old) + length (contents s.bufs ys) ≤ n
    → Ready s old ys n r
    → Returns (gather_loop fuel r.1 r.0 p) (λ t. Filled t.bufs r.1 n (all_addrs s old ys))
gathered s old p ys n (t, i) fuel chain sized few enough (same, out, f) =
    let l = old_held s.bufs old in
    let here = Same-contents s.bufs t.bufs ys same in
    Returns-imp (gather_loop fuel i t p)
      (λ t' g. subst (Filled t'.bufs i n) (ap (λ c. l ++ c) here) g)
      (gather_loop-Filled fuel i t p ys l n (Same-chain s.bufs t.bufs p ys same chain)
        (Same-Sized s.bufs t.bufs ys same sized) out few f (omega (arith, ap length here)))

-- Let the first buffer of a linked list be `d`, and the list be `d ∷ ys`, of different buffers whose arrays
-- have room for their addresses; let the available aggregates be free buffers with room for their
-- capacities, none of them in the list, and let the old buffer, if there is one, be an aggregate with room
-- for its capacity and its addresses, in none of the lists and at neither end of the queue of retirees. If
-- there is an address at all, the run gets to its end, with its assertions: the buffer that it returns holds
-- the old addresses and then those of each buffer of the list, in order and nothing else, and
-- `g_frees_required` is eight for each buffer.
pub aggregate_addrs_lem :
    (s : Store) (old : Option ℕ) (d : ℕ) (ys xs : List ℕ)
    → ((j : ℕ) → s.fresh ≤ j → s.bufs j ≡ none)
    → Available s s.available_aggregates xs
    → IsChain s.bufs (some d) (d ∷ ys)
    → Distinct (d ∷ ys)
    → Sized s.bufs (d ∷ ys)
    → Apart xs (d ∷ ys)
    → Old s xs (d ∷ ys) old
    → 0 < length (all_addrs s old (d ∷ ys))
    → Returns (aggregate_addrs old d s) (Aggregated s old (d ∷ ys))
unfolding aggregate_addrs
aggregate_addrs_lem s old d ys xs un av chain distinct sized apart o pos =
    let n_old = length (old_held s.bufs old) in
    let n = n_old + length (contents s.bufs (d ∷ ys)) in
    let total : length (all_addrs s old (d ∷ ys)) ≡ n =
      length-append (old_held s.bufs old) (contents s.bufs (d ∷ ys)) in
    let some_left : (n == 0) ≡ false = ground (arith, total) in
    let few = chain-few s (some d) (d ∷ ys) un chain distinct in
    rw (old_count_lem s xs (d ∷ ys) old o, aggregate_addrs)
      (rw (count_loop_lem (suc s.fresh) s d ys n_old 0 chain sized (omega arith), aggregate_addrs)
        (rw (some_left, aggregate_addrs)
          (Returns-bind (Aggregated s old (d ∷ ys)) (aggregate_buffer old n d s) _
            (aggregate_buffer-Ready s d ys xs un av chain apart old n o (omega arith))
            (λ r h.
              let all = all_addrs s old (d ∷ ys) in
              Returns-bind (Aggregated s old (d ∷ ys)) (gather_loop (suc s.fresh) r.1 r.0 (some d))
                _
                (gathered s old (some d) (d ∷ ys) n r (suc s.fresh) chain sized (omega arith)
                  (omega arith) h)
                (λ t f.
                  let q : (f.buffer.n_addrs == n) ≡ true = ground (arith, f.n, total) in
                  rw (load_at t r.1 f.buffer f.at, Returns, ◌>>=◌)
                    (rw (q, Returns, ◌>>=◌)
                      (
                        subst (λ m. Filled t.bufs r.1 m all) (sym total) f,
                        ap (λ k. max (k * 8) 8) (omega arith),
                      )))))))
