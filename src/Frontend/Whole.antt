-- ===== src/Frontend/Whole.antt =====
-- The limit of `generate_working_pointers_list` of forkscan-changed/frontend.c is never met.
use Prim.Native.Nat.mul
use pp_final_project.Prelude.{
  ℕ, zero, suc, ◌+◌, ◌*◌, ◌≤◌, ◌<◌, ◌≡◌, List, [], ◌∷◌, All, length, length-append, Returns, arith,
}
use pp_final_project.Buffer.Defs.{AddrBuffer}
use pp_final_project.Buffer.Lists.{max_thread_count}
use pp_final_project.Queue.Defs.{Queue}
use pp_final_project.Frontend.Defs.{max_ptrs, generate_working_pointers_list}
use pp_final_project.Frontend.Gather.{
  AllRetired, concat, Working, generate_working_pointers_list-Working,
}

concat-few :
    (p max k : ℕ) (qs : List Queue) (ls : List (List ℕ))
    → AllRetired max qs ls
    → All (λ q. q.capacity ≤ p) qs
    → length qs ≤ k
    → length (concat ls) ≤ k * p
concat-few p max k [] [] all small few = omega arith
concat-few p max k [] (l ∷ ls) all small few = elim all [ ]
concat-few p max k (q ∷ qs) [] all small few = elim all [ ]
concat-few p max zero (q ∷ qs) (l ∷ ls) all small few = absurd (omega arith)
concat-few p max (suc k) (q ∷ qs) (l ∷ ls) (r, all) (small, rest) few =
    let below = concat-few p max k qs ls all rest (omega arith) in
    let grow : suc k * p ≡ p + k * p = mul.suc k p in
    omega (arith, r.holds.fits, length-append l (concat ls))

-- Let there be at most 256 threads, each with a queue of capacity `ptrs_per_thread` at most that holds
-- retired pointers, none of them NULL, has room for one at least and counters that do not wrap; and let the
-- buffer have room for 256 times `ptrs_per_thread`, with fewer than 1080863910568919040 in all. Then the call
-- returns, with its assertion that the caller's own queue is not full: the buffer holds the pointers of all
-- queues, each queue in order and nothing else, and all queues are empty.
pub generate_working_pointers_list_lem :
    (ptrs_per_thread mine : ℕ) (qs : List Queue) (ls : List (List ℕ)) (ab : AddrBuffer)
    → max_ptrs ptrs_per_thread ≤ length ab.addrs
    → max_ptrs ptrs_per_thread < 1080863910568919040
    → AllRetired (max_ptrs ptrs_per_thread) qs ls
    → All (λ q. q.capacity ≤ ptrs_per_thread) qs
    → length qs ≤ max_thread_count
    → mine < length qs
    → Returns
        (generate_working_pointers_list (max_ptrs ptrs_per_thread) mine qs ab)
        (Working ab (concat ls) qs)
generate_working_pointers_list_lem p mine qs ls ab room few all small threads here =
    let total = concat-few p (max_ptrs p) max_thread_count qs ls all small threads in
    generate_working_pointers_list-Working (max_ptrs p) mine qs ls ab room few all (omega arith)
      here
