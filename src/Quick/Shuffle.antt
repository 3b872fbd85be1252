-- ===== src/Quick/Shuffle.antt =====
-- `forkscan_util_randomize` of forkscan-changed/util.c.
use pp_final_project.Prelude.{
  ℕ, zero, suc, ◌+◌, ◌*◌, ◌%◌, ◌^◌, ◌≤◌, ◌<◌, ◌≡◌, refl, true, false, List, length, ◌==◌, done,
  Returns, Returns-imp, arith, Bool-cases, inl, inr,
}
use native.Mathlib.Nat.{mod-lt}
use pp_final_project.Scan.Binary.{◌!◌}
use pp_final_project.Quick.Defs.{swap, randomize_loop, randomize}
use pp_final_project.Quick.Exchange.{
  exchange, swap-exchange, length-exchange, count, Swaps, none_yet, then_swap, Swaps-trans,
  Swaps-outside, Swaps-count,
}

-- The cell that the cell `i` is exchanged with.
abbrev target : ℕ → ℕ → ℕ
target i n = i * 2147483647 % 2 ^ 32 % n

shuffle_same :
    (rounds i n : ℕ) (a : List ℕ)
    → (i == target i n) ≡ true
    → randomize_loop (suc rounds) i n a ≡ randomize_loop rounds (suc i) n a
unfolding randomize_loop
shuffle_same rounds i n a h = rw (h, randomize_loop) refl

shuffle_swap :
    (rounds i n : ℕ) (a : List ℕ)
    → (i == target i n) ≡ false
    → swap a i (target i n) ≡ done (exchange a i (target i n))
    → randomize_loop (suc rounds) i n a
      ≡ randomize_loop rounds (suc i) n (exchange a i (target i n))
unfolding randomize_loop
shuffle_swap rounds i n a h e = rw (h, randomize_loop) (rw e refl)

randomize-Swaps :
    (rounds i n : ℕ) (a : List ℕ)
    → i + rounds ≡ n
    → n ≤ length a
    → Returns (randomize_loop rounds i n a) (Swaps 0 n a)
randomize-Swaps zero i n a e room = unfold randomize_loop in none_yet
randomize-Swaps (suc rounds) i n a e room = elim (Bool-cases (i == target i n)) [
  | inl same ↦
      rw (shuffle_same rounds i n a same) (randomize-Swaps rounds (suc i) n a (omega arith) room)
  | inr other ↦
      let below : target i n < n = mod-lt (i * 2147483647 % 2 ^ 32) (omega arith) in
      let p : i < length a = omega arith in
      let q : target i n < length a = omega (arith, below) in
      rw (shuffle_swap rounds i n a other (swap-exchange a i (target i n) p q)) (
        Returns-imp (randomize_loop rounds (suc i) n (exchange a i (target i n)))
          (λ b s.
            Swaps-trans
              (then_swap i (target i n) (omega arith) (omega arith) (omega arith) below none_yet) s)
          (randomize-Swaps rounds (suc i) n (exchange a i (target i n)) (omega arith)
            (omega (arith, length-exchange a i (target i n) p q))))
]

-- On an array of at least `n` cells `forkscan_util_randomize` returns: every value occurs as often as
-- before, and the cells from `n` on are the same.
pub randomize_lem :
    (a : List ℕ) (n : ℕ)
    → n ≤ length a
    → Returns
        (randomize a n)
        (λ b. ((v : ℕ) → count v b ≡ count v a) × ((k : ℕ) → n ≤ k → b ! k ≡ a ! k))
unfolding randomize
randomize_lem a n room =
    Returns-imp (randomize_loop n 0 n a)
      (λ b s. (λ v. Swaps-count v s room, λ k h. Swaps-outside k s room (inr h)))
      (randomize-Swaps n 0 n a (omega arith) room)
