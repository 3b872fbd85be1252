-- ===== src/Frontend/Gather.antt =====
-- `generate_working_pointers_list` of forkscan-changed/frontend.c moves the retired pointers of all threads.
use mathlib.Core.Path.{subst}
use pp_final_project.Prelude.{
  ℕ, zero, suc, ◌+◌, ◌-◌, ◌≤◌, ◌<◌, ◌≡◌, ◌≢◌, refl, sym, ap, ◌∙◌, false, ◌==◌, List, [], ◌∷◌, ◌++◌,
  All, length, take, drop, min, length-drop, length-append, append_assoc, append-nil, ap₂,
  get_elem?, some, Returns, Returns-bind, ◌>>=◌, arith,
}
use pp_final_project.Buffer.Defs.{AddrBuffer}
use pp_final_project.Queue.Defs.{two_64, Queue, pop_bulk}
use pp_final_project.Queue.Fifo.{◌!◌, Represents, fill-Represents}
use pp_final_project.Queue.PopBulk.{pop_bulk-Represents}
use pp_final_project.Frontend.Defs.{gather_queues, generate_working_pointers_list}

-- A queue of retired pointers, none of them NULL, that has room for one at least, with counters far below
-- their limit.
pub record Retired (max : ℕ) (q : Queue) (l : List ℕ) : Type 0 where
  pub holds : Represents q l
  pub nonzero : (j : ℕ) → j < length l → l ! j ≢ 0
  pub no_wrap : q.idx_tail + max + q.capacity < two_64
  pub room : 1 < q.capacity

-- The queues of the threads.
abbrev pub AllRetired : ℕ → List Queue → List (List ℕ) → Type 0
AllRetired max [] [] = Unit
AllRetired max [] (l ∷ ls) = ⊥
AllRetired max (q ∷ qs) [] = ⊥
AllRetired max (q ∷ qs) (l ∷ ls) = Retired max q l × AllRetired max qs ls

-- All their pointers.
abbrev pub concat : List (List ℕ) → List ℕ
concat [] = []
concat (l ∷ ls) = l ++ concat ls

-- An empty queue.
abbrev pub IsEmptied : Queue → Type 0
IsEmptied q = Represents q [] × (1 < q.capacity)

-- The addresses `l` are in front, and the queues are empty.
abbrev Gathered : List ℕ → List ℕ → List Queue → List ℕ × ℕ × List Queue → Type 0
Gathered addrs l qs (addrs', n, qs') =
    (n ≡ length l)
    × (take n addrs' ≡ l)
    × (length addrs' ≡ length addrs)
    × (length qs' ≡ length qs)
    × All IsEmptied qs'

take-whole : (xs zs : List ℕ) → take (length xs) (xs ++ zs) ≡ xs
take-whole [] zs = refl
take-whole (x ∷ xs) zs = ap (λ t. x ∷ t) (take-whole xs zs)

drop-whole : (xs : List ℕ) → drop (length xs) xs ≡ []
drop-whole [] = refl
drop-whole (x ∷ xs) = drop-whole xs

-- The values of one queue, put behind the addresses `l`.
module _ (n m : ℕ) (addrs l x values : List ℕ) (e : n ≡ length l) (f : take n addrs ≡ l)
    (fits : n + length x ≤ length addrs) (all : m ≡ length x)
    (v : values ≡ take m x ++ drop m (drop n addrs)) where
  joined : take n addrs ++ values ≡ (l ++ x) ++ drop (length x) (drop n addrs)
  joined =
      ap₂ (λ a b. a ++ b) f
        (v
          ∙ ap (λ k. take k x ++ drop k (drop n addrs)) all
          ∙ ap (λ t. t ++ drop (length x) (drop n addrs)) (take_self x))
      ∙ sym (append_assoc l x (drop (length x) (drop n addrs)))
    where
      take_self : (x : List ℕ) → take (length x) x ≡ x
      take_self [] = refl
      take_self (y ∷ x) = ap (λ t. y ∷ t) (take_self x)

  joined_size : length (take n addrs ++ values) ≡ length addrs
  joined_size = omega (
    arith,
    ap length joined,
    length-append (l ++ x) (drop (length x) (drop n addrs)),
    length-append l x,
    length-drop (length x) (drop n addrs),
    length-drop n addrs,
  )

  joined_take : take (n + m) (take n addrs ++ values) ≡ l ++ x
  joined_take = ap₂ take count joined ∙ take-whole (l ++ x) (drop (length x) (drop n addrs))
    where
      count : n + m ≡ length (l ++ x)
      count = omega (arith, length-append l x)

gather_queues-Gathered :
    (max : ℕ) (qs : List Queue) (ls : List (List ℕ)) (addrs : List ℕ) (n : ℕ) (done_list : List ℕ)
    → max ≤ length addrs
    → max < 1080863910568919040
    → AllRetired max qs ls
    → n ≡ length done_list
    → take n addrs ≡ done_list
    → n + length (concat ls) ≤ max
    → Returns (gather_queues max qs addrs n) (Gathered addrs (done_list ++ concat ls) qs)
unfolding gather_queues
gather_queues-Gathered max [] [] addrs n l room few all e f fits =
    (e ∙ ap length (sym (append-nil l)), f ∙ sym (append-nil l), refl, refl, tt)
gather_queues-Gathered max [] (x ∷ ls) addrs n l room few all e f fits = elim all [ ]
gather_queues-Gathered max (q ∷ qs) [] addrs n l room few all e f fits = elim all [ ]
gather_queues-Gathered max (q ∷ qs) (x ∷ ls) addrs n l room few (r, all) e f fits =
    let size = length-append x (concat ls) in
    Returns-bind (Gathered addrs (l ++ (x ++ concat ls)) (q ∷ qs))
      (pop_bulk (drop n addrs) (max - n) q) _
      (pop_bulk-Represents q x r.holds (drop n addrs) (max - n) (omega (arith, length-drop n addrs))
        (omega arith) (omega (arith, r.no_wrap)) r.nonzero)
      (λ p (v, count, left, cap).
        let m : min (max - n) (length x) ≡ length x = omega arith in
        let v' = v ∙ ap (λ k. take k x ++ drop k (drop n addrs)) (sym count) in
        let addrs' = take n addrs ++ p.0 in
        let popped : p.1 ≡ length x = count ∙ m in
        let at = joined_size n p.1 addrs l x p.0 e f (omega arith) popped v' in
        Returns-bind (Gathered addrs (l ++ (x ++ concat ls)) (q ∷ qs))
          (gather_queues max qs addrs' (n + p.1)) _
          (gather_queues-Gathered max qs ls addrs' (n + p.1) (l ++ x) (omega arith) few all
            (omega (arith, length-append l x))
            (joined_take n p.1 addrs l x p.0 e f (omega arith) popped v') (omega arith))
          (λ t (total, front, same_length, others, empty). (
            total ∙ ap length (append_assoc l x (concat ls)),
            front ∙ append_assoc l x (concat ls),
            same_length ∙ at,
            ap suc others,
            (
              (
                subst (Represents p.2) (ap (λ k. drop k x) m ∙ drop-whole x) left,
                omega (arith, cap, r.room),
              ),
              empty,
            ),
          )))

All-at :
    {P : Queue → Type 0} (qs : List Queue) (i : ℕ)
    → All P qs
    → i < length qs
    → (q : Queue) × (get_elem? qs i ≡ some q) × P q
All-at [] i a h = absurd (omega arith)
All-at (q ∷ qs) zero a h = (q, refl, a.0)
All-at (q ∷ qs) (suc i) a h = All-at qs i a.1 (omega arith)

-- The buffer that is given to the collector, and the queues.
abbrev pub Working : AddrBuffer → List ℕ → List Queue → AddrBuffer × List Queue → Type 0
Working ab l qs (ab', qs') =
    (ab'.n_addrs ≡ length l)
    × (take ab'.n_addrs ab'.addrs ≡ l)
    × (length ab'.addrs ≡ length ab.addrs)
    × (length qs' ≡ length qs)
    × All IsEmptied qs'

-- Let the queue of each thread hold retired pointers, none of them NULL, have room for one at least and
-- counters that do not wrap; let the pointers of all threads together be at most `max`, and the buffer have
-- room for `max`. Then the call returns, with its assertion that the caller's own queue is not full: the
-- buffer holds the pointers of all queues, each queue in order and nothing else, and all queues are empty.
pub generate_working_pointers_list-Working :
    (max mine : ℕ) (qs : List Queue) (ls : List (List ℕ)) (ab : AddrBuffer)
    → max ≤ length ab.addrs
    → max < 1080863910568919040
    → AllRetired max qs ls
    → length (concat ls) ≤ max
    → mine < length qs
    → Returns (generate_working_pointers_list max mine qs ab) (Working ab (concat ls) qs)
unfolding generate_working_pointers_list
generate_working_pointers_list-Working max mine qs ls ab room few all fits here =
    Returns-bind (Working ab (concat ls) qs) (gather_queues max qs ab.addrs 0) _
      (gather_queues-Gathered max qs ls ab.addrs 0 [] room few all refl refl (omega arith))
      (λ t (total, front, size, others, empty).
        let (own, at, (holds, some_room)) = All-at t.2 mine empty (omega arith) in
        let free : (1 == own.capacity) ≡ false = ground arith in
        rw (at, Returns, ◌>>=◌)
          (rw ((fill-Represents own [] holds).1, Returns, ◌>>=◌)
            (rw (free, Returns, ◌>>=◌) (total, front, size, others, empty))))
