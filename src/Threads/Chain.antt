-- ===== src/Threads/Chain.antt =====
-- The linked lists of thread records as lists of addresses.
use native.Mathlib.Decide.{ℕ_discrete}
use pp_final_project.Prelude.{
  ℕ, ◌≡◌, ◌≢◌, refl, sym, ap, ◌∙◌, true, false, List, [], ◌∷◌, ◌++◌, ◌==◌, Option, none, some,
  arith,
}
use pp_final_project.Buffer.Chain.{NotIn, Distinct}
use pp_final_project.Threads.Defs.{Td, put}

-- From `p` on the records are those of the list.
abbrev pub IsChain : (ℕ → Td) → Option ℕ → List ℕ → Type 0
IsChain f p [] = p ≡ none
IsChain f p (x ∷ xs) = (p ≡ some x) × IsChain f (f x).next xs

-- No record is in both lists.
abbrev pub Disjoint : List ℕ → List ℕ → Type 0
Disjoint [] ys = Unit
Disjoint (x ∷ xs) ys = NotIn x ys × Disjoint xs ys

pub put_self : (f : ℕ → Td) (i : ℕ) (t : Td) → put f i t i ≡ t
put_self f i t = let e : (i == i) ≡ true = ground arith in rw e refl

pub put_other : (f : ℕ → Td) (i j : ℕ) (t : Td) → i ≢ j → put f i t j ≡ f j
put_other f i j t n = let e : (i == j) ≡ false = ground arith in rw e refl

-- A change of a record that is not in the list.
pub IsChain-put :
    (f : ℕ → Td) (i : ℕ) (t : Td) (p : Option ℕ) (xs : List ℕ)
    → NotIn i xs
    → IsChain f p xs
    → IsChain (put f i t) p xs
IsChain-put f i t p [] n c = c
IsChain-put f i t p (x ∷ xs) n (e, c) =
    (e, rw (put_other f i x t n.0) (IsChain-put f i t (f x).next xs n.1 c))

-- A change of another field than `next`.
pub IsChain-put_kept :
    (f : ℕ → Td) (i : ℕ) (t : Td) (p : Option ℕ) (xs : List ℕ)
    → t.next ≡ (f i).next
    → IsChain f p xs
    → IsChain (put f i t) p xs
IsChain-put_kept f i t p [] same c = c
IsChain-put_kept f i t p (x ∷ xs) same (e, c) =
    (e, rw next (IsChain-put_kept f i t (f x).next xs same c))
  where
    next : (put f i t x).next ≡ (f x).next
    next = elim (ℕ_discrete i x) [
      | yes h ↦
          ap (λ k. (put f i t k).next) (sym h)
          ∙ ap (λ t. t.next) (put_self f i t)
          ∙ same
          ∙ ap (λ k. (f k).next) h
      | no n ↦ ap (λ t. t.next) (put_other f i x t n)
    ]

-- The last of a list that is not empty.
abbrev pub last_of : ℕ → List ℕ → ℕ
last_of x [] = x
last_of x (z ∷ zs) = last_of z zs

pub last_of-differs : (x z : ℕ) (zs ws : List ℕ) → NotIn x (z ∷ (zs ++ ws)) → last_of z zs ≢ x
last_of-differs x z [] ws n e = n.0 (sym e)
last_of-differs x z (y ∷ zs) ws n e = last_of-differs x y zs ws n.1 e

-- The record before `i` is made to point behind it.
pub IsChain-unlink :
    (f : ℕ → Td) (i : ℕ) (p : Option ℕ) (x : ℕ) (xs ys : List ℕ)
    → Distinct (x ∷ (xs ++ i ∷ ys))
    → IsChain f p (x ∷ (xs ++ i ∷ ys))
    → IsChain
        (put f (last_of x xs) (record (f (last_of x xs)) { next = (f i).next }))
        p
        (x ∷ (xs ++ ys))
IsChain-unlink f i p x [] ys d c = (
  c.0,
  rw (put_self f x (record (f x) { next = (f i).next }))
      (IsChain-put f x _ (f i).next ys d.0.1 (c.1.1)),
)
IsChain-unlink f i p x (z ∷ xs) ys d c = (
  c.0,
  rw
      (put_other f (last_of z xs) x (record (f (last_of z xs)) { next = (f i).next })
        (last_of-differs x z xs (i ∷ ys) d.0))
      (IsChain-unlink f i (f x).next z xs ys d.1 (c.1)),
)

pub NotIn-unlink :
    (j i : ℕ) (xs ys : List ℕ) → NotIn j (xs ++ i ∷ ys) → (j ≢ i) × NotIn j (xs ++ ys)
NotIn-unlink j i [] ys n = n
NotIn-unlink j i (x ∷ xs) ys n = let (a, b) = NotIn-unlink j i xs ys n.1 in (a, (n.0, b))

pub Distinct-unlink :
    (i : ℕ) (xs ys : List ℕ) → Distinct (xs ++ i ∷ ys) → Distinct (xs ++ ys) × NotIn i (xs ++ ys)
Distinct-unlink i [] ys d = (d.1, d.0)
Distinct-unlink i (x ∷ xs) ys d =
    let (a, b) = Distinct-unlink i xs ys d.1 in
    let (c, e) = NotIn-unlink x i xs ys d.0 in ((e, a), (λ h. c (sym h), b))

pub Disjoint-unlink :
    (i : ℕ) (xs ys zs : List ℕ) → Disjoint (xs ++ i ∷ ys) zs → Disjoint (xs ++ ys) zs × NotIn i zs
Disjoint-unlink i [] ys zs d = (d.1, d.0)
Disjoint-unlink i (x ∷ xs) ys zs d = let (a, b) = Disjoint-unlink i xs ys zs d.1 in ((d.0, a), b)

-- A new record at the head of the second list.
pub Disjoint-cons : (i : ℕ) (xs ys : List ℕ) → NotIn i xs → Disjoint xs ys → Disjoint xs (i ∷ ys)
Disjoint-cons i [] ys n d = tt
Disjoint-cons i (x ∷ xs) ys n d = ((λ h. n.0 (sym h), d.0), Disjoint-cons i xs ys n.1 d.1)

pub Disjoint-sym_unlink :
    (i : ℕ) (zs xs ys : List ℕ) → Disjoint zs (xs ++ i ∷ ys) → Disjoint zs (xs ++ ys) × NotIn i zs
Disjoint-sym_unlink i [] xs ys d = (tt, tt)
Disjoint-sym_unlink i (z ∷ zs) xs ys d =
    let (a, b) = Disjoint-sym_unlink i zs xs ys d.1 in
    let (c, e) = NotIn-unlink z i xs ys d.0 in ((e, a), (λ h. c (sym h), b))

-- The last of a part of the first list.
pub Disjoint-last_of :
    (x : ℕ) (xs ys zs : List ℕ) → Disjoint (x ∷ (xs ++ ys)) zs → NotIn (last_of x xs) zs
Disjoint-last_of x [] ys zs d = d.0
Disjoint-last_of x (z ∷ xs) ys zs d = Disjoint-last_of z xs ys zs d.1

pub last_of-Disjoint :
    (zs : List ℕ) (x : ℕ) (xs ys : List ℕ) → Disjoint zs (x ∷ (xs ++ ys)) → NotIn (last_of x xs) zs
last_of-Disjoint [] x xs ys d = tt
last_of-Disjoint (z ∷ zs) x xs ys d =
    (last_of-differs z x xs ys d.0, last_of-Disjoint zs x xs ys d.1)
