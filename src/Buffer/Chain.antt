-- ===== src/Buffer/Chain.antt =====
-- Lists of buffers linked through `next`, as in forkscan-changed/buffer.c, and the lists they stand for.
use mathlib.Core.Path.{subst}
use native.Mathlib.Decide.{ℕ_discrete, dec_lt}
use pp_final_project.Prelude.{
  ℕ, ◌≡◌, ◌≢◌, ◌≤◌, ◌<◌, zero, suc, length, refl, sym, ap, ◌∙◌, true, false, List, [], ◌∷◌, ◌++◌,
  All, All-append, ◌==◌, Option, none, some, done, arith,
}
use pp_final_project.Buffer.Defs.{AddrBuffer}
use pp_final_project.Buffer.Lists.{Store, put, load}

-- From the pointer `p` on, the buffers `xs` follow each other, and the last has no next.
abbrev pub IsChain : (ℕ → Option AddrBuffer) → Option ℕ → List ℕ → Type 0
IsChain bufs p [] = p ≡ none
IsChain bufs p (x ∷ xs) =
    (p ≡ some x) × (b : AddrBuffer) × (bufs x ≡ some b) × IsChain bufs b.next xs

abbrev pub NotIn : ℕ → List ℕ → Type 0
NotIn i xs = All (λ x. i ≢ x) xs

abbrev pub Distinct : List ℕ → Type 0
Distinct [] = Unit
Distinct (x ∷ xs) = NotIn x xs × Distinct xs

abbrev pub last? : List ℕ → Option ℕ
last? [] = none
last? (x ∷ []) = some x
last? (x ∷ y ∷ xs) = last? (y ∷ xs)

-- The queue of retiree buffers, first to last.
pub record Retirees (s : Store) (xs : List ℕ) : Type 0 where
  pub chain : IsChain s.bufs s.first_retiree xs
  pub last : s.last_retiree ≡ last? xs
  pub distinct : Distinct xs
  pub unused : (j : ℕ) → s.fresh ≤ j → s.bufs j ≡ none

pub load_at : (s : Store) (i : ℕ) (b : AddrBuffer) → s.bufs i ≡ some b → load s i ≡ done b
load_at s i b e = rw (e, load) refl

pub some_inj : {A : Type 0} {x y : A} → some x ≡ some y → x ≡ y
some_inj {A} {x} {y} e = cc

pub put_self : (f : ℕ → Option AddrBuffer) (i : ℕ) (b : Option AddrBuffer) → put f i b i ≡ b
put_self f i b = let e : (i == i) ≡ true = ground arith in rw e refl

pub put_other :
    (f : ℕ → Option AddrBuffer) (i j : ℕ) (b : Option AddrBuffer) → i ≢ j → put f i b j ≡ f j
put_other f i j b n = let e : (i == j) ≡ false = ground arith in rw e refl

-- A change of a buffer outside the chain.
pub IsChain-put :
    (f : ℕ → Option AddrBuffer) (i : ℕ) (v : Option AddrBuffer) (p : Option ℕ) (xs : List ℕ)
    → NotIn i xs
    → IsChain f p xs
    → IsChain (put f i v) p xs
IsChain-put f i v p [] n c = c
IsChain-put f i v p (x ∷ xs) n (e, b, at, rest) =
    (e, b, put_other f i x v n.0 ∙ at, IsChain-put f i v b.next xs n.1 rest)

-- A change of another field than `next`.
pub IsChain-put_next :
    (f : ℕ → Option AddrBuffer) (i : ℕ) (b b' : AddrBuffer) (p : Option ℕ) (xs : List ℕ)
    → f i ≡ some b
    → b'.next ≡ b.next
    → IsChain f p xs
    → IsChain (put f i (some b')) p xs
IsChain-put_next f i b b' p [] at same c = c
IsChain-put_next f i b b' p (x ∷ xs) at same (e, bx, atx, rest) =
    let tail : ((q : Option ℕ) → IsChain f q xs → IsChain (put f i (some b')) q xs) =
      λ q. IsChain-put_next f i b b' q xs at same in
    elim (ℕ_discrete i x) [
      | no ne ↦ (e, bx, put_other f i x (some b') ne ∙ atx, tail bx.next rest)
      | yes here ↦
          let same_b : b ≡ bx = some_inj (sym at ∙ ap f here ∙ atx) in
          (
            e,
            b',
            subst (λ j. put f i (some b') j ≡ some b') here (put_self f i (some b')),
            tail b'.next (subst (λ q. IsChain f q xs) (sym (same ∙ ap (λ z. z.next) same_b)) rest),
          )
    ]

pub last?-NotIn : (i l x : ℕ) (xs : List ℕ) → NotIn i (x ∷ xs) → last? (x ∷ xs) ≡ some l → i ≢ l
last?-NotIn i l x [] n e = λ q. n.0 (q ∙ sym (some_inj e))
last?-NotIn i l x (y ∷ xs) n e = last?-NotIn i l y xs n.1 e

-- A buffer outside a chain, put behind its last.
pub IsChain-snoc :
    (f : ℕ → Option AddrBuffer) (i l : ℕ) (lb ib : AddrBuffer) (p : Option ℕ) (x : ℕ) (xs : List ℕ)
    → NotIn i (x ∷ xs)
    → Distinct (x ∷ xs)
    → last? (x ∷ xs) ≡ some l
    → f l ≡ some lb
    → f i ≡ some ib
    → ib.next ≡ none
    → IsChain f p (x ∷ xs)
    → IsChain (put f l (some (record lb { next = some i }))) p (x ∷ xs ++ i ∷ [])
IsChain-snoc f i l lb ib p x [] n d e atl ati end (ep, b, at, rest) =
    let same : x ≡ l = some_inj e in
    (
      ep,
      record lb { next = some i },
      subst
          (λ j. put f l (some (record lb { next = some i })) j ≡ some (record lb { next = some i }))
          (sym same) (put_self f l (some (record lb { next = some i }))),
      (refl, ib, put_other f l i _ (λ q. n.0 (sym q ∙ sym same)) ∙ ati, end),
    )
IsChain-snoc f i l lb ib p x (y ∷ xs) n d e atl ati end (ep, b, at, rest) = (
  ep,
  b,
  put_other f l x _ (λ q. last?-NotIn x l y xs d.0 e (sym q)) ∙ at,
  IsChain-snoc f i l lb ib b.next y xs n.1 d.1 e atl ati end rest,
)

pub Distinct-snoc : (i : ℕ) (xs : List ℕ) → NotIn i xs → Distinct xs → Distinct (xs ++ i ∷ [])
Distinct-snoc i [] n d = (tt, tt)
Distinct-snoc i (x ∷ xs) n d =
    (All-append (λ y. x ≢ y) xs (i ∷ []) d.0 (λ q. n.0 (sym q), tt), Distinct-snoc i xs n.1 d.1)

pub last?-snoc : (i : ℕ) (xs : List ℕ) → last? (xs ++ i ∷ []) ≡ some i
last?-snoc i [] = refl
last?-snoc i (x ∷ []) = refl
last?-snoc i (x ∷ y ∷ xs) = last?-snoc i (y ∷ xs)

-- Distinct numbers below `n` are at most `n`.
below_last :
    (n : ℕ) (xs : List ℕ)
    → Distinct xs
    → All (λ x. x < suc n) xs
    → (ys : List ℕ) × Distinct ys
      × All (λ y. y < n) ys
      × (length xs ≤ suc (length ys))
      × ((j : ℕ) → NotIn j xs → NotIn j ys)
      × (NotIn n xs → length xs ≤ length ys)
below_last n [] d a = ([], tt, tt, omega arith, λ j h. tt, λ h. omega arith)
below_last n (x ∷ xs) d a =
    let (ys, dy, ay, few, sub, fewer) = below_last n xs d.1 a.1 in
    elim (ℕ_discrete n x) [
      | yes e ↦ (
        ys,
        dy,
        ay,
        omega (arith, fewer (subst (λ j. NotIn j xs) (sym e) d.0)),
        λ j h. sub j h.1,
        λ h. absurd (h.0 e),
      )
      | no ne ↦ (
        x ∷ ys,
        (sub x d.0, dy),
        (below x a.0 ne, ay),
        omega arith,
        λ j h. (h.0, sub j h.1),
        λ h. omega (arith, fewer h.1),
      )
    ]
  where
    below : (x : ℕ) → x < suc n → n ≢ x → x < n
    below x h ne = omega arith

length-le : (n : ℕ) (xs : List ℕ) → Distinct xs → All (λ x. x < n) xs → length xs ≤ n
length-le n [] d a = omega arith
length-le zero (x ∷ xs) d a = absurd (omega (arith, a.0))
length-le (suc n) (x ∷ xs) d a =
    let (ys, dy, ay, few, sub, fewer) = below_last n (x ∷ xs) d a in
    omega (arith, few, length-le n ys dy ay)

chain_below :
    (s : Store) (p : Option ℕ) (xs : List ℕ)
    → ((j : ℕ) → s.fresh ≤ j → s.bufs j ≡ none)
    → IsChain s.bufs p xs
    → All (λ x. x < s.fresh) xs
chain_below s p [] un c = tt
chain_below s p (x ∷ xs) un (e, b, at, rest) = (
  elim (dec_lt x s.fresh) [ yes lt ↦ lt | no n ↦ absurd (some_none (sym at ∙ un x (omega arith))) ],
  chain_below s b.next xs un rest,
)
  where
    some_none : {b : AddrBuffer} → some b ≡ none → ⊥
    some_none {b} e = cc

-- A list of different buffers is no longer than the number of buffers.
pub chain-few :
    (s : Store) (p : Option ℕ) (xs : List ℕ)
    → ((j : ℕ) → s.fresh ≤ j → s.bufs j ≡ none)
    → IsChain s.bufs p xs
    → Distinct xs
    → length xs ≤ s.fresh
chain-few s p xs un c d = length-le s.fresh xs d (chain_below s p xs un c)

pub Retirees-few : (s : Store) (xs : List ℕ) → Retirees s xs → length xs ≤ s.fresh
Retirees-few s xs r = chain-few s s.first_retiree xs r.unused r.chain r.distinct
