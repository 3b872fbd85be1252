-- ===== src/Avl/Balance.antt =====
-- The balance invariant of the AVL tree, and the four rebalancing cases of `insert_node` in
-- forkscan-changed/avl.c.
use pp_final_project.Prelude.{
  ℕ, zero, suc, ◌+◌, ◌≤◌, ◌<◌, ◌≡◌, ◌≢◌, max, ◌⊎◌, inl, inr, refl, Bool, true, false, ◌++◌, ◌∷◌,
  append_assoc, arith, Run, Returns, Returns-imp, ltb,
}
use native.Mathlib.Decide.{ℕ_discrete as dec_eq}
use pp_final_project.Avl.Defs.{
  Tree, null, node, right_rotate, left_rotate, rotate_left_right, rotate_right_left, height,
  max_int, balance_node, rebalance,
}
use pp_final_project.Avl.Entries.{entries}

pub max_int-max : (a b : ℕ) → max_int a b ≡ max a b
unfolding max_int
max_int-max a b = ground arith

pub ruleset heights = (arith, max_int-max)

-- Each stored height is right, and the heights of two siblings differ by at most one.
abbrev pub IsAvl : Tree → Type 0
IsAvl null = Unit
IsAvl (node k h m l r) =
    (h ≡ 1 + max_int (height l) (height r))
    × (height l ≤ height r + 1)
    × (height r ≤ height l + 1)
    × IsAvl l
    × IsAvl r

-- Where a subtree has grown by the insertion of `key`: on the side of the key, or it is a new leaf.
abbrev pub Leans : ℕ → Tree → Type 0
Leans key null = ⊥
Leans key (node k h m l r) =
    ((key < k) × (height l ≡ height r + 1)) ⊎ ((k < key) × (height r ≡ height l + 1)) ⊎ (h ≡ 1)

-- What a rotation at a node with these fields gives.
abbrev pub Rotated : ℕ → Bool → Tree → Tree → ℕ → Tree → Type 0
Rotated k m l r h t = IsAvl t × (entries t ≡ entries l ++ ((k, m) ∷ entries r)) × (height t ≡ h)

-- The left child is higher by two, and leans to the left.
right_rotate-Rotated :
    (k h : ℕ) (m : Bool) (lk lh : ℕ) (lm : Bool) (ll lr r : Tree)
    → IsAvl (node lk lh lm ll lr)
    → IsAvl r
    → lh ≡ height r + 2
    → height ll ≡ height lr + 1
    → Returns
        (right_rotate (node k h m (node lk lh lm ll lr) r))
        (Rotated k m (node lk lh lm ll lr) r lh)
unfolding right_rotate
right_rotate-Rotated k h m lk lh lm ll lr r al ar e lean = (
  (
    omega heights,
    omega heights,
    omega heights,
    al.3,
    (omega heights, omega heights, omega heights, al.4, ar),
  ),
  simp append_assoc,
  omega heights,
)

left_rotate-Rotated :
    (k h : ℕ) (m : Bool) (l : Tree) (rk rh : ℕ) (rm : Bool) (rl rr : Tree)
    → IsAvl l
    → IsAvl (node rk rh rm rl rr)
    → rh ≡ height l + 2
    → height rr ≡ height rl + 1
    → Returns
        (left_rotate (node k h m l (node rk rh rm rl rr)))
        (Rotated k m l (node rk rh rm rl rr) rh)
unfolding left_rotate
left_rotate-Rotated k h m l rk rh rm rl rr al ar e lean = (
  (
    omega heights,
    omega heights,
    omega heights,
    (omega heights, omega heights, omega heights, al, ar.3),
    ar.4,
  ),
  simp append_assoc,
  omega heights,
)

rotate_left_right-Rotated :
    (k h : ℕ) (m : Bool) (lk lh : ℕ) (lm : Bool) (ll lr r : Tree)
    → IsAvl (node lk lh lm ll lr)
    → IsAvl r
    → lh ≡ height r + 2
    → height lr ≡ height ll + 1
    → Returns
        (rotate_left_right (node k h m (node lk lh lm ll lr) r))
        (Rotated k m (node lk lh lm ll lr) r lh)
unfolding rotate_left_right left_rotate right_rotate
rotate_left_right-Rotated k h m lk lh lm ll null r al ar e lean = absurd (omega arith)
rotate_left_right-Rotated k h m lk lh lm ll (node ck ch cm cl cr) r al ar e lean = (
  (
    omega heights,
    omega heights,
    omega heights,
    (omega heights, omega heights, omega heights, al.3, al.4.3),
    (omega heights, omega heights, omega heights, al.4.4, ar),
  ),
  simp append_assoc,
  omega heights,
)

rotate_right_left-Rotated :
    (k h : ℕ) (m : Bool) (l : Tree) (rk rh : ℕ) (rm : Bool) (rl rr : Tree)
    → IsAvl l
    → IsAvl (node rk rh rm rl rr)
    → rh ≡ height l + 2
    → height rl ≡ height rr + 1
    → Returns
        (rotate_right_left (node k h m l (node rk rh rm rl rr)))
        (Rotated k m l (node rk rh rm rl rr) rh)
unfolding rotate_right_left left_rotate right_rotate
rotate_right_left-Rotated k h m l rk rh rm null rr al ar e lean = absurd (omega arith)
rotate_right_left-Rotated k h m l rk rh rm (node ck ch cm cl cr) rr al ar e lean = (
  (
    omega heights,
    omega heights,
    omega heights,
    (omega heights, omega heights, omega heights, al, ar.3.3),
    (omega heights, omega heights, omega heights, ar.3.4, ar.4),
  ),
  simp append_assoc,
  omega heights,
)

-- What `rebalance` gives: the node itself where its children are in balance, else a rotation of it
-- that is as high as the higher child.
abbrev pub Rebuilt : ℕ → Bool → Tree → Tree → Tree → Type 0
Rebuilt k m l r t =
    IsAvl t
    × (entries t ≡ entries l ++ ((k, m) ∷ entries r))
    × (height l ≤ height r + 1
        → height r ≤ height l + 1
        → t ≡ node k (1 + max_int (height l) (height r)) m l r)
    × (height l ≡ height r + 2 → height t ≡ height l)
    × (height r ≡ height l + 2 → height t ≡ height r)

rebalance-level :
    (k : ℕ) (m : Bool) (l r : Tree) (key : ℕ)
    → height l ≤ height r + 1
    → height r ≤ height l + 1
    → rebalance k m l r key ≡ Run.done (node k (1 + max_int (height l) (height r)) m l r)
unfolding rebalance balance_node
rebalance-level k m l r key p q = ground arith

rebalance-left_left :
    (k : ℕ) (m : Bool) (lk lh : ℕ) (lm : Bool) (ll lr r : Tree) (key : ℕ)
    → lh ≡ height r + 2
    → key < lk
    → let l = node lk lh lm ll lr in
      rebalance k m l r key ≡ right_rotate (node k (1 + max_int lh (height r)) m l r)
unfolding rebalance balance_node
rebalance-left_left k m lk lh lm ll lr r key e h = ground arith

rebalance-left_right :
    (k : ℕ) (m : Bool) (lk lh : ℕ) (lm : Bool) (ll lr r : Tree) (key : ℕ)
    → lh ≡ height r + 2
    → lk < key
    → let l = node lk lh lm ll lr in
      rebalance k m l r key ≡ rotate_left_right (node k (1 + max_int lh (height r)) m l r)
unfolding rebalance balance_node
rebalance-left_right k m lk lh lm ll lr r key e h = ground arith

rebalance-right_right :
    (k : ℕ) (m : Bool) (l : Tree) (rk rh : ℕ) (rm : Bool) (rl rr : Tree) (key : ℕ)
    → rh ≡ height l + 2
    → rk < key
    → let r = node rk rh rm rl rr in
      rebalance k m l r key ≡ left_rotate (node k (1 + max_int (height l) rh) m l r)
unfolding rebalance balance_node
rebalance-right_right k m l rk rh rm rl rr key e h = ground arith

rebalance-right_left :
    (k : ℕ) (m : Bool) (l : Tree) (rk rh : ℕ) (rm : Bool) (rl rr : Tree) (key : ℕ)
    → rh ≡ height l + 2
    → key < rk
    → let r = node rk rh rm rl rr in
      rebalance k m l r key ≡ rotate_right_left (node k (1 + max_int (height l) rh) m l r)
unfolding rebalance balance_node
rebalance-right_left k m l rk rh rm rl rr key e h = ground arith

rebalance_left :
    (k : ℕ) (m : Bool) (l r : Tree) (key : ℕ)
    → IsAvl l
    → IsAvl r
    → height l ≡ height r + 2
    → Leans key l
    → Returns (rebalance k m l r key) (Rotated k m l r (height l))
rebalance_left k m null r key al ar e lean = elim lean [ ]
rebalance_left k m (node lk lh lm ll lr) r key al ar e lean = elim lean [
  | inl c ↦
      rw (rebalance-left_left k m lk lh lm ll lr r key e c.0)
        (right_rotate-Rotated k _ m lk lh lm ll lr r al ar e c.1)
  | inr (inl c) ↦
      rw (rebalance-left_right k m lk lh lm ll lr r key e c.0)
        (rotate_left_right-Rotated k _ m lk lh lm ll lr r al ar e c.1)
  | inr (inr c) ↦ absurd (omega arith)
]

rebalance_right :
    (k : ℕ) (m : Bool) (l r : Tree) (key : ℕ)
    → IsAvl l
    → IsAvl r
    → height r ≡ height l + 2
    → Leans key r
    → Returns (rebalance k m l r key) (Rotated k m l r (height r))
rebalance_right k m l null key al ar e lean = elim lean [ ]
rebalance_right k m l (node rk rh rm rl rr) key al ar e lean = elim lean [
  | inl c ↦
      rw (rebalance-right_left k m l rk rh rm rl rr key e c.0)
        (rotate_right_left-Rotated k _ m l rk rh rm rl rr al ar e c.1)
  | inr (inl c) ↦
      rw (rebalance-right_right k m l rk rh rm rl rr key e c.0)
        (left_rotate-Rotated k _ m l rk rh rm rl rr al ar e c.1)
  | inr (inr c) ↦ absurd (omega arith)
]

-- With children whose heights differ by at most two, the higher one leaning to the key's side,
-- `rebalance` returns a balanced tree with the same entries.
pub rebalance-Rebuilt :
    (k : ℕ) (m : Bool) (l r : Tree) (key : ℕ)
    → IsAvl l
    → IsAvl r
    → height l ≤ height r + 2
    → height r ≤ height l + 2
    → (height l ≡ height r + 2 → Leans key l)
    → (height r ≡ height l + 2 → Leans key r)
    → Returns (rebalance k m l r key) (Rebuilt k m l r)
rebalance-Rebuilt k m l r key al ar hl hr left right = elim (dec_eq (height l) (height r + 2)) [
  | yes e ↦
      Returns-imp (rebalance k m l r key)
        (λ t p. (p.0, p.1, λ a b. absurd (omega arith), λ _. p.2, λ f. absurd (omega arith)))
        (rebalance_left k m l r key al ar e (left e))
  | no n ↦ elim (dec_eq (height r) (height l + 2)) [
    | yes e ↦
        Returns-imp (rebalance k m l r key)
          (λ t p. (p.0, p.1, λ a b. absurd (omega arith), λ f. absurd (n f), λ _. p.2))
          (rebalance_right k m l r key al ar e (right e))
    | no n' ↦ rw (rebalance-level k m l r key (omega arith) (omega arith)) (
      (refl, omega arith, omega arith, al, ar),
      refl,
      λ _ _. refl,
      λ f. absurd (n f),
      λ f. absurd (n' f),
    )
  ]
]
