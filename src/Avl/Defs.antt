-- ===== src/Avl/Defs.antt =====
-- The functions of forkscan-changed/avl.c.
use pp_final_project.Prelude.{
  ℕ, zero, suc, ◌+◌, ◌-◌, Bool, true, false, List, [], ◌∷◌, ltb, leb, ◌==◌, if◌then◌else◌, Run,
  done, fail, null_deref, exit_1, ◌>>=◌, and_then, get_elem?, read,
}

-- `avl_node_t *`: NULL, or a node with its fields in the order of the struct.
pub data Tree : Type 0 where
  null : Tree
  node : (key : ℕ) (height : ℕ) (marked : Bool) (left right : Tree) → Tree

-- A C int that is a difference of two heights.
pub data ℤ : Type 0 where
  pos : ℕ → ℤ
  negsuc : ℕ → ℤ

abbrev pub sub_ℕ : ℕ → ℕ → ℤ
sub_ℕ a b = if leb b a then pos (a - b) else negsuc (b - a - 1)

-- `balance > 1`
abbrev pub above_one : ℤ → Bool
above_one (pos n) = ltb 1 n
above_one (negsuc n) = false

-- `balance < -1`
abbrev pub below_minus_one : ℤ → Bool
below_minus_one (pos n) = false
below_minus_one (negsuc n) = ltb 0 n

abbrev pub height : Tree → ℕ
height null = 0
height (node key h m l r) = h

unfoldable pub max_int : ℕ → ℕ → ℕ
max_int a b = if ltb b a then a else b

-- `malloc` returned NULL: `exit(1)`.
unfoldable pub new_node : Bool → ℕ → Run Tree
new_node true key = done (node key 1 false null null)
new_node false key = fail exit_1

-- The last lines of both rotations: store the two heights, the lower node's first.
abbrev pub with_height : ℕ → Bool → Tree → Tree → Tree
with_height key m l r = node key (max_int (height l) (height r) + 1) m l r

unfoldable pub right_rotate : Tree → Run Tree
right_rotate null = fail null_deref
right_rotate (node yk yh ym null yr) = fail null_deref
right_rotate (node yk yh ym (node xk xh xm xl t2) yr) =
    done (with_height xk xm xl (with_height yk ym t2 yr))

unfoldable pub left_rotate : Tree → Run Tree
left_rotate null = fail null_deref
left_rotate (node xk xh xm xl null) = fail null_deref
left_rotate (node xk xh xm xl (node yk yh ym t2 yr)) =
    done (with_height yk ym (with_height xk xm xl t2) yr)

abbrev pub get_balance : Tree → ℤ
get_balance null = pos 0
get_balance (node k h m l r) = sub_ℕ (height l) (height r)

-- `node->key`
abbrev pub key_of : Tree → Run ℕ
key_of null = fail null_deref
key_of (node k h m l r) = done k

-- `key < node->key`
abbrev pub key_below : ℕ → Tree → Run Bool
key_below key t = do k ← key_of t; done (ltb key k)

-- `key > node->key`
abbrev pub key_above : ℕ → Tree → Run Bool
key_above key t = do k ← key_of t; done (ltb k key)

-- `node->left = left_rotate(node->left); return right_rotate(node);`
unfoldable pub rotate_left_right : Tree → Run Tree
rotate_left_right null = fail null_deref
rotate_left_right (node k h m l r) = do l' ← left_rotate l; right_rotate (node k h m l' r)

-- `node->right = right_rotate(node->right); return left_rotate(node);`
unfoldable pub rotate_right_left : Tree → Run Tree
rotate_right_left null = fail null_deref
rotate_right_left (node k h m l r) = do r' ← right_rotate r; left_rotate (node k h m l r')

-- The four tests at the end of `insert_node`, in the order of the source.
unfoldable pub balance_node : ℤ → Tree → Tree → Tree → ℕ → Run Tree
balance_node balance n l r key = do
  left_left ← and_then (above_one balance) (key_below key l)
  if left_left then right_rotate n else do
    right_right ← and_then (below_minus_one balance) (key_above key r)
    if right_right then left_rotate n else do
      left_right ← and_then (above_one balance) (key_above key l)
      if left_right then rotate_left_right n else do
        right_left ← and_then (below_minus_one balance) (key_below key r)
        if right_left then rotate_right_left n else done n

-- `insert_node` from the store of the new height on.
unfoldable pub rebalance : ℕ → Bool → Tree → Tree → ℕ → Run Tree
rebalance k m l r key =
    let n = node k (1 + max_int (height l) (height r)) m l r in
    balance_node (get_balance n) n l r key

-- The Boolean is `*inserted`.
unfoldable pub insert_node : Bool → Tree → ℕ → Run (Tree × Bool)
insert_node mem null key = do t ← new_node mem key; done (t, true)
insert_node mem (node k h m l r) key = elim (ltb key k) [
  | true ↦ do (l', inserted) ← insert_node mem l key; t ← rebalance k m l' r key; done (t, inserted)
  | false ↦ elim (ltb k key) [
    | true ↦ do
      (r', inserted) ← insert_node mem r key
      t ← rebalance k m l r' key
      done (t, inserted)
    | false ↦ done (node k h m l r, false)
  ]
]

unfoldable pub contains_node : Tree → ℕ → Bool
contains_node null key = false
contains_node (node k h m l r) key = elim (key == k) [
  | true ↦ true
  | false ↦ elim (ltb key k) [ true ↦ contains_node l key | false ↦ contains_node r key ]
]

-- The tree, the value returned, and `*found`, which a miss leaves as it was.
unfoldable pub mark_node : Tree → ℕ → Bool → Tree × Bool × Bool
mark_node null key found = (null, false, found)
mark_node (node k h m l r) key found = elim (key == k) [
  | true ↦ (node k h true l r, true, true)
  | false ↦ elim (ltb key k) [
    | true ↦ let (l', ret, found') = mark_node l key found in (node k h m l' r, ret, found')
    | false ↦ let (r', ret, found') = mark_node r key found in (node k h m l r', ret, found')
  ]
]

-- The calls of `free`, in order, put before those that follow; a node is named by its key.
unfoldable pub destroy_node : Tree → List ℕ → List ℕ
destroy_node null after = after
destroy_node (node k h m l r) after = destroy_node l (destroy_node r (k ∷ after))

-- The callback reads the node and works on a state of the caller's, `data`.
unfoldable pub inorder_traverse {ℓ} : {S : Type ℓ} → Tree → (Tree → S → Run S) → S → Run S
inorder_traverse null f s = done s
inorder_traverse (node k h m l r) f s = do
  s1 ← inorder_traverse l f s
  s2 ← f (node k h m l r) s1
  inorder_traverse r f s2

-- The root of an `avl_tree_t`, whose only field it is.
unfoldable pub avl_create : Bool → Run Tree
avl_create true = done null
avl_create false = fail exit_1

unfoldable pub avl_insert : Bool → Tree → ℕ → Run (Tree × Bool)
avl_insert mem tree key = insert_node mem tree key

unfoldable pub avl_contains : Tree → ℕ → Bool
avl_contains tree key = contains_node tree key

unfoldable pub avl_mark : Tree → ℕ → Tree × Bool
avl_mark tree key = let (tree', ret, found) = mark_node tree key false in (tree', found)

unfoldable pub avl_destroy : Tree → List ℕ
avl_destroy tree = destroy_node tree []

-- The loop of `avl_build_from_array` with `n` rounds to go; `mem i` is the allocation of round `i`.
unfoldable pub build_loop : (ℕ → Bool) → List ℕ → ℕ → ℕ → Tree → Run Tree
build_loop mem keys zero i tree = done tree
build_loop mem keys (suc n) i tree = do
  key ← read (get_elem? keys i)
  (tree', inserted) ← avl_insert (mem i) tree key
  build_loop mem keys n (suc i) tree'

unfoldable pub avl_build_from_array : Bool → (ℕ → Bool) → List ℕ → ℕ → Run Tree
avl_build_from_array root_mem mem keys n = do
  tree ← avl_create root_mem
  build_loop mem keys n 0 tree

unfoldable pub avl_inorder {ℓ} : {S : Type ℓ} → Tree → (Tree → S → Run S) → S → Run S
avl_inorder tree f s = inorder_traverse tree f s
