-- ===== src/Avl/Insert.antt =====
-- `insert_node` of forkscan-changed/avl.c: it returns, keeps the tree balanced and ordered, and adds
-- the key.
use pp_final_project.Prelude.{
  ℕ, ◌+◌, ◌≤◌, ◌<◌, ◌≡◌, inl, inr, refl, Bool, true, false, not, ◌++◌, ◌∷◌, arith, Returns,
  Returns-imp, Returns-bind, ◌>>=◌, lt_eq_gt, lt→ltb, lt→not_ltb, done, ap, ◌∙◌, sym,
}
use mathlib.Core.Path.{subst}
use native.Mathlib.Decide.{dec_le}
use pp_final_project.Avl.Defs.{
  Tree, null, node, height, max_int, rebalance, insert_node, new_node, contains_node,
}
use pp_final_project.Avl.Entries.{
  entries, IsAscending, IsAscending-split, insert_entry, insert_entry-append_left,
  insert_entry-append_right, insert_entry-append_self, AllBelow-trans,
}
use pp_final_project.Avl.Balance.{IsAvl, Leans, Rebuilt, rebalance-Rebuilt, heights}

-- A balanced tree over these children and entry, in place of a node of height `h`.
abbrev Grown : ℕ → ℕ → Bool → Tree → Tree → ℕ → Tree → Type 0
Grown key k m l r h t =
    IsAvl t
    × (entries t ≡ entries l ++ ((k, m) ∷ entries r))
    × (h ≤ height t)
    × (height t ≤ h + 1)
    × (height t ≡ h + 1 → Leans key t)

module _ (key k h : ℕ) (m : Bool) (l r : Tree) (avl : IsAvl (node k h m l r)) where
  rebalance_left-Grown :
      (l' : Tree)
      → IsAvl l'
      → height l ≤ height l'
      → height l' ≤ height l + 1
      → (height l' ≡ height l + 1 → Leans key l')
      → key < k
      → Returns (rebalance k m l' r key) (Grown key k m l' r h)
  rebalance_left-Grown l' avl' low high lean lt = Returns-imp (rebalance k m l' r key) shape (
      rebalance-Rebuilt k m l' r key avl' avl.4 (omega arith) (omega arith)
        (λ e. lean (omega arith)) (λ e. absurd (omega arith)))
    where
      shape : (t : Tree) → Rebuilt k m l' r t → Grown key k m l' r h t
      shape t (avl_t, kept, level, left, right) = elim (dec_le (height l') (height r + 1)) [
        | yes p ↦
            let e : t ≡ node k (1 + max_int (height l') (height r)) m l' r =
              level p (omega arith) in
            let eh : height t ≡ 1 + max_int (height l') (height r) = ap height e in
            (avl_t, kept, omega heights, omega heights, λ g. rw e (inl (lt, omega heights)))
        | no p ↦
            let eh : height t ≡ height l' = left (omega arith) in
            (avl_t, kept, omega heights, omega heights, λ g. absurd (omega heights))
      ]

  rebalance_right-Grown :
      (r' : Tree)
      → IsAvl r'
      → height r ≤ height r'
      → height r' ≤ height r + 1
      → (height r' ≡ height r + 1 → Leans key r')
      → k < key
      → Returns (rebalance k m l r' key) (Grown key k m l r' h)
  rebalance_right-Grown r' avl' low high lean lt = Returns-imp (rebalance k m l r' key) shape (
      rebalance-Rebuilt k m l r' key avl.3 avl' (omega arith) (omega arith)
        (λ e. absurd (omega arith)) (λ e. lean (omega arith)))
    where
      shape : (t : Tree) → Rebuilt k m l r' t → Grown key k m l r' h t
      shape t (avl_t, kept, level, left, right) = elim (dec_le (height r') (height l + 1)) [
        | yes p ↦
            let e : t ≡ node k (1 + max_int (height l) (height r')) m l r' =
              level (omega arith) p in
            let eh : height t ≡ 1 + max_int (height l) (height r') = ap height e in
            (avl_t, kept, omega heights, omega heights, λ g. rw e (inr (inl (lt, omega heights))))
        | no p ↦
            let eh : height t ≡ height r' = right (omega arith) in
            (avl_t, kept, omega heights, omega heights, λ g. absurd (omega heights))
      ]

-- What an insertion of `key` into `t` returns: a balanced tree, as high or higher by one, with the
-- key among its entries, and whether the key is new.
abbrev pub Inserted : ℕ → Tree → Tree × Bool → Type 0
Inserted key t (t', inserted) =
    IsAvl t'
    × (entries t' ≡ insert_entry key (entries t))
    × (inserted ≡ not (contains_node t key))
    × (height t ≤ height t')
    × (height t' ≤ height t + 1)
    × (height t' ≡ height t + 1 → Leans key t')

pub insert_node-left :
    (mem : Bool) (k h : ℕ) (m : Bool) (l r : Tree) (key : ℕ)
    → key < k
    → insert_node mem (node k h m l r) key
      ≡ (insert_node mem l key >>= λ p. rebalance k m p.0 r key >>= λ t. done (t, p.1))
unfolding insert_node
insert_node-left mem k h m l r key lt = rw (lt→ltb key k lt, insert_node)

pub insert_node-right :
    (mem : Bool) (k h : ℕ) (m : Bool) (l r : Tree) (key : ℕ)
    → k < key
    → insert_node mem (node k h m l r) key
      ≡ (insert_node mem r key >>= λ p. rebalance k m l p.0 key >>= λ t. done (t, p.1))
unfolding insert_node
insert_node-right mem k h m l r key lt = rw (lt→not_ltb key k lt, lt→ltb k key lt, insert_node)

insert_node_self :
    (mem : Bool) (k h : ℕ) (m : Bool) (l r : Tree)
    → insert_node mem (node k h m l r) k ≡ done (node k h m l r, false)
unfolding insert_node
insert_node_self mem k h m l r = ground arith

pub contains_node-left :
    (k h : ℕ) (m : Bool) (l r : Tree) (key : ℕ)
    → key < k
    → contains_node (node k h m l r) key ≡ contains_node l key
unfolding contains_node
contains_node-left k h m l r key lt = ground arith

pub contains_node-right :
    (k h : ℕ) (m : Bool) (l r : Tree) (key : ℕ)
    → k < key
    → contains_node (node k h m l r) key ≡ contains_node r key
unfolding contains_node
contains_node-right k h m l r key lt = ground arith

pub contains_node_self : (k h : ℕ) (m : Bool) (l r : Tree) → contains_node (node k h m l r) k ≡ true
unfolding contains_node
contains_node_self k h m l r = ground arith

-- Where the allocation, if one is needed, succeeds, `insert_node` inserts into a balanced and ordered tree
-- without a fault: the result is balanced, holds the key among the old entries at its place, is higher by at most one, and the flag tells
-- whether the key was absent.
pub insert_node-Inserted :
    (t : Tree) (key : ℕ)
    → IsAvl t
    → IsAscending (entries t)
    → Returns (insert_node true t key) (Inserted key t)
insert_node-Inserted null key avl asc =
    unfold insert_node contains_node new_node insert_entry max_int in
    (
      (refl, omega arith, omega arith, tt, tt),
      refl,
      refl,
      omega arith,
      omega arith,
      λ _. inr (inr refl),
    )
insert_node-Inserted (node k h m l r) key avl asc =
    let (below, above, asc_l, asc_r) = IsAscending-split (entries l) k m (entries r) asc in
    let left = insert_node-Inserted l key avl.3 asc_l in
    let right = insert_node-Inserted r key avl.4 asc_r in
    elim (lt_eq_gt key k) [
      | inl lt ↦ rw (insert_node-left true k h m l r key lt) (
          Returns-bind _ (insert_node true l key) _ left λ p i.
            Returns-bind _ (rebalance k m p.0 r key) _
              (rebalance_left-Grown key k h m l r avl p.0 i.0 i.3 i.4 i.5 lt)
              λ t g. (
                g.0,
                g.1
                    ∙ ap (λ xs. xs ++ ((k, m) ∷ entries r)) i.1
                    ∙ sym (insert_entry-append_left key (entries l) k m (entries r) lt),
                i.2 ∙ ap not (sym (contains_node-left k h m l r key lt)),
                g.2,
                g.3,
                g.4,
              ))
      | inr (inl e) ↦
          subst (λ x. Returns (insert_node true (node k h m l r) x) (Inserted x (node k h m l r)))
            (sym e)
            (rw (insert_node_self true k h m l r) (
              avl,
              sym (insert_entry-append_self (entries l) k m (entries r) below),
              ap not (sym (contains_node_self k h m l r)),
              omega arith,
              omega arith,
              λ g. absurd (omega arith),
            ))
      | inr (inr lt) ↦ rw (insert_node-right true k h m l r key lt) (
          Returns-bind _ (insert_node true r key) _ right λ p i.
            Returns-bind _ (rebalance k m l p.0 key) _
              (rebalance_right-Grown key k h m l r avl p.0 i.0 i.3 i.4 i.5 lt)
              λ t g. (
                g.0,
                g.1
                    ∙ ap (λ xs. entries l ++ ((k, m) ∷ xs)) i.1
                    ∙ sym (
                        insert_entry-append_right key (entries l) k m (entries r)
                          (AllBelow-trans k key (entries l) lt below) lt),
                i.2 ∙ ap not (sym (contains_node-right k h m l r key lt)),
                g.2,
                g.3,
                g.4,
              ))
    ]
