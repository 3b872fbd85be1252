-- ===== src/Avl/Lookup.antt =====
-- `contains_node`, `mark_node` and a failed allocation, of forkscan-changed/avl.c.
use mathlib.Core.Path.{subst}
use pp_final_project.Prelude.{
  Returns, Bool-cases, ◌⊎◌, ℕ, ◌<◌, ◌≡◌, ◌≢◌, inl, inr, refl, Bool, true, false, List, [], ◌++◌,
  ◌∷◌, arith, fail, exit_1, ◌==◌, if◌then◌else◌, lt_eq_gt, ap, ◌∙◌, sym,
}
use pp_final_project.Avl.Defs.{
  Tree, null, node, height, insert_node, new_node, contains_node, mark_node, avl_mark, avl_contains,
}
use pp_final_project.Avl.Entries.{
  entries, Entry, IsAscending, IsAscending-split, AllAbove, AllBelow, AllBelow-trans,
  AllAbove-trans,
}
use pp_final_project.Avl.Balance.{IsAvl}
use pp_final_project.Avl.Insert.{
  contains_node-left, contains_node-right, contains_node_self, insert_node-left, insert_node-right,
  Inserted, insert_node-Inserted,
}

-- A linear search for the key.
unfoldable pub has : ℕ → List Entry → Bool
has key [] = false
has key ((k, m) ∷ xs) = if key == k then true else has key xs

-- The entries with the mark of `key` set.
unfoldable pub mark_entry : ℕ → List Entry → List Entry
mark_entry key [] = []
mark_entry key ((k, m) ∷ xs) = (if key == k then (k, true) else (k, m)) ∷ mark_entry key xs

pub has-AllAbove : (key : ℕ) (xs : List Entry) → AllAbove key xs → has key xs ≡ false
unfolding has
has-AllAbove key [] h = refl
has-AllAbove key ((k, m) ∷ xs) h = ground (arith, has-AllAbove key xs h.1)

has-append_left :
    (key : ℕ) (xs : List Entry) (k : ℕ) (m : Bool) (ys : List Entry)
    → key < k
    → AllAbove k ys
    → has key (xs ++ ((k, m) ∷ ys)) ≡ has key xs
unfolding has
has-append_left key [] k m ys h above =
    ground (arith, has-AllAbove key ys (AllAbove-trans key k ys h above))
has-append_left key ((j, n) ∷ xs) k m ys h above =
    ground (arith, has-append_left key xs k m ys h above)

has-append_right :
    (key : ℕ) (xs : List Entry) (k : ℕ) (m : Bool) (ys : List Entry)
    → k < key
    → AllBelow key xs
    → has key (xs ++ ((k, m) ∷ ys)) ≡ has key ys
unfolding has
has-append_right key [] k m ys h below = ground arith
has-append_right key ((j, n) ∷ xs) k m ys h below =
    ground (arith, has-append_right key xs k m ys h below.1)

has-append_self :
    (xs : List Entry) (k : ℕ) (m : Bool) (ys : List Entry) → has k (xs ++ ((k, m) ∷ ys)) ≡ true
unfolding has
has-append_self [] k m ys = ground arith
has-append_self ((j, n) ∷ xs) k m ys = ground (arith, has-append_self xs k m ys)

mark_entry-append :
    (key : ℕ) (xs ys : List Entry)
    → mark_entry key (xs ++ ys) ≡ mark_entry key xs ++ mark_entry key ys
unfolding mark_entry
mark_entry-append key [] ys = refl
mark_entry-append key ((k, m) ∷ xs) ys = rw (mark_entry-append key xs ys)

mark_entry-AllAbove : (key : ℕ) (xs : List Entry) → AllAbove key xs → mark_entry key xs ≡ xs
unfolding mark_entry
mark_entry-AllAbove key [] h = refl
mark_entry-AllAbove key ((k, m) ∷ xs) h = ground (arith, mark_entry-AllAbove key xs h.1)

mark_entry-AllBelow : (key : ℕ) (xs : List Entry) → AllBelow key xs → mark_entry key xs ≡ xs
unfolding mark_entry
mark_entry-AllBelow key [] h = refl
mark_entry-AllBelow key ((k, m) ∷ xs) h = ground (arith, mark_entry-AllBelow key xs h.1)

true≢false : true ≢ false
true≢false h = cc

-- In an ordered tree the search of `avl_contains` agrees with a search of all entries.
pub avl_contains-has :
    (t : Tree) (key : ℕ) → IsAscending (entries t) → avl_contains t key ≡ has key (entries t)
unfolding avl_contains
avl_contains-has null key asc = unfold contains_node has in refl
avl_contains-has (node k h m l r) key asc =
    let (below, above, asc_l, asc_r) = IsAscending-split (entries l) k m (entries r) asc in
    let left = avl_contains-has l key asc_l in
    let right = avl_contains-has r key asc_r in
    elim (lt_eq_gt key k) [
      | inl lt ↦
          contains_node-left k h m l r key lt
          ∙ left
          ∙ sym (has-append_left key (entries l) k m (entries r) lt above)
      | inr (inl e) ↦
          rw e (contains_node_self k h m l r ∙ sym (has-append_self (entries l) k m (entries r)))
      | inr (inr lt) ↦
          contains_node-right k h m l r key lt
          ∙ right
          ∙ sym (
              has-append_right key (entries l) k m (entries r) lt
                (AllBelow-trans k key (entries l) lt below))
    ]

-- What `mark_node` does to a tree.
abbrev Marked : Tree → ℕ → Bool → Tree × Bool × Bool → Type 0
Marked t key found (t', ret, found') =
    (entries t' ≡ mark_entry key (entries t))
    × (height t' ≡ height t)
    × (IsAvl t → IsAvl t')
    × (ret ≡ contains_node t key)
    × (found' ≡ (if contains_node t key then true else found))

mark_node-left :
    (k h : ℕ) (m : Bool) (l r : Tree) (key : ℕ) (found : Bool)
    → key < k
    → mark_node (node k h m l r) key found
      ≡ (let p = mark_node l key found in (node k h m p.0 r, p.1, p.2))
unfolding mark_node
mark_node-left k h m l r key found lt = ground arith

mark_node-right :
    (k h : ℕ) (m : Bool) (l r : Tree) (key : ℕ) (found : Bool)
    → k < key
    → mark_node (node k h m l r) key found
      ≡ (let p = mark_node r key found in (node k h m l p.0, p.1, p.2))
unfolding mark_node
mark_node-right k h m l r key found lt = ground arith

mark_node_self :
    (k h : ℕ) (m : Bool) (l r : Tree) (found : Bool)
    → mark_node (node k h m l r) k found ≡ (node k h true l r, true, true)
unfolding mark_node
mark_node_self k h m l r found = ground arith

mark_entry_self :
    (xs : List Entry) (k : ℕ) (m : Bool) (ys : List Entry)
    → AllBelow k xs
    → AllAbove k ys
    → mark_entry k (xs ++ ((k, m) ∷ ys)) ≡ xs ++ ((k, true) ∷ ys)
mark_entry_self xs k m ys below above =
    rw (mark_entry-append k xs ((k, m) ∷ ys), mark_entry-AllBelow k xs below)
      (ap (λ zs. xs ++ zs) (at_head (mark_entry-AllAbove k ys above)))
  where
    at_head : mark_entry k ys ≡ ys → mark_entry k ((k, m) ∷ ys) ≡ (k, true) ∷ ys
    at_head e = unfold mark_entry in ground arith

mark_entry-append_right :
    (key : ℕ) (xs : List Entry) (k : ℕ) (m : Bool) (ys : List Entry)
    → k < key
    → AllBelow key xs
    → mark_entry key (xs ++ ((k, m) ∷ ys)) ≡ xs ++ ((k, m) ∷ mark_entry key ys)
mark_entry-append_right key xs k m ys lt below =
    rw (mark_entry-append key xs ((k, m) ∷ ys), mark_entry-AllBelow key xs below)
      (ap (λ zs. xs ++ zs) at_head)
  where
    at_head : mark_entry key ((k, m) ∷ ys) ≡ (k, m) ∷ mark_entry key ys
    at_head = unfold mark_entry in ground arith

mark_node-Marked :
    (t : Tree) (key : ℕ) (found : Bool)
    → IsAscending (entries t)
    → Marked t key found (mark_node t key found)
mark_node-Marked null key found asc =
    unfold mark_node mark_entry contains_node in (refl, refl, λ a. a, refl, refl)
mark_node-Marked (node k h m l r) key found asc =
    let (below, above, asc_l, asc_r) = IsAscending-split (entries l) k m (entries r) asc in
    let left = mark_node-Marked l key found asc_l in
    let right = mark_node-Marked r key found asc_r in
    elim (lt_eq_gt key k) [
      | inl lt ↦
          rw (mark_node-left k h m l r key found lt, contains_node-left k h m l r key lt)
            (
              ap (λ xs. xs ++ ((k, m) ∷ entries r)) left.0
                  ∙ sym (
                      mark_entry-append key (entries l) ((k, m) ∷ entries r)
                      ∙ ap (λ xs. mark_entry key (entries l) ++ xs)
                          (mark_entry-AllAbove key ((k, m) ∷ entries r)
                            (lt, AllAbove-trans key k (entries r) lt above))),
              refl,
              λ a. rw left.1 (a.0, a.1, a.2, left.2 a.3, a.4),
              left.3,
              left.4,
            )
      | inr (inl e) ↦ rw e (
          rw (mark_node_self k h m l r found, contains_node_self k h m l r)
            (
              sym (mark_entry_self (entries l) k m (entries r) below above),
              refl,
              λ a. a,
              refl,
              refl,
            ))
      | inr (inr lt) ↦
          rw (mark_node-right k h m l r key found lt, contains_node-right k h m l r key lt)
            (
              ap (λ xs. entries l ++ ((k, m) ∷ xs)) right.0
                  ∙ sym (
                      mark_entry-append_right key (entries l) k m (entries r) lt
                        (AllBelow-trans k key (entries l) lt below)),
              refl,
              λ a. rw right.1 (a.0, a.1, a.2, a.3, right.2 a.4),
              right.3,
              right.4,
            )
    ]

-- In an ordered tree `avl_mark` sets the mark of the key and of no other entry, keeps the shape, and
-- returns whether the key is there.
pub avl_mark_lem :
    (t : Tree) (key : ℕ)
    → IsAscending (entries t)
    → (entries (avl_mark t key).0 ≡ mark_entry key (entries t))
      × ((avl_mark t key).1 ≡ has key (entries t))
      × (IsAvl t → IsAvl (avl_mark t key).0)
unfolding avl_mark
avl_mark_lem t key asc =
    let p = mark_node-Marked t key false asc in
    (
      p.0,
      p.4 ∙ collapse (contains_node t key) ∙ unfold avl_contains in avl_contains-has t key asc,
      p.2,
    )
  where
    collapse : (b : Bool) → (if b then true else false) ≡ b
    collapse true = refl
    collapse false = refl

-- A failed allocation ends the program where a new node is needed.
insert_node-absent :
    (t : Tree) (key : ℕ) → contains_node t key ≡ false → insert_node false t key ≡ fail exit_1
insert_node-absent null key e = unfold insert_node new_node in refl
insert_node-absent (node k h m l r) key e = elim (lt_eq_gt key k) [
  | inl lt ↦ rw (
    insert_node-left false k h m l r key lt,
    insert_node-absent l key (sym (contains_node-left k h m l r key lt) ∙ e),
  )
  | inr (inl f) ↦ absurd (
      true≢false
        (sym (contains_node_self k h m l r) ∙ ap (contains_node (node k h m l r)) (sym f) ∙ e))
  | inr (inr lt) ↦ rw (
    insert_node-right false k h m l r key lt,
    insert_node-absent r key (sym (contains_node-right k h m l r key lt) ∙ e),
  )
]

-- Where none is needed, it makes no difference whether the allocation would fail.
insert_node-present :
    (t : Tree) (key : ℕ)
    → contains_node t key ≡ true
    → insert_node false t key ≡ insert_node true t key
insert_node-present null key e = absurd (true≢false (sym e ∙ unfold contains_node in refl))
insert_node-present (node k h m l r) key e = elim (lt_eq_gt key k) [
  | inl lt ↦ rw (
    insert_node-left false k h m l r key lt,
    insert_node-left true k h m l r key lt,
    insert_node-present l key (sym (contains_node-left k h m l r key lt) ∙ e),
  )
  | inr (inl f) ↦ unfold insert_node in ground arith
  | inr (inr lt) ↦ rw (
    insert_node-right false k h m l r key lt,
    insert_node-right true k h m l r key lt,
    insert_node-present r key (sym (contains_node-right k h m l r key lt) ∙ e),
  )
]

-- When allocations fail, `insert_node` on a balanced and ordered tree ends the program exactly where a new
-- node is needed: if the key is absent, it exits; if the key is in the tree, it returns what it returns when
-- allocations succeed, a balanced tree with the key at its place among the old entries.
pub insert_node-exit :
    (t : Tree) (key : ℕ)
    → IsAvl t
    → IsAscending (entries t)
    → (contains_node t key ≡ false) × (insert_node false t key ≡ fail exit_1)
      ⊎ (contains_node t key ≡ true)
        × (insert_node false t key ≡ insert_node true t key)
        × Returns (insert_node false t key) (Inserted key t)
insert_node-exit t key avl asc = elim (Bool-cases (contains_node t key)) [
  | inr absent ↦ inl (absent, insert_node-absent t key absent)
  | inl present ↦
      let same = insert_node-present t key present in
      inr (
        present,
        same,
        subst (λ m. Returns m (Inserted key t)) (sym same) (insert_node-Inserted t key avl asc),
      )
]
