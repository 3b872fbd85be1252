-- ===== src/Avl/Entries.antt =====
-- A tree as the list of its entries, keys with their marks, in order; and the list version of an
-- insertion. The rotations of forkscan-changed/avl.c keep the entries.
use pp_final_project.Prelude.{
  ℕ, ◌<◌, ◌≡◌, Bool, true, false, List, [], ◌∷◌, ◌++◌, map, arith, ltb, All,
}
use pp_final_project.Avl.Defs.{Tree, null, node}

abbrev pub Entry : Type 0
Entry = ℕ × Bool

abbrev pub entries : Tree → List Entry
entries null = []
entries (node k h m l r) = entries l ++ ((k, m) ∷ entries r)

abbrev pub keys : List Entry → List ℕ
keys = map (λ e. e.0)

-- Every key is below `b`, or above it.
abbrev pub AllBelow : ℕ → List Entry → Type 0
AllBelow b xs = All (λ (e : Entry). e.0 < b) xs

abbrev pub AllAbove : ℕ → List Entry → Type 0
AllAbove b xs = All (λ (e : Entry). b < e.0) xs

-- Strictly ascending keys.
abbrev pub IsAscending : List Entry → Type 0
IsAscending [] = Unit
IsAscending (e ∷ xs) = AllAbove e.0 xs × IsAscending xs

-- A key put at its place; a key that is there keeps its mark.
unfoldable pub insert_entry : ℕ → List Entry → List Entry
insert_entry key [] = (key, false) ∷ []
insert_entry key ((k, m) ∷ xs) = elim (ltb key k) [
  | true ↦ (key, false) ∷ (k, m) ∷ xs
  | false ↦ elim (ltb k key) [ true ↦ (k, m) ∷ insert_entry key xs | false ↦ (k, m) ∷ xs ]
]

pub insert_entry-append_left :
    (key : ℕ) (xs : List Entry) (k : ℕ) (m : Bool) (ys : List Entry)
    → key < k
    → insert_entry key (xs ++ ((k, m) ∷ ys)) ≡ insert_entry key xs ++ ((k, m) ∷ ys)
unfolding insert_entry
insert_entry-append_left key [] k m ys h = ground arith
insert_entry-append_left key ((j, n) ∷ xs) k m ys h =
    ground (arith, insert_entry-append_left key xs k m ys h)

pub insert_entry-append_right :
    (key : ℕ) (xs : List Entry) (k : ℕ) (m : Bool) (ys : List Entry)
    → AllBelow key xs
    → k < key
    → insert_entry key (xs ++ ((k, m) ∷ ys)) ≡ xs ++ ((k, m) ∷ insert_entry key ys)
unfolding insert_entry
insert_entry-append_right key [] k m ys b h = ground arith
insert_entry-append_right key ((j, n) ∷ xs) k m ys b h =
    ground (arith, insert_entry-append_right key xs k m ys b.1 h)

pub insert_entry-append_self :
    (xs : List Entry) (k : ℕ) (m : Bool) (ys : List Entry)
    → AllBelow k xs
    → insert_entry k (xs ++ ((k, m) ∷ ys)) ≡ xs ++ ((k, m) ∷ ys)
unfolding insert_entry
insert_entry-append_self [] k m ys b = ground arith
insert_entry-append_self ((j, n) ∷ xs) k m ys b =
    ground (arith, insert_entry-append_self xs k m ys b.1)

-- An ascending list splits at a key into what lies below it and what lies above it.
pub IsAscending-split :
    (xs : List Entry) (k : ℕ) (m : Bool) (ys : List Entry)
    → IsAscending (xs ++ ((k, m) ∷ ys))
    → AllBelow k xs × AllAbove k ys × IsAscending xs × IsAscending ys
IsAscending-split [] k m ys h = (tt, h.0, tt, h.1)
IsAscending-split ((j, n) ∷ xs) k m ys h =
    let (below, above, asc_left, asc_right) = IsAscending-split xs k m ys h.1 in
    let (left, at, right) = All-split (λ (e : Entry). j < e.0) xs (k, m) ys h.0 in
    ((at, below), above, (left, asc_left), asc_right)
  where
    All-split :
        (P : Entry → Type 0) (xs : List Entry) (e : Entry) (ys : List Entry)
        → All P (xs ++ (e ∷ ys))
        → All P xs × P e × All P ys
    All-split P [] e ys h = (tt, h.0, h.1)
    All-split P (x ∷ xs) e ys h = let (a, b, c) = All-split P xs e ys h.1 in ((h.0, a), b, c)

All-insert_entry :
    (P : ℕ → Type 0) (key : ℕ) (xs : List Entry)
    → P key
    → All (λ (e : Entry). P e.0) xs
    → All (λ (e : Entry). P e.0) (insert_entry key xs)
unfolding insert_entry
All-insert_entry P key [] p h = (p, tt)
All-insert_entry P key ((k, m) ∷ xs) p h = ground (arith, All-insert_entry P key xs p h.1)

pub AllAbove-trans : (a b : ℕ) (xs : List Entry) → a < b → AllAbove b xs → AllAbove a xs
AllAbove-trans a b [] h above = tt
AllAbove-trans a b (e ∷ xs) h above = (omega arith, AllAbove-trans a b xs h above.1)

pub AllBelow-trans : (a b : ℕ) (xs : List Entry) → a < b → AllBelow a xs → AllBelow b xs
AllBelow-trans a b [] h below = tt
AllBelow-trans a b (e ∷ xs) h below = (omega arith, AllBelow-trans a b xs h below.1)

-- An insertion keeps an ascending list ascending.
pub insert_entry-IsAscending :
    (key : ℕ) (xs : List Entry) → IsAscending xs → IsAscending (insert_entry key xs)
unfolding insert_entry
insert_entry-IsAscending key [] h = (tt, tt)
insert_entry-IsAscending key ((k, m) ∷ xs) h = ground (
  arith,
  insert_entry-IsAscending key xs h.1,
  All-insert_entry (λ j. k < j) key xs,
  AllAbove-trans key k xs,
)
