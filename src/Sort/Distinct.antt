-- ===== src/Sort/Distinct.antt =====
-- When `forkscan_util_avl_sort` of forkscan-changed/util.c sorts, and what it does to duplicates.
use mathlib.Core.List.{Perm, perm_middle}
use mathlib.Core.List.Perm
use mathlib.Core.List
use native.Mathlib.Bridge.{from_ℕ}
use native.Mathlib.Decide.{ℕ_discrete}
use pp_final_project.Prelude.{
  ℕ, suc, ◌+◌, ◌-◌, ◌≤◌, ◌<◌, ◌≡◌, ◌≢◌, refl, sym, ap, ◌∙◌, Bool, true, false, List, [], ◌∷◌, ◌++◌,
  length, get_elem?, take, drop, All, Returns, Returns-imp, arith, length-map,
  get_elem?-append_right, get_elem?-drop_add, length-take, append-nil, lt_eq_gt, inl, inr,
}
use pp_final_project.Avl.Entries.{
  keys, Entry, IsAscending, AllAbove, insert_entry, insert_entry-IsAscending,
}
use pp_final_project.Avl.Lookup.{has, has-AllAbove}
use pp_final_project.Avl.Build.{insert_all}
use pp_final_project.Sort.Defs.{avl_sort}
use pp_final_project.Sort.AvlSort.{
  sorted_keys, length-insert_entry, length-insert_all, avl_sort_lem,
}

length-insert_entry-has :
    (key : ℕ) (xs : List Entry)
    → has key xs ≡ true
    → IsAscending xs
    → length (insert_entry key xs) ≡ length xs
unfolding has insert_entry
length-insert_entry-has key [] h asc = cc
length-insert_entry-has key ((k, m) ∷ xs) h asc =
    ground (arith, length-insert_entry-has key xs, has-AllAbove key xs, AllAbove-lt key k xs)
  where
    AllAbove-lt : (a b : ℕ) (ys : List Entry) → a < b → AllAbove b ys → AllAbove a ys
    AllAbove-lt a b [] lt above = tt
    AllAbove-lt a b (e ∷ ys) lt above = (omega arith, AllAbove-lt a b ys lt above.1)

has-insert_entry_self : (key : ℕ) (xs : List Entry) → has key (insert_entry key xs) ≡ true
unfolding has insert_entry
has-insert_entry_self key [] = ground arith
has-insert_entry_self key ((k, m) ∷ xs) = ground (arith, has-insert_entry_self key xs)

has-insert_entry : (j key : ℕ) (xs : List Entry) → j ≢ key → has j (insert_entry key xs) ≡ has j xs
unfolding has insert_entry
has-insert_entry j key [] n = ground arith
has-insert_entry j key ((k, m) ∷ xs) n = ground (arith, has-insert_entry j key xs n)

has-insert_entry_of_has :
    (j key : ℕ) (xs : List Entry) → has j xs ≡ true → has j (insert_entry key xs) ≡ true
has-insert_entry_of_has j key xs h = elim (ℕ_discrete j key) [
  | yes e ↦ rw e (has-insert_entry_self key xs)
  | no n ↦ has-insert_entry j key xs n ∙ h
]

-- A key that is there already, or that comes twice, makes the result shorter.
length-insert_all-has :
    (ks : List ℕ) (k : ℕ) (ks' : List ℕ) (xs : List Entry)
    → has k xs ≡ true
    → IsAscending xs
    → length (insert_all (ks ++ (k ∷ ks')) xs) < length xs + length (ks ++ (k ∷ ks'))
unfolding insert_all
length-insert_all-has [] k ks' xs h asc =
    omega (arith, length-insert_all ks' (insert_entry k xs), length-insert_entry-has k xs h asc)
length-insert_all-has (j ∷ ks) k ks' xs h asc = omega (
  arith,
  length-insert_all-has ks k ks' (insert_entry j xs) (has-insert_entry_of_has k j xs h)
      (insert_entry-IsAscending j xs asc),
  length-insert_entry j xs,
)

length-insert_all_twice :
    (ks : List ℕ) (k : ℕ) (ks' ks'' : List ℕ) (xs : List Entry)
    → IsAscending xs
    → length (insert_all (ks ++ (k ∷ (ks' ++ (k ∷ ks'')))) xs)
      < length xs + length (ks ++ (k ∷ (ks' ++ (k ∷ ks''))))
unfolding insert_all
length-insert_all_twice [] k ks' ks'' xs asc = omega (
  arith,
  length-insert_all-has ks' k ks'' (insert_entry k xs) (has-insert_entry_self k xs)
      (insert_entry-IsAscending k xs asc),
  length-insert_entry k xs,
)
length-insert_all_twice (j ∷ ks) k ks' ks'' xs asc = omega (
  arith,
  length-insert_all_twice ks k ks' ks'' (insert_entry j xs) (insert_entry-IsAscending j xs asc),
  length-insert_entry j xs,
)

-- If no allocation fails and some key stands twice in the first `len` cells, then the last of these
-- cells holds after `forkscan_util_avl_sort` what it held before, whatever its place in the order.
pub avl_sort_duplicate :
    (mem : ℕ → Bool) (a : List ℕ) (len k : ℕ) (xs ys zs : List ℕ)
    → ((j : ℕ) → mem j ≡ true)
    → len ≤ length a
    → take len a ≡ xs ++ (k ∷ (ys ++ (k ∷ zs)))
    → Returns (avl_sort true mem a len) (λ r. get_elem? r.0 (len - 1) ≡ get_elem? a (len - 1))
avl_sort_duplicate mem a len k xs ys zs ok room twice =
    Returns-imp (avl_sort true mem a len)
      (λ r e. rw e (
        get_elem?-append_right s (drop (length s) a) (len - 1) (omega (arith, fewer))
        ∙ get_elem?-drop_add a (length s) (len - 1 - length s)
        ∙ ap (get_elem? a) back))
      (avl_sort_lem mem a len ok room)
  where
    s : List ℕ
    s = sorted_keys (take len a)

    fewer : length s < len
    fewer =
        let size : length (take len a) ≡ len = omega (arith, length-take len a) in
        let strict = length-insert_all_twice xs k ys zs [] tt in
        omega (
          arith,
          size,
          rw (← twice) at strict,
          length-map (λ (e : Entry). e.0) (insert_all (take len a) []),
        )

    back : length s + (len - 1 - length s) ≡ len - 1
    back = omega (arith, fewer)

-- No value stands twice.
abbrev pub IsDistinct : List ℕ → Type 0
IsDistinct [] = Unit
IsDistinct (x ∷ xs) = All (λ y. x ≢ y) xs × IsDistinct xs

-- Each value is below all that follow.
abbrev pub IsIncreasing : List ℕ → Type 0
IsIncreasing [] = Unit
IsIncreasing (x ∷ xs) = All (λ y. x < y) xs × IsIncreasing xs

pub keys-IsIncreasing : (xs : List Entry) → IsAscending xs → IsIncreasing (keys xs)
keys-IsIncreasing [] asc = tt
keys-IsIncreasing (e ∷ xs) asc = (above e.0 xs asc.0, keys-IsIncreasing xs asc.1)
  where
    above : (b : ℕ) (ys : List Entry) → AllAbove b ys → All (λ y. b < y) (keys ys)
    above b [] h = tt
    above b (f ∷ ys) h = (h.0, above b ys h.1)

pub insert_all-IsAscending :
    (ks : List ℕ) (xs : List Entry) → IsAscending xs → IsAscending (insert_all ks xs)
unfolding insert_all
insert_all-IsAscending [] xs asc = asc
insert_all-IsAscending (k ∷ ks) xs asc =
    insert_all-IsAscending ks (insert_entry k xs) (insert_entry-IsAscending k xs asc)

insert_entry-perm :
    (key : ℕ) (xs : List Entry)
    → has key xs ≡ false
    → Perm (keys (insert_entry key xs)) (key ∷ keys xs)
insert_entry-perm key [] h = unfold insert_entry in Perm.refl _
insert_entry-perm key ((k, m) ∷ xs) h = elim (lt_eq_gt key k) [
  | inl lt ↦
      let first : insert_entry key ((k, m) ∷ xs) ≡ (key, false) ∷ (k, m) ∷ xs =
        unfold insert_entry in ground arith in
      rw first (Perm.refl _)
  | inr (inl e) ↦ absurd (no_hit e)
  | inr (inr lt) ↦
      let later : insert_entry key ((k, m) ∷ xs) ≡ (k, m) ∷ insert_entry key xs =
        unfold insert_entry in ground arith in
      let tail : has key xs ≡ false = unfold has in ground arith in
      rw later
        (Perm.trans (Perm.cons k (insert_entry-perm key xs tail)) (Perm.swap key k (keys xs)))
]
  where
    no_hit : key ≡ k → ⊥
    no_hit e = let hit : has key ((k, m) ∷ xs) ≡ true = unfold has in ground arith in cc

insert_all-perm :
    (ks : List ℕ) (xs : List Entry)
    → IsDistinct ks
    → All (λ k. has k xs ≡ false) ks
    → Perm (keys (insert_all ks xs)) (ks ++ keys xs)
unfolding insert_all
insert_all-perm [] xs d h = Perm.refl _
insert_all-perm (k ∷ ks) xs d h =
    Perm.trans (insert_all-perm ks (insert_entry k xs) d.1 (absent ks d.0 h.1)) (
      Perm.trans (Perm.append (Perm.refl ks) (insert_entry-perm k xs h.0))
        (perm_middle ks (keys xs)))
  where
    absent :
        (js : List ℕ)
        → All (λ y. k ≢ y) js
        → All (λ j. has j xs ≡ false) js
        → All (λ j. has j (insert_entry k xs) ≡ false) js
    absent [] n f = tt
    absent (j ∷ js) n f = (has-insert_entry j k xs (λ e. n.0 (sym e)) ∙ f.0, absent js n.1 f.1)

no_keys : (ks : List ℕ) → All (λ k. has k [] ≡ false) ks
unfolding has
no_keys [] = tt
no_keys (k ∷ ks) = (refl, no_keys ks)

-- A distinct list keeps its length, and loses nothing.
pub sorted_keys-perm : (ks : List ℕ) → IsDistinct ks → Perm (sorted_keys ks) ks
sorted_keys-perm ks d = rw (append-nil ks) at (insert_all-perm ks [] d (no_keys ks))

length-from_ℕ : (xs : List ℕ) → length xs ≡ from_ℕ (List.length xs)
length-from_ℕ [] = refl
length-from_ℕ (x ∷ xs) = ap suc (length-from_ℕ xs)

length-perm : {xs ys : List ℕ} → Perm xs ys → length xs ≡ length ys
length-perm {xs} {ys} p = length-from_ℕ xs ∙ ap from_ℕ (Perm.length-eq p) ∙ sym (length-from_ℕ ys)

-- If no allocation fails and the first `len` cells are distinct, `forkscan_util_avl_sort` sorts them:
-- they are then the same values in increasing order, and the cells behind them are as before.
pub avl_sort_distinct :
    (mem : ℕ → Bool) (a : List ℕ) (len : ℕ)
    → ((j : ℕ) → mem j ≡ true)
    → len ≤ length a
    → IsDistinct (take len a)
    → Returns
        (avl_sort true mem a len)
        (λ r. (s : List ℕ) × (r.0 ≡ s ++ drop len a) × IsIncreasing s × Perm s (take len a))
avl_sort_distinct mem a len ok room distinct =
    Returns-imp (avl_sort true mem a len)
      (λ r e. (
        sorted_keys (take len a),
        e ∙ ap (λ (n : ℕ). sorted_keys (take len a) ++ drop n a) size,
        keys-IsIncreasing _ (insert_all-IsAscending (take len a) [] tt),
        sorted_keys-perm (take len a) distinct,
      ))
      (avl_sort_lem mem a len ok room)
  where
    size : length (sorted_keys (take len a)) ≡ len
    size = length-perm (sorted_keys-perm (take len a) distinct) ∙ omega (arith, length-take len a)
