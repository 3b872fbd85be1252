-- ===== src/Lookup/Compacted.antt =====
-- The lookaside list after `forkscan_util_avl_sort` and `forkscan_util_compact` of forkscan-changed/util.c:
-- its values in order, and behind them some of them again.
use mathlib.Core.Path.{subst}
use pp_final_project.Prelude.{
  ℕ, ◌≤◌, ◌<◌, ◌≡◌, ◌≢◌, ◌⊎◌, inl, inr, refl, ap, false, List, [], ◌∷◌, ◌++◌, length, ◌==◌, arith,
  All, Bool-cases,
}
use pp_final_project.Avl.Entries.{Entry, keys, insert_entry}
use pp_final_project.Avl.Build.{insert_all}
use pp_final_project.Sort.AvlSort.{sorted_keys}
use pp_final_project.Sort.Compact.{dedup, dedup_from, length-dedup_from}
use pp_final_project.Sort.Distinct.{IsIncreasing}
use pp_final_project.Lookup.Loop.{Listed, NoRuns}

-- Sorting keeps the values.
Listed-insert_entry :
    (v key : ℕ) (xs : List Entry)
    → (key ≡ v) ⊎ Listed v (keys xs)
    → Listed v (keys (insert_entry key xs))
unfolding insert_entry
Listed-insert_entry v key [] h = h
Listed-insert_entry v key ((k, m) ∷ xs) h = ground (arith, Listed-insert_entry v key xs)

insert_entry-Listed :
    (v key : ℕ) (xs : List Entry)
    → Listed v (keys (insert_entry key xs))
    → (key ≡ v) ⊎ Listed v (keys xs)
unfolding insert_entry
insert_entry-Listed v key [] h = h
insert_entry-Listed v key ((k, m) ∷ xs) h = ground (arith, insert_entry-Listed v key xs)

Listed-insert_all :
    (v : ℕ) (ks : List ℕ) (xs : List Entry)
    → Listed v ks ⊎ Listed v (keys xs)
    → Listed v (keys (insert_all ks xs))
unfolding insert_all
Listed-insert_all v [] xs (inr h) = h
Listed-insert_all v [] xs (inl h) = elim h [ ]
Listed-insert_all v (k ∷ ks) xs (inl (inl e)) =
    Listed-insert_all v ks (insert_entry k xs) (inr (Listed-insert_entry v k xs (inl e)))
Listed-insert_all v (k ∷ ks) xs (inl (inr h)) = Listed-insert_all v ks (insert_entry k xs) (inl h)
Listed-insert_all v (k ∷ ks) xs (inr h) =
    Listed-insert_all v ks (insert_entry k xs) (inr (Listed-insert_entry v k xs (inr h)))

insert_all-Listed :
    (v : ℕ) (ks : List ℕ) (xs : List Entry)
    → Listed v (keys (insert_all ks xs))
    → Listed v ks ⊎ Listed v (keys xs)
unfolding insert_all
insert_all-Listed v [] xs h = inr h
insert_all-Listed v (k ∷ ks) xs h = elim (insert_all-Listed v ks (insert_entry k xs) h) [
  | inl g ↦ inl (inr g)
  | inr g ↦ elim (insert_entry-Listed v k xs g) [ inl e ↦ inl (inl e) | inr e ↦ inr e ]
]

pub Listed-sorted_keys : (v : ℕ) (ks : List ℕ) → Listed v ks → Listed v (sorted_keys ks)
Listed-sorted_keys v ks h = Listed-insert_all v ks [] (inl h)

pub sorted_keys-Listed : (v : ℕ) (ks : List ℕ) → Listed v (sorted_keys ks) → Listed v ks
sorted_keys-Listed v ks h = elim (insert_all-Listed v ks [] h) [ inl g ↦ g | inr g ↦ elim g [ ] ]

pub All-Listed : {P : ℕ → Type 0} (xs : List ℕ) → ((v : ℕ) → Listed v xs → P v) → All P xs
All-Listed [] f = tt
All-Listed (x ∷ xs) f = (f x (inl refl), All-Listed xs (λ v h. f v (inr h)))

pub Listed-All : (P : ℕ → Type 0) (xs : List ℕ) → All P xs → (v : ℕ) → Listed v xs → P v
Listed-All P (x ∷ xs) a v (inl e) = subst P e a.0
Listed-All P (x ∷ xs) a v (inr h) = Listed-All P xs a.1 v h
Listed-All P [] a v h = elim h [ ]

-- The cut of runs.
NoRuns-dedup_from : (last : ℕ) (xs : List ℕ) → NoRuns last (dedup_from last xs)
unfolding dedup_from
NoRuns-dedup_from last [] = tt
NoRuns-dedup_from last (x ∷ xs) = ground (arith, NoRuns-dedup_from last xs, NoRuns-dedup_from x xs)

All-dedup_from : (P : ℕ → Type 0) (last : ℕ) (xs : List ℕ) → All P xs → All P (dedup_from last xs)
unfolding dedup_from
All-dedup_from P last [] a = tt
All-dedup_from P last (x ∷ xs) a = elim (Bool-cases (x == last)) [
  | inl same ↦ rw (same, dedup_from) (All-dedup_from P last xs a.1)
  | inr differs ↦ rw (differs, dedup_from) (a.0, All-dedup_from P x xs a.1)
]

last_of : ℕ → List ℕ → ℕ
last_of v [] = v
last_of v (x ∷ xs) = last_of x xs

dedup_from-IsIncreasing :
    (last : ℕ) (s rest : List ℕ)
    → All (λ y. last < y) s
    → IsIncreasing s
    → dedup_from last (s ++ rest) ≡ s ++ dedup_from (last_of last s) rest
unfolding dedup_from last_of
dedup_from-IsIncreasing last [] rest a inc = refl
dedup_from-IsIncreasing last (x ∷ s) rest a inc =
    let differs : (x == last) ≡ false = let lt = a.0 in ground arith in
    rw (differs, dedup_from) (ap (◌∷◌ x) (dedup_from-IsIncreasing x s rest inc.0 inc.1))

pub length-dedup : (xs : List ℕ) → length (dedup xs) ≤ length xs
unfolding dedup
length-dedup [] = omega arith
length-dedup (x ∷ xs) = omega (arith, length-dedup_from x xs)

-- What the list becomes: an increasing part, and values of it.
pub record Cut (s kept : List ℕ) : Type 0 where
  pub again : List ℕ
  pub parts : kept ≡ s ++ again
  pub repeats : All (λ z. Listed z s) again
  pub no_runs : (last : ℕ) → ((v : ℕ) → Listed v s → last ≢ v) → NoRuns last kept

pub dedup-Cut :
    (s rest : List ℕ) → IsIncreasing s → All (λ z. Listed z s) rest → Cut s (dedup (s ++ rest))
unfolding dedup
dedup-Cut [] [] inc a = record { again = []; parts = refl; repeats = tt; no_runs = λ last h. tt }
dedup-Cut [] (x ∷ rest) inc a = elim (a.0) [ ]
dedup-Cut (x ∷ s) rest inc a = record {
  again = dedup_from (last_of x s) rest;
  parts = ap (◌∷◌ x) (dedup_from-IsIncreasing x s rest inc.0 inc.1);
  repeats = All-dedup_from _ (last_of x s) rest a;
  no_runs = λ last h. (h x (inl refl), NoRuns-dedup_from x (s ++ rest));
}
