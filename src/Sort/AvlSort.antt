-- ===== src/Sort/AvlSort.antt =====
-- `forkscan_util_avl_sort` of forkscan-changed/util.c.
use pp_final_project.Prelude.{
  ℕ, zero, suc, ◌+◌, ◌≤◌, ◌<◌, leb, ◌≡◌, refl, ap, ◌∙◌, Bool, true, false, List, [], ◌∷◌, ◌++◌,
  length, set, take, drop, blit, done, Returns, Returns-bind, arith, length-blit, blit-append,
  blit-zero, length-append, length-map, length-set, lt→ltb, length-take,
}
use pp_final_project.Avl.Defs.{
  Tree, null, node, inorder_traverse, avl_inorder, avl_build_from_array,
}
use pp_final_project.Avl.Entries.{entries, keys, Entry, insert_entry}
use pp_final_project.Avl.Build.{insert_all, avl_build-Holds}
use pp_final_project.Sort.Defs.{avl_sort, write_to_array}

keys-append : (xs ys : List Entry) → keys (xs ++ ys) ≡ keys xs ++ keys ys
keys-append [] ys = refl
keys-append (x ∷ xs) ys = ap (◌∷◌ x.0) (keys-append xs ys)

write_to_array-done :
    (k h : ℕ) (m : Bool) (l r : Tree) (a : List ℕ) (i : ℕ)
    → i < length a
    → write_to_array (node k h m l r) (a, i) ≡ done (set a i k, suc i)
unfolding write_to_array
write_to_array-done k h m l r a i room = rw (lt→ltb i (length a) room)

-- The traversal writes the keys of the tree in order, from the current index on.
inorder_traverse-blit :
    (t : Tree) (a : List ℕ) (i : ℕ)
    → i + length (keys (entries t)) ≤ length a
    → inorder_traverse t write_to_array (a, i)
      ≡ done (blit a i (keys (entries t)), i + length (keys (entries t)))
unfolding inorder_traverse blit
inorder_traverse-blit null a i room = ap (λ (j : ℕ). done (a, j)) (omega arith)
inorder_traverse-blit (node k h m l r) a i room =
    let ls = keys (entries l) in
    let rs = keys (entries r) in
    let e : keys (entries (node k h m l r)) ≡ ls ++ (k ∷ rs) =
      keys-append (entries l) ((k, m) ∷ entries r) in
    let n : length (ls ++ (k ∷ rs)) ≡ length ls + suc (length rs) = length-append ls (k ∷ rs) in
    let total : i + length (ls ++ (k ∷ rs)) ≤ length a = rw e at room in
    rw e (
      rw (inorder_traverse-blit l a i (omega arith)) (
        rw
          (write_to_array-done k h m l r (blit a i ls) (i + length ls)
            (omega (arith, length-blit a i ls)))
          (inorder_traverse-blit r (set (blit a i ls) (i + length ls) k) (suc (i + length ls))
              (omega (arith, length-set (blit a i ls) (i + length ls) k, length-blit a i ls))
            ∙ rw (blit-append a i ls (k ∷ rs), n)
                (ap
                  (λ (j : ℕ).
                    done (blit (set (blit a i ls) (i + length ls) k) (suc (i + length ls)) rs, j))
                  (omega arith)))))

-- The keys of a list in order, each once.
abbrev pub sorted_keys : List ℕ → List ℕ
sorted_keys ks = keys (insert_all ks [])

pub length-insert_entry : (key : ℕ) (xs : List Entry) → length (insert_entry key xs) ≤ length xs + 1
unfolding insert_entry
length-insert_entry key [] = omega arith
length-insert_entry key ((k, m) ∷ xs) = ground (arith, length-insert_entry key xs)

pub length-insert_all :
    (ks : List ℕ) (xs : List Entry) → length (insert_all ks xs) ≤ length xs + length ks
unfolding insert_all
length-insert_all [] xs = omega arith
length-insert_all (k ∷ ks) xs =
    omega (arith, length-insert_all ks (insert_entry k xs), length-insert_entry k xs)

pub length-sorted_keys : (ks : List ℕ) → length (sorted_keys ks) ≤ length ks
length-sorted_keys ks =
    omega (arith, length-map (λ (e : Entry). e.0) (insert_all ks []), length-insert_all ks [])

avl_sort_long :
    (mem : ℕ → Bool) (a : List ℕ) (len : ℕ)
    → 1 < len
    → ((j : ℕ) → mem j ≡ true)
    → len ≤ length a
    → Returns
        (avl_sort true mem a len)
        (λ r. r.0 ≡ sorted_keys (take len a) ++ drop (length (sorted_keys (take len a))) a)
unfolding avl_sort avl_inorder
avl_sort_long mem a len long ok room =
    let several : leb len 1 ≡ false = ground arith in
    let sorted : List ℕ = sorted_keys (take len a) in
    let short : length sorted ≤ length a =
      omega (arith, length-sorted_keys (take len a), length-take len a) in
    rw several (
      Returns-bind _ (avl_build_from_array true mem a len) _ (avl_build-Holds mem a len ok room)
        λ t h.
          let e : keys (entries t) ≡ sorted = ap keys h.1 in
          rw (inorder_traverse-blit t a 0 (rw e (omega arith))) (rw e (blit-zero a sorted short)))

-- If no allocation fails, `forkscan_util_avl_sort` returns. It puts the distinct keys of the first
-- `len` cells, in order, at the front of the array, and leaves every cell behind them as it was.
pub avl_sort_lem :
    (mem : ℕ → Bool) (a : List ℕ) (len : ℕ)
    → ((j : ℕ) → mem j ≡ true)
    → len ≤ length a
    → Returns
        (avl_sort true mem a len)
        (λ r. r.0 ≡ sorted_keys (take len a) ++ drop (length (sorted_keys (take len a))) a)
avl_sort_lem mem a zero ok room = unfold avl_sort insert_all in refl
avl_sort_lem mem [] (suc len) ok room = absurd (omega arith)
avl_sort_lem mem (x ∷ a) (suc zero) ok room = unfold avl_sort insert_all insert_entry in refl
avl_sort_lem mem (x ∷ a) (suc (suc len)) ok room =
    avl_sort_long mem (x ∷ a) (suc (suc len)) (omega arith) ok room
