-- ===== src/Avl/Build.antt =====
-- `avl_build_from_array` and the traversals of forkscan-changed/avl.c.
use pp_final_project.Prelude.{
  ℕ, zero, suc, ◌+◌, ◌≤◌, ◌≡◌, refl, Bool, true, List, [], ◌∷◌, length, take, drop, Returns,
  Returns-bind, arith, get_elem?-drop,
}
use pp_final_project.Avl.Defs.{Tree, null, build_loop, avl_build_from_array, avl_create, avl_insert}
use pp_final_project.Avl.Entries.{
  entries, Entry, IsAscending, insert_entry, insert_entry-IsAscending,
}
use pp_final_project.Avl.Balance.{IsAvl}
use pp_final_project.Avl.Insert.{insert_node-Inserted, Inserted}

-- The keys of a list put into a list of entries one after the other.
unfoldable pub insert_all : List ℕ → List Entry → List Entry
insert_all [] xs = xs
insert_all (k ∷ ks) xs = insert_all ks (insert_entry k xs)

-- A balanced and ordered tree with these entries.
abbrev pub Holds : List Entry → Tree → Type 0
Holds xs t = IsAvl t × (entries t ≡ xs) × IsAscending (entries t)

build_loop-Holds :
    (mem : ℕ → Bool) (ks : List ℕ) (n i : ℕ) (t : Tree)
    → ((j : ℕ) → mem j ≡ true)
    → i + n ≤ length ks
    → IsAvl t
    → IsAscending (entries t)
    → Returns (build_loop mem ks n i t) (Holds (insert_all (take n (drop i ks)) (entries t)))
unfolding build_loop insert_all
build_loop-Holds mem ks zero i t ok room avl asc = (avl, refl, asc)
build_loop-Holds mem ks (suc n) i t ok room avl asc =
    let (key, at, rest) = get_elem?-drop ks i (omega arith) in
    let inserted : Returns (avl_insert true t key) (Inserted key t) =
      unfold avl_insert in insert_node-Inserted t key avl asc in
    rw (at, rest, ok i)
      (Returns-bind _ (avl_insert true t key) _ inserted λ p h.
        let asc' : IsAscending (entries p.0) =
          rw h.1 (insert_entry-IsAscending key (entries t) asc) in
        rw h.1 at (build_loop-Holds mem ks n (suc i) p.0 ok (omega arith) h.0 asc'))

-- If no allocation fails, `avl_build_from_array` returns a balanced tree that holds the keys of the
-- first `n` cells, in order and once each.
pub avl_build-Holds :
    (mem : ℕ → Bool) (ks : List ℕ) (n : ℕ)
    → ((j : ℕ) → mem j ≡ true)
    → n ≤ length ks
    → Returns (avl_build_from_array true mem ks n) (Holds (insert_all (take n ks) []))
unfolding avl_build_from_array avl_create
avl_build-Holds mem ks n ok room = build_loop-Holds mem ks n 0 null ok (omega arith) tt tt
