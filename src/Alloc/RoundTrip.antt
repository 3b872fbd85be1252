-- ===== src/Alloc/RoundTrip.antt =====
-- Memory that forkscan-changed/alloc.c maps and then unmaps leaves no trace.
use mathlib.Core.Path.{subst}
use pp_final_project.Prelude.{
  ℕ, suc, ◌%◌, ◌<◌, ◌≡◌, refl, sym, ap, ◌∙◌, inl, inr, Bool, true, false, List, [], ◌∷◌, ◌++◌, ltb,
  leb, ◌==◌, Option, some, Run, done, fail, out_of_fuel, ◌>>=◌, Returns, Returns-imp, Bool-cases,
  arith, append-nil,
}
use pp_final_project.Alloc.Defs.{
  Metadata, low_addr, high_addr, last_node, insert_before, metadata_do_insert,
}
use pp_final_project.Alloc.Order.{
  Ordered, Apart, metadata_do_insert-Ordered, insert_before-here, insert_before-next,
}
use pp_final_project.Alloc.Map.{
  chained, Heap, metadata_insert, find_node, relinked, remove_from, metadata_remove, mapped_at,
  mmap_wrap, take_node, metadata_new, metadata_free, alloc_mmap, unmapped, alloc_munmap,
}

-- `meta` stands somewhere in the list, and the others are `l`.
record Among (meta : Metadata) (l l' : List Metadata) : Type 0 where
  before : List Metadata
  after : List Metadata
  others : l ≡ before ++ after
  whole : l' ≡ before ++ meta ∷ after

Among-cons :
    (meta m : Metadata) (l l' : List Metadata) → Among meta l l' → Among meta (m ∷ l) (m ∷ l')
Among-cons meta m l l' a = record {
  before = m ∷ a.before;
  after = a.after;
  others = ap (◌∷◌ m) a.others;
  whole = ap (◌∷◌ m) a.whole;
}

-- If the call ends normally, its value satisfies `P`.
abbrev IfDone : {A : Type 0} → Run A → (A → Type 0) → Type 0
IfDone (done a) P = P a
IfDone (fail e) P = Unit

IfDone-bind :
    {A B : Type 0} {P : A → Type 0} (Q : B → Type 0) (m : Run A) (f : A → B)
    → IfDone m P
    → ((a : A) → P a → Q (f a))
    → IfDone (m >>= λ a. done (f a)) Q
IfDone-bind Q (done a) f h g = g a h
IfDone-bind Q (fail e) f h g = tt

Returns-both :
    {A : Type 0} (P Q : A → Type 0) (m : Run A)
    → Returns m P
    → IfDone m Q
    → Returns m (λ a. P a × Q a)
Returns-both P Q (done a) p q = (p, q)
Returns-both P Q (fail e) p q = p

module _ (meta : Metadata) (block : low_addr meta < high_addr meta) where
  Among-step :
      (curr : Metadata) (rest : List Metadata)
      → IfDone (insert_before meta rest) (Among meta rest)
      → IfDone (insert_before meta (curr ∷ rest)) (Among meta (curr ∷ rest))
  Among-step curr rest h = elim (Bool-cases (ltb (low_addr curr) (high_addr meta))) [
    | inr here ↦
        subst (λ m. IfDone m (Among meta (curr ∷ rest)))
          (sym (insert_before-here meta block curr rest here))
          (record { before = []; after = curr ∷ rest; others = refl; whole = refl })
    | inl next ↦
        subst (λ m. IfDone m (Among meta (curr ∷ rest)))
          (sym (insert_before-next meta block curr rest next))
          (IfDone-bind (Among meta (curr ∷ rest)) (insert_before meta rest) (λ rest'. curr ∷ rest')
            h (λ l' a. Among-cons meta curr rest l' a))
  ]

  -- The place that the search ends at, if it ends.
  insert_before-Among : (l : List Metadata) → IfDone (insert_before meta l) (Among meta l)
  unfolding insert_before
  insert_before-Among [] = tt
  insert_before-Among (curr ∷ rest) = Among-step curr rest (insert_before-Among rest)

  do_insert-Among : (l : List Metadata) → IfDone (metadata_do_insert meta l) (Among meta l)
  unfolding metadata_do_insert
  do_insert-Among [] = record { before = []; after = []; others = refl; whole = refl }
  do_insert-Among (first ∷ rest) =
      elim (Bool-cases (leb (high_addr (last_node first rest)) (low_addr meta))) [
        | inl after ↦
            rw (after, IfDone)
              (record {
                before = first ∷ rest;
                after = [];
                others = ap (◌∷◌ first) (sym (append-nil rest));
                whole = refl;
              })
        | inr before ↦ rw (before, IfDone) (insert_before-Among (first ∷ rest))
      ]

  -- The list without the block is the list as it was.
  find_inserted :
      (b : ℕ) (xs ys : List Metadata)
      → Apart meta (xs ++ ys)
      → Ordered b (xs ++ ys)
      → find_node meta.addr (xs ++ meta ∷ ys) ≡ done (xs ++ ys, meta)
  unfolding find_node
  find_inserted b [] ys a o =
      let same : (meta.addr == meta.addr) ≡ true = ground arith in rw (same, find_node) refl
  find_inserted b (x ∷ xs) ys a o =
      let differs : (x.addr == meta.addr) ≡ false = ground (arith, a.0, o.1) in
      rw (differs, find_node) (rw (find_inserted (high_addr x) xs ys a.1 o.2) refl)

bind_done :
    {A B C : Type 0} (m : Run A) (f : A → B) (g : B → C)
    → ((m >>= λ a. done (f a)) >>= λ b. done (g b)) ≡ (m >>= λ a. done (g (f a)))
bind_done (done a) f g = refl
bind_done (fail e) f g = refl

fail_done : {A : Type 0} {a : A} → fail out_of_fuel ≡ done a → ⊥
fail_done {A} {a} e = cc

remove_found :
    (p : ℕ) (zs rest : List Metadata) (meta : Metadata)
    → find_node p zs ≡ done (rest, meta)
    → remove_from p (chained zs) ≡ done (relinked rest, meta)
unfolding find_node remove_from
remove_found p [] rest meta e = absurd (fail_done e)
remove_found p (z ∷ zs) rest meta e = ap (λ r. r >>= λ found. done (relinked found.0, found.1)) e

module _ (mmap : ℕ → Option ℕ) (munmap : ℕ → ℕ → Bool) (size p k c : ℕ) (m : Metadata)
    (l : List Metadata) where
  -- A state with blocks and with a free node, and the state with the new block.
  abbrev heap : Heap
  heap = record { alloc_list = chained (m ∷ l); free_nodes = suc k; calls = c }

  abbrev new_block : Metadata
  new_block = record { addr = p; length = size }

  abbrev mapped_heap : List Metadata → Heap
  mapped_heap l' = record { alloc_list = chained l'; free_nodes = k; calls = suc c }

  mmap_step :
      mmap c ≡ some p
      → (p == 0) ≡ false
      → (size % 4096 == 0) ≡ true
      → alloc_mmap mmap munmap size heap
        ≡ (metadata_do_insert new_block (m ∷ l) >>= λ l'. done (mapped_heap l', p))
  unfolding alloc_mmap metadata_new take_node mmap_wrap mapped_at metadata_insert
  mmap_step given pos pages = rw pages (
      rw given
        (rw pos (bind_done (metadata_do_insert new_block (m ∷ l)) mapped_heap (λ h'. (h', p)))))

  unmapped_step :
      (h : Heap)
      → munmap p size ≡ true
      → unmapped mmap munmap (h, new_block) ≡ done (record h { free_nodes = suc h.free_nodes })
  unfolding unmapped metadata_free
  unmapped_step h ok = rw (ok, unmapped) refl

  munmap_step :
      (xs ys : List Metadata)
      → (p == 0) ≡ false
      → munmap p size ≡ true
      → m ∷ l ≡ xs ++ ys
      → find_node p (xs ++ new_block ∷ ys) ≡ done (xs ++ ys, new_block)
      → alloc_munmap mmap munmap p (mapped_heap (xs ++ new_block ∷ ys))
        ≡ done (record heap { calls = suc c })
  unfolding alloc_munmap metadata_remove
  munmap_step xs ys pos ok whole found = rw pos (
      rw (remove_found p (xs ++ new_block ∷ ys) (xs ++ ys) new_block found) (
        unmapped_step (record { alloc_list = relinked (xs ++ ys); free_nodes = k; calls = suc c })
          ok
        ∙ ap (λ r. done (record { alloc_list = relinked r; free_nodes = suc k; calls = suc c }))
            (sym whole)))

  -- The library has blocks, in order, and a free node. It maps a block of whole pages, not empty, which
  -- the system places apart from the others, and unmaps it again, which the system allows: both calls
  -- return, and the list of blocks and the free nodes are what they were.
  pub alloc_mmap-alloc_munmap :
      mmap c ≡ some p
      → 0 < p
      → 0 < size
      → size % 4096 ≡ 0
      → Ordered 0 (m ∷ l)
      → Apart new_block (m ∷ l)
      → munmap p size ≡ true
      → (alloc_mmap mmap munmap size heap >>= λ r. alloc_munmap mmap munmap r.1 r.0)
        ≡ done (record heap { calls = suc c })
  alloc_mmap-alloc_munmap given pos some_size pages order apart ok =
      ap (λ r. r >>= λ x. alloc_munmap mmap munmap x.1 x.0)
        (mmap_step given (ground arith) (ground arith))
      ∙ back (metadata_do_insert new_block (m ∷ l)) (
          Returns-both (λ l'. Unit {0}) (Among new_block (m ∷ l))
            (metadata_do_insert new_block (m ∷ l))
            (Returns-imp (metadata_do_insert new_block (m ∷ l)) (λ l' h. tt)
              (metadata_do_insert-Ordered new_block (omega arith) 0 (m ∷ l) (omega arith) order
                apart))
            (do_insert-Among new_block (omega arith) (m ∷ l)))
    where
      made : List Metadata → Run (Heap × ℕ)
      made l' = done (mapped_heap l', p)

      again : Heap × ℕ → Run Heap
      again x = alloc_munmap mmap munmap x.1 x.0

      back :
          (r : Run (List Metadata))
          → Returns r (λ l'. Unit {0} × Among new_block (m ∷ l) l')
          → ((r >>= made) >>= again) ≡ done (record heap { calls = suc c })
      back (done l') (u, a) =
          ap (λ z. alloc_munmap mmap munmap p (mapped_heap z)) a.whole
          ∙ munmap_step a.before a.after (ground arith) ok a.others (
              find_inserted new_block (omega arith) 0 a.before a.after
                (subst (Apart new_block) a.others apart) (subst (Ordered 0) a.others order))
      back (fail e) r = absurd r
