-- ===== src/Alloc/Order.antt =====
-- The order of the block list of forkscan-changed/alloc.c.
use pp_final_project.Prelude.{
  ℕ, ◌≤◌, ◌<◌, ◌≡◌, ◌⊎◌, inl, inr, true, false, List, [], ◌∷◌, ◌++◌, ltb, leb, done, Returns,
  Returns-bind, ◌>>=◌, arith, Bool-cases, leb→le,
}
use pp_final_project.Alloc.Defs.{
  Metadata, low_addr, high_addr, last_node, insert_before, metadata_do_insert,
}

-- The address `x` lies in a block of the list.
abbrev pub Owned : List Metadata → ℕ → Type 0
Owned [] x = ⊥
Owned (m ∷ l) x = (low_addr m ≤ x) × (x < high_addr m) ⊎ Owned l x

-- The blocks are disjoint, not empty, and in ascending order, from the address `b` on.
abbrev pub Ordered : ℕ → List Metadata → Type 0
Ordered b [] = Unit
Ordered b (m ∷ l) = (b ≤ low_addr m) × (low_addr m < high_addr m) × Ordered (high_addr m) l

pub Ordered-le : (a b : ℕ) (l : List Metadata) → a ≤ b → Ordered b l → Ordered a l
Ordered-le a b [] h o = tt
Ordered-le a b (m ∷ l) h o = (omega (arith, o.0), o.1, o.2)

pub Owned-above : (b : ℕ) (l : List Metadata) (x : ℕ) → Ordered b l → Owned l x → b ≤ x
Owned-above b [] x o h = elim h [ ]
Owned-above b (m ∷ l) x o (inl h) = omega (arith, o.0, h.0)
Owned-above b (m ∷ l) x o (inr h) = omega (arith, o.0, o.1, Owned-above (high_addr m) l x o.2 h)

-- No block of the list has an address in common with the block.
abbrev pub Apart : Metadata → List Metadata → Type 0
Apart meta [] = Unit
Apart meta (m ∷ l) = ((high_addr m ≤ low_addr meta) ⊎ (high_addr meta ≤ low_addr m)) × Apart meta l

-- The lists that `metadata_do_insert` may make of `l`, as sets of addresses.
abbrev pub Adds : Metadata → List Metadata → List Metadata → Type 0
Adds meta l l' =
    (x : ℕ)
    → (Owned l' x → (low_addr meta ≤ x) × (x < high_addr meta) ⊎ Owned l x)
      × ((low_addr meta ≤ x) × (x < high_addr meta) ⊎ Owned l x → Owned l' x)

module _ (meta : Metadata) (block : low_addr meta < high_addr meta) where
  append-Ordered :
      (b : ℕ) (first : Metadata) (rest : List Metadata)
      → Ordered b (first ∷ rest)
      → high_addr (last_node first rest) ≤ low_addr meta
      → Ordered b (first ∷ (rest ++ meta ∷ []))
  append-Ordered b first [] o h = (o.0, o.1, (h, block, tt))
  append-Ordered b first (m ∷ rest) o h = (o.0, o.1, append-Ordered (high_addr first) m rest o.2 h)

  Adds-cons : (m : Metadata) (l l' : List Metadata) → Adds meta l l' → Adds meta (m ∷ l) (m ∷ l')
  Adds-cons m l l' adds x = (
    λ h. elim h [
      | inl a ↦ inr (inl a)
      | inr a ↦ elim ((adds x).0 a) [ inl c ↦ inl c | inr c ↦ inr (inr c) ]
    ],
    λ h. elim h [
      | inl a ↦ inr ((adds x).1 (inl a))
      | inr a ↦ elim a [ inl c ↦ inl c | inr c ↦ inr ((adds x).1 (inr c)) ]
    ],
  )

  append-Adds : (l : List Metadata) → Adds meta l (l ++ meta ∷ [])
  append-Adds [] x = (λ h. h, λ h. h)
  append-Adds (m ∷ l) x = Adds-cons m l (l ++ meta ∷ []) (append-Adds l) x

  pub insert_before-here :
      (curr : Metadata) (rest : List Metadata)
      → ltb (low_addr curr) (high_addr meta) ≡ false
      → insert_before meta (curr ∷ rest) ≡ done (meta ∷ curr ∷ rest)
  unfolding insert_before
  insert_before-here curr rest e = rw (e, insert_before)

  pub insert_before-next :
      (curr : Metadata) (rest : List Metadata)
      → ltb (low_addr curr) (high_addr meta) ≡ true
      → insert_before meta (curr ∷ rest)
        ≡ (insert_before meta rest >>= λ rest'. done (curr ∷ rest'))
  unfolding insert_before
  insert_before-next curr rest e = rw (e, insert_before)

  abbrev Inserted : ℕ → List Metadata → Type 0
  Inserted b l = Returns (insert_before meta l) (λ l'. Ordered b l' × Adds meta l l')

  first_here :
      (b : ℕ) (first : Metadata) (rest : List Metadata)
      → b ≤ low_addr meta
      → Ordered b (first ∷ rest)
      → Apart meta (first ∷ rest)
      → ltb (low_addr first) (high_addr meta) ≡ false
      → Inserted b (first ∷ rest)
  first_here b first rest p o a here =
      rw (insert_before-here first rest here, Returns)
        ((p, block, (ground (arith, a.0), o.1, o.2)), λ x. (λ h. h, λ h. h))

  insert_before-Ordered :
      (b : ℕ) (first : Metadata) (rest : List Metadata)
      → b ≤ low_addr meta
      → Ordered b (first ∷ rest)
      → Apart meta (first ∷ rest)
      → low_addr meta < high_addr (last_node first rest)
      → Inserted b (first ∷ rest)
  insert_before-Ordered b first [] p o a q =
      elim (Bool-cases (ltb (low_addr first) (high_addr meta))) [
        | inr here ↦ first_here b first [] p o a here
        | inl next ↦ absurd (ground (arith, a.0))
      ]
  insert_before-Ordered b first (m ∷ rest) p o a q =
      elim (Bool-cases (ltb (low_addr first) (high_addr meta))) [
        | inr here ↦ first_here b first (m ∷ rest) p o a here
        | inl next ↦
            let after : high_addr first ≤ low_addr meta = ground (arith, a.0) in
            rw (insert_before-next first (m ∷ rest) next) (
              Returns-bind _ (insert_before meta (m ∷ rest)) _
                (insert_before-Ordered (high_addr first) m rest after o.2 a.1 q)
                (λ l' r. ((o.0, o.1, r.0), Adds-cons first (m ∷ rest) l' r.1)))
      ]

  -- A non-empty block apart from the others, not below `b`, is put in its place: `metadata_do_insert`
  -- returns, the list keeps its order, and holds the addresses of the block besides those it held.
  pub metadata_do_insert-Ordered :
      (b : ℕ) (l : List Metadata)
      → b ≤ low_addr meta
      → Ordered b l
      → Apart meta l
      → Returns (metadata_do_insert meta l) (λ l'. Ordered b l' × Adds meta l l')
  unfolding metadata_do_insert
  metadata_do_insert-Ordered b [] p o a = ((p, block, tt), append-Adds [])
  metadata_do_insert-Ordered b (first ∷ rest) p o a =
      elim (Bool-cases (leb (high_addr (last_node first rest)) (low_addr meta))) [
        | inl after ↦
            rw (after, Returns)
              (append-Ordered b first rest o (leb→le _ _ after), append-Adds (first ∷ rest))
        | inr before ↦
            rw (before, Returns) (insert_before-Ordered b first rest p o a (ground arith))
      ]
