-- ===== src/Buffer/Retire.antt =====
-- The queue of retiree buffers of forkscan-changed/buffer.c: its operations work on the list of its
-- buffers.
use mathlib.Core.Path.{subst}
use native.Mathlib.Decide.{ℕ_discrete}
use pp_final_project.Prelude.{
  ℕ, zero, suc, ◌≤◌, ◌≡◌, ◌≢◌, ◌⊎◌, inl, inr, refl, sym, ap, ◌∙◌, true, false, List, [], ◌∷◌, ◌++◌,
  length, ◌==◌, Option, none, some, done, Returns, ◌>>=◌, arith,
}
use pp_final_project.Buffer.Defs.{AddrBuffer}
use pp_final_project.Buffer.Lists.{
  Store, put, store, push_back, link_last, find_retiree, pop_retiree_buffer, pop_found, splice,
  get_retiree_buffer, share_first, increment,
}
use pp_final_project.Buffer.Chain.{
  load_at, IsChain, NotIn, last?, Retirees, put_self, put_other, some_inj, IsChain-put,
  IsChain-put_next, IsChain-snoc, Distinct-snoc, last?-snoc, last?-NotIn, Retirees-few,
}

-- The buffers of a list are there.
chain_at :
    (f : ℕ → Option AddrBuffer) (p : Option ℕ) (x : ℕ) (xs : List ℕ)
    → IsChain f p (x ∷ xs)
    → (l : ℕ) × (b : AddrBuffer) × (last? (x ∷ xs) ≡ some l) × (f l ≡ some b)
chain_at f p x [] (e, b, at, rest) = (x, b, refl, at)
chain_at f p x (y ∷ xs) (e, b, at, rest) = chain_at f b.next y xs rest

unused-put :
    (s : Store) (i : ℕ) (b b' : AddrBuffer)
    → s.bufs i ≡ some b
    → ((j : ℕ) → s.fresh ≤ j → s.bufs j ≡ none)
    → (j : ℕ) → s.fresh ≤ j
    → put s.bufs i (some b') j ≡ none
unused-put s i b b' at un j h = elim (ℕ_discrete i j) [
  | yes e ↦ absurd (some_none (sym at ∙ ap s.bufs e ∙ un j h))
  | no ne ↦ put_other s.bufs i j (some b') ne ∙ un j h
]
  where
    some_none : {b : AddrBuffer} → some b ≡ none → ⊥
    some_none {b} e = cc

-- What `push_back` leaves of the buffer `b`.
abbrev pub pushed : AddrBuffer → AddrBuffer
pushed b = record b { ref_count = 1; free_idx = 0; next = none }

module _ (s : Store) (i : ℕ) (b : AddrBuffer) (at : s.bufs i ≡ some b) where
  abbrev s1 : Store
  s1 = store s i (pushed b)

  push_step : push_back i s ≡ link_last i s.last_retiree s1
  unfolding push_back
  push_step = rw (load_at s i b at) refl

  abbrev Pushed : List ℕ → Store → Type 0
  Pushed xs s' = Retirees s' (xs ++ i ∷ []) × (s'.bufs i ≡ some (pushed b))

  push_empty : Retirees s [] → Returns (push_back i s) (Pushed [])
  unfolding link_last
  push_empty r = rw push_step (
      rw r.last (
        record {
          chain = (refl, pushed b, put_self s.bufs i (some (pushed b)), refl);
          last = refl;
          distinct = (tt, tt);
          unused = unused-put s i b (pushed b) at r.unused;
        },
        put_self s.bufs i (some (pushed b)),
      ))

  push_more :
      (x : ℕ) (xs : List ℕ)
      → NotIn i (x ∷ xs)
      → Retirees s (x ∷ xs)
      → Returns (push_back i s) (Pushed (x ∷ xs))
  unfolding link_last
  push_more x xs out r =
      let c1 : IsChain s1.bufs s.first_retiree (x ∷ xs) =
        IsChain-put s.bufs i (some (pushed b)) s.first_retiree (x ∷ xs) out r.chain in
      let (l, lb, e, atl) = chain_at s1.bufs s.first_retiree x xs c1 in
      let self : s1.bufs i ≡ some (pushed b) = put_self s.bufs i (some (pushed b)) in
      let other : l ≢ i = λ q. last?-NotIn i l x xs out e (sym q) in
      rw push_step (
        rw (r.last ∙ e) (
          rw (load_at s1 l lb atl) (
            record {
              chain =
                  IsChain-snoc s1.bufs i l lb (pushed b) s.first_retiree x xs out r.distinct e atl
                    self refl c1;
              last = sym (last?-snoc i (x ∷ xs));
              distinct = Distinct-snoc i (x ∷ xs) out r.distinct;
              unused = unused-put s1 l lb _ atl (unused-put s i b (pushed b) at r.unused);
            },
            put_other s1.bufs l i _ other ∙ self,
          )))

-- A buffer that is not in the queue is put at its end, with one reference and nothing freed of it. The
-- queue is otherwise as before.
pub push_back-Retirees :
    (s : Store) (xs : List ℕ) (i : ℕ) (b : AddrBuffer)
    → Retirees s xs
    → s.bufs i ≡ some b
    → NotIn i xs
    → Returns (push_back i s) (λ s'.
      Retirees s' (xs ++ i ∷ [])
      × (s'.bufs i ≡ some (record b { ref_count = 1; free_idx = 0; next = none })))
push_back-Retirees s [] i b r at out = push_empty s i b at r
push_back-Retirees s (x ∷ xs) i b r at out = push_more s i b at x xs out r

-- The last buffer passed before the list `as` ends.
passed : Option ℕ → List ℕ → Option ℕ
passed prev [] = prev
passed prev (x ∷ xs) = passed (some x) xs

find_absent :
    (fuel i : ℕ) (s : Store) (prev p : Option ℕ) (xs : List ℕ)
    → NotIn i xs
    → length xs ≤ fuel
    → IsChain s.bufs p xs
    → find_retiree fuel i s prev p ≡ done (passed prev xs, none)
unfolding find_retiree passed
find_absent fuel i s prev p [] out few c = rw c refl
find_absent zero i s prev p (x ∷ xs) out few c = absurd (omega arith)
find_absent (suc fuel) i s prev p (x ∷ xs) out few (e, b, at, rest) =
    let differs : (i == x) ≡ false = let n = out.0 in ground arith in
    rw e (
      rw (load_at s x b at)
        (rw differs (find_absent fuel i s (some x) b.next xs out.1 (omega arith) rest)))

-- The last pointer, where the first buffer is taken out.
last_after :
    (f : ℕ → Option AddrBuffer) (i : ℕ) (l q : Option ℕ) (xs : List ℕ)
    → IsChain f q xs
    → l ≡ last? (i ∷ xs)
    → elim q [ none ↦ none | some j ↦ l ] ≡ last? xs
last_after f i l q [] c e = rw c refl
last_after f i l q (x ∷ xs) c e = rw (c.0) e

pop_first :
    (s : Store) (i : ℕ) (xs : List ℕ)
    → Retirees s (i ∷ xs)
    → Returns (pop_retiree_buffer i s) (λ s'. Retirees s' xs × (s'.bufs ≡ s.bufs))
unfolding pop_retiree_buffer pop_found splice find_retiree
pop_first s i xs r =
    let (e, b, at, rest) = r.chain in
    let same : (i == i) ≡ true = ground arith in
    rw e (
      rw (load_at s i b at) (
        rw same (
          rw (load_at s i b at) (
            record {
              chain = rest;
              last = last_after s.bufs i s.last_retiree b.next xs rest r.last;
              distinct = r.distinct.1;
              unused = r.unused;
            },
            refl,
          ))))

-- A buffer that is not in the queue any more.
pop_absent :
    (s : Store) (i : ℕ) (xs : List ℕ) → Retirees s xs → NotIn i xs → pop_retiree_buffer i s ≡ done s
unfolding pop_retiree_buffer pop_found
pop_absent s i xs r out =
    rw
      (find_absent (suc s.fresh) i s none s.first_retiree xs out
        (omega (arith, Retirees-few s xs r)) r.chain)
      refl

-- A thread that is done with a buffer takes it out of the queue, where the buffer is the first of the
-- queue, or another thread has taken it out before: afterwards the queue is without it, and has the
-- others in their order.
pub pop_retiree_buffer-Retirees :
    (s : Store) (i : ℕ) (xs : List ℕ)
    → Retirees s (i ∷ xs) ⊎ Retirees s xs × NotIn i xs
    → Returns (pop_retiree_buffer i s) (λ s'. Retirees s' xs × (s'.bufs ≡ s.bufs))
pop_retiree_buffer-Retirees s i xs (inl r) = pop_first s i xs r
pop_retiree_buffer-Retirees s i xs (inr (r, out)) = rw (pop_absent s i xs r out) (r, refl)

abbrev pub head? : List ℕ → Option ℕ
head? [] = none
head? (x ∷ xs) = some x

get_empty : (s : Store) → s.first_retiree ≡ none → get_retiree_buffer s ≡ done (s, none)
unfolding get_retiree_buffer share_first
get_empty s e = ap (share_first s) e

-- One reference more.
abbrev pub shared : AddrBuffer → AddrBuffer
shared b = record b { ref_count = increment b.ref_count }

get_first :
    (s : Store) (x : ℕ) (b : AddrBuffer)
    → s.first_retiree ≡ some x
    → s.bufs x ≡ some b
    → get_retiree_buffer s ≡ done (store s x (shared b), some x)
unfolding get_retiree_buffer share_first
get_first s x b e at =
    ap (share_first s) e
    ∙ ap (λ m. m >>= λ ab. done (store s x (shared ab), some x)) (load_at s x b at)

-- The first buffer of the queue is handed out, with one reference more, or none if the queue is empty;
-- the queue stays as it is.
pub get_retiree_buffer-Retirees :
    (s : Store) (xs : List ℕ)
    → Retirees s xs
    → Returns (get_retiree_buffer s) (λ r.
      Retirees r.0 xs
      × (r.1 ≡ head? xs)
      × ((i : ℕ) (b : AddrBuffer)
          → r.1 ≡ some i
          → s.bufs i ≡ some b
          → r.0.bufs i ≡ some (record b { ref_count = increment b.ref_count })))
get_retiree_buffer-Retirees s [] r =
    rw (get_empty s r.chain) (r, refl, λ i b e at. absurd (none_some e))
  where
    none_some : {i : ℕ} → none ≡ some i → ⊥
    none_some {i} e = cc
get_retiree_buffer-Retirees s (x ∷ xs) r =
    let (e, b, at, rest) = r.chain in
    rw (get_first s x b e at) (
      record {
        chain = IsChain-put_next s.bufs x b (shared b) s.first_retiree (x ∷ xs) at refl r.chain;
        last = r.last;
        distinct = r.distinct;
        unused = unused-put s x b (shared b) at r.unused;
      },
      refl,
      λ i b' f at'.
          let same : x ≡ i = some_inj f in
          let same_b : b ≡ b' = some_inj (sym at ∙ ap s.bufs same ∙ at') in
          subst (λ j. put s.bufs x (some (shared b)) j ≡ some (shared b')) same
            (put_self s.bufs x (some (shared b)) ∙ ap (λ z. some (shared z)) same_b),
    )
