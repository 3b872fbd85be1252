-- ===== src/Lookup/Whole.antt =====
-- `lookup_lookaside_list` of forkscan-changed/child.c.
use mathlib.Core.Path.{subst}
use pp_final_project.Prelude.{
  ℕ, suc, ◌+◌, ◌-◌, ◌≤◌, ◌<◌, ◌≡◌, ◌⊎◌, inl, inr, refl, sym, ap, ◌∙◌, true, Bool, List, [], ◌∷◌,
  ◌++◌, length, done, Returns, Returns-imp, Returns-bind, ◌>>=◌, arith, take, drop, All,
  All-append_right, take-append-take, length-take, length-drop, length-append,
}
use pp_final_project.Buffer.Defs.{AddrBuffer}
use pp_final_project.Scan.Defs.{TraceStats}
use pp_final_project.Scan.Binary.{◌!◌}
use pp_final_project.Scan.Find.{Tracked}
use pp_final_project.Scan.Trace.{Spans}
use pp_final_project.Sort.Defs.{avl_sort, compact}
use pp_final_project.Sort.AvlSort.{sorted_keys, length-sorted_keys, avl_sort_lem}
use pp_final_project.Sort.Compact.{dedup, compact_lem}
use pp_final_project.Sort.Distinct.{keys-IsIncreasing, insert_all-IsAscending}
use pp_final_project.Lookup.Defs.{lookup_loop, lookup_lookaside_list}
use pp_final_project.Lookup.Marked.{MarkedBy-imp}
use pp_final_project.Lookup.Loop.{Listed, NoRuns, Fits, LookedUp, NamedBy, lookup_loop-LookedUp}
use pp_final_project.Lookup.Compacted.{
  Listed-sorted_keys, sorted_keys-Listed, All-Listed, Listed-All, Cut, dedup-Cut, length-dedup,
}

take-all_append : (xs ys : List ℕ) (n : ℕ) → take (length xs + n) (xs ++ ys) ≡ xs ++ take n ys
take-all_append [] ys n = ap (λ k. take k ys) (omega arith)
take-all_append (x ∷ xs) ys n =
    let e : suc (length xs) + n ≡ suc (length xs + n) = omega arith in
    rw e (ap (◌∷◌ x) (take-all_append xs ys n))

module _ (mem : ℕ → ℕ) (usable_size : ℕ → ℕ) (ts : TraceStats) (base : ℕ) where
  -- Lists of the same values.
  LookedUp-same :
      (xs ys : List ℕ) (a b : AddrBuffer)
      → ((v : ℕ) → Listed v xs → Listed v ys)
      → ((v : ℕ) → Listed v ys → Listed v xs)
      → LookedUp mem usable_size ts base xs a b
      → LookedUp mem usable_size ts base ys a b
  LookedUp-same xs ys a b to from l = (
    MarkedBy-imp (NamedBy mem usable_size ts base xs) (NamedBy mem usable_size ts base ys)
        (λ v h. (h.0, to h.0 h.1, h.2)) l.0,
    λ x h.
        let (gone, scanned) = l.1 x (from x h) in
        (
          gone,
          λ j p e. elim (scanned j p e) [ inl s ↦ inl s | inr s ↦ inr (s.0, to s.0 s.1, s.2) ],
        ),
  )

  module _ (orig list : List ℕ) (count : ℕ) (ab : AddrBuffer) (room : count ≤ length list)
      (t : Tracked ab orig) (spans : Spans mem usable_size ts ab orig)
      (fits : All (Fits orig ab.n_addrs) (take count list)) (some_low : 0 < orig ! 0) where
    abbrev ks : List ℕ
    ks = take count list

    abbrev s : List ℕ
    s = sorted_keys ks

    abbrev sorted_array : List ℕ
    sorted_array = s ++ drop (length s) list

    abbrev rest : List ℕ
    rest = take (count - length s) (drop (length s) list)

    short : length s ≤ count
    short = omega (arith, length-sorted_keys ks, length-take count list)

    rest-Listed : All (λ z. Listed z s) rest
    rest-Listed =
        All-append_right (λ z. Listed z s) (take (length s) list) rest
          (subst (All (λ z. Listed z s))
            (ap (λ k. take k list) {x = count} {y = length s + (count - length s)}
                (omega (arith, short))
              ∙ sym (take-append-take (length s) (count - length s) list))
            (All-Listed ks (λ v h. Listed-sorted_keys v ks h)))

    first_part : take count sorted_array ≡ s ++ rest
    first_part =
        ap (λ k. take k sorted_array) {x = count} {y = length s + (count - length s)}
          (omega (arith, short))
        ∙ take-all_append s (drop (length s) list) (count - length s)

    cut : Cut s (dedup (take count sorted_array))
    cut =
        subst (λ l. Cut s (dedup l)) (sym first_part)
          (dedup-Cut s rest (keys-IsIncreasing _ (insert_all-IsAscending ks [] tt)) rest-Listed)

    loop-LookedUp :
        (kept tail : List ℕ)
        → Cut s kept
        → Returns
            (lookup_loop mem usable_size ts base (kept ++ tail) (length kept) 0 0 0 ab)
            (LookedUp mem usable_size ts base ks ab)
    loop-LookedUp kept tail c =
        subst
          (λ k.
            Returns (lookup_loop mem usable_size ts base (k ++ tail) (length k) 0 0 0 ab)
              (LookedUp mem usable_size ts base ks ab))
          (sym c.parts)
          (Returns-imp
            (lookup_loop mem usable_size ts base ((s ++ c.again) ++ tail) (length (s ++ c.again)) 0
              0 0 ab)
            (λ ab' l.
              LookedUp-same (s ++ c.again) ks ab ab'
                (λ v h. sorted_keys-Listed v ks (in_sorted s c.again c.repeats v h))
                (λ v h. in_left s c.again v (Listed-sorted_keys v ks h)) l)
            (lookup_loop-LookedUp mem usable_size ts base orig ab.n_addrs spans
              ((s ++ c.again) ++ tail) s c.again 0 0 0 ab tail
              (record {
                tracked = t;
                size = refl;
                hint = t.some_addr;
                at = refl;
                no_runs = subst (NoRuns 0) c.parts (
                    c.no_runs 0 (λ v h e.
                      let f =
                        Listed-All (Fits orig ab.n_addrs) ks fits v (sorted_keys-Listed v ks h) in
                      omega (arith, f)));
                fits = All-Listed (s ++ c.again) (λ v h.
                    Listed-All (Fits orig ab.n_addrs) ks fits v
                      (sorted_keys-Listed v ks (in_sorted s c.again c.repeats v h)));
              })
              (keys-IsIncreasing _ (insert_all-IsAscending ks [] tt))
              (All-Listed s (λ v h j p. absurd (omega arith)))
              (All-Listed c.again
                (λ z h. inr (Listed-All (λ z. Listed z s) c.again c.repeats z h)))))
      where
        in_left : (xs ys : List ℕ) (v : ℕ) → Listed v xs → Listed v (xs ++ ys)
        in_left [] ys v h = elim h [ ]
        in_left (x ∷ xs) ys v (inl e) = inl e
        in_left (x ∷ xs) ys v (inr h) = inr (in_left xs ys v h)

        split : (xs ys : List ℕ) (v : ℕ) → Listed v (xs ++ ys) → Listed v xs ⊎ Listed v ys
        split [] ys v h = inr h
        split (x ∷ xs) ys v (inl e) = inl (inl e)
        split (x ∷ xs) ys v (inr h) = elim (split xs ys v h) [ inl a ↦ inl (inr a) | inr b ↦ inr b ]

        in_sorted :
            (xs ys : List ℕ)
            → All (λ z. Listed z xs) ys
            → (v : ℕ) → Listed v (xs ++ ys)
            → Listed v xs
        in_sorted xs ys a v h = elim (split xs ys v h) [
          | inl p ↦ p
          | inr q ↦ Listed-All (λ z. Listed z xs) ys a v q
        ]

  -- The buffer is tracked, its addresses lie in the range of the trace and the first is not 0. The values
  -- in the lookaside list are aligned and lie between the first and the last address; they may stand there
  -- more than once. If no allocation fails, `lookup_lookaside_list` returns, with an empty lookaside list.
  -- It puts marks on addresses of the list and on addresses that their blocks refer to, and on no others.
  -- Each tracked address of the list has a mark afterwards; if it had none before, then its block was
  -- scanned, so that all tracked addresses to which the block refers have their marks, or the block of
  -- an address of the list refers to it.
  pub lookup_lookaside_list-LookedUp :
      (orig : List ℕ) (alloc : ℕ → Bool) (list : List ℕ) (count : ℕ) (ab : AddrBuffer)
      → ((j : ℕ) → alloc j ≡ true)
      → count ≤ length list
      → Tracked ab orig
      → Spans mem usable_size ts ab orig
      → 0 < orig ! 0
      → All (Fits orig ab.n_addrs) (take count list)
      → Returns
          (lookup_lookaside_list mem usable_size ts base alloc list count ab)
          (λ r. (r.1 ≡ 0) × LookedUp mem usable_size ts base (take count list) ab r.2)
  unfolding lookup_lookaside_list
  lookup_lookaside_list-LookedUp orig alloc list count ab ok room t spans some_low fits =
      Returns-bind _ (avl_sort true alloc list count) _ (avl_sort_lem alloc list count ok room)
        (λ r e. after (r.0) e)
    where
      kept : List ℕ
      kept = dedup (take count (sorted_array orig list count ab room t spans fits some_low))

      left : count - (count - length kept) ≡ length kept
      left = omega (
        arith,
        length-dedup (take count (sorted_array orig list count ab room t spans fits some_low)),
        length-take count (sorted_array orig list count ab room t spans fits some_low),
      )

      enough : count ≤ length (sorted_array orig list count ab room t spans fits some_low)
      enough = omega (
        arith,
        length-append (sorted_keys (take count list))
            (drop (length (sorted_keys (take count list))) list),
        length-drop (length (sorted_keys (take count list))) list,
      )

      after :
          (a : List ℕ)
          → a ≡ sorted_array orig list count ab room t spans fits some_low
          → Returns {A = List ℕ × ℕ × AddrBuffer}
              (compact a count >>= λ p.
                lookup_loop mem usable_size ts base p.0 (count - p.1) 0 0 0 ab >>= λ ab'.
                done (p.0, 0, ab'))
              (λ r. (r.1 ≡ 0) × LookedUp mem usable_size ts base (take count list) ab r.2)
      after a e =
          rw
            (
              e,
              compact_lem (sorted_array orig list count ab room t spans fits some_low) count enough,
              left,
            )
            (Returns-bind _ (lookup_loop mem usable_size ts base _ (length kept) 0 0 0 ab) _
              (loop-LookedUp orig list count ab room t spans fits some_low kept _
                (cut orig list count ab room t spans fits some_low))
              (λ ab' l. (refl, l)))
