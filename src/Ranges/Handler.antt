-- ===== src/Ranges/Handler.antt =====
-- `collect_ranges` of forkscan-changed/child.c as a whole, and the search of `is_lib`.
use pp_final_project.Prelude.{
  ℕ, zero, suc, ◌-◌, ◌≤◌, ◌<◌, ◌≡◌, ◌⊎◌, inl, inr, Bool, true, false, ◌&&◌, ◌||◌, List, [], ◌∷◌,
  length, ◌==◌, Run, done, refl, ap, ◌∙◌, Bool-cases, arith,
}
use pp_final_project.Alloc.Defs.{Metadata}
use pp_final_project.Ranges.Defs.{
  RangeTable, subrange_loop, slash, next_slash, names_library, lib_loop, is_lib, Region, libc,
  libdl, libforkscan, out_by_flags, out_by_kind,
}

-- Some slash of the path stands before the name of the library and a dot or a dash.
unfoldable pub after_slash : List ℕ → List ℕ → Bool
after_slash library [] = false
after_slash library (c ∷ path) =
    ((c == slash) && names_library library path) || after_slash library path

next_slash-here :
    (c : ℕ) (path : List ℕ) → (c == slash) ≡ true → next_slash (c ∷ path) ≡ slash ∷ path
unfolding next_slash
next_slash-here c path e =
    let same : c ≡ slash = ground arith in rw (e, next_slash) (ap (λ d. d ∷ path) same)

next_slash-next :
    (c : ℕ) (path : List ℕ) → (c == slash) ≡ false → next_slash (c ∷ path) ≡ next_slash path
unfolding next_slash
next_slash-next c path e = rw (e, next_slash)

after_slash-here :
    (library : List ℕ) (c : ℕ) (path : List ℕ)
    → (c == slash) ≡ true
    → after_slash library (c ∷ path) ≡ (names_library library path || after_slash library path)
unfolding after_slash
after_slash-here library c path e = rw (e, after_slash)

after_slash-next :
    (library : List ℕ) (c : ℕ) (path : List ℕ)
    → (c == slash) ≡ false
    → after_slash library (c ∷ path) ≡ after_slash library path
unfolding after_slash
after_slash-next library c path e = rw (e, after_slash)

-- Where `next_slash` stops, and what `after_slash` finds from there on.
record Stops (library path stop : List ℕ) : Type 0 where
  shorter : length stop ≤ length path
  finds :
      ((stop ≡ []) × (after_slash library path ≡ false))
      ⊎ (rest : List ℕ) × (stop ≡ slash ∷ rest)
        × (after_slash library path ≡ (names_library library rest || after_slash library rest))

next_slash-Stops : (library path : List ℕ) → Stops library path (next_slash path)
next_slash-Stops library [] =
    unfold next_slash after_slash in record { shorter = omega arith; finds = inl (refl, refl) }
next_slash-Stops library (c ∷ path) = elim (Bool-cases (c == slash)) [
  | inl e ↦ rw (next_slash-here c path e) (record {
    shorter = omega arith;
    finds = inr (path, refl, after_slash-here library c path e);
  })
  | inr e ↦
      let rec = next_slash-Stops library path in
      rw (next_slash-next c path e) (record {
        shorter = omega (arith, rec.shorter);
        finds = rw (after_slash-next library c path e) rec.finds;
      })
]

lib_loop-here :
    (fuel : ℕ) (library : List ℕ) (c : ℕ) (path : List ℕ)
    → names_library library path ≡ true
    → lib_loop (suc fuel) library (c ∷ path) ≡ done true
unfolding lib_loop
lib_loop-here fuel library c path e = rw (e, lib_loop)

lib_loop-next :
    (fuel : ℕ) (library : List ℕ) (c : ℕ) (path : List ℕ)
    → names_library library path ≡ false
    → lib_loop (suc fuel) library (c ∷ path) ≡ lib_loop fuel library (next_slash path)
unfolding lib_loop
lib_loop-next fuel library c path e = rw (e, lib_loop)

lib_loop-nil : (fuel : ℕ) (library : List ℕ) → 0 < fuel → lib_loop fuel library [] ≡ done false
unfolding lib_loop
lib_loop-nil zero library h = absurd (omega arith)
lib_loop-nil (suc fuel) library h = refl

lib_loop_lem :
    (fuel : ℕ) (library : List ℕ) (c : ℕ) (path : List ℕ)
    → suc (length path) < fuel
    → lib_loop fuel library (c ∷ path)
      ≡ done (names_library library path || after_slash library path)
lib_loop_lem zero library c path h = absurd (omega arith)
lib_loop_lem (suc fuel) library c path h = elim (Bool-cases (names_library library path)) [
  | inl here ↦ lib_loop-here fuel library c path here ∙ rw here refl
  | inr next ↦
      let s = next_slash-Stops library path in
      lib_loop-next fuel library c path next
      ∙ rw next (elim s.finds [
        | inl (nothing, e) ↦ rw (nothing, e) (lib_loop-nil fuel library (omega arith))
        | inr (rest, at, e) ↦
            rw (at, e)
              (lib_loop_lem fuel library slash rest (omega (arith, s.shorter, ap length at)))
      ])
]

-- The path lies in the library: the name of the library and a dot or a dash stand at the second
-- character of its first component, or at the beginning of a later one.
unfoldable pub in_library : List ℕ → List ℕ → Bool
in_library library (c ∷ d ∷ path) =
    (c == slash) && (names_library library path || after_slash library path)
in_library library _ = false

-- `is_lib` ends on every path, and answers whether the name of the library and a dot or a dash stand
-- at the second character of the first component of an absolute path, or at the beginning of a later
-- component.
pub is_lib_lem : (library path : List ℕ) → is_lib library path ≡ done (in_library library path)
unfolding is_lib in_library lib_loop
is_lib_lem library [] = refl
is_lib_lem library (c ∷ []) = elim (Bool-cases (c == slash)) [
  | inl e ↦ rw (e, is_lib)
  | inr e ↦ rw (e, is_lib)
]
is_lib_lem library (c ∷ d ∷ path) = elim (Bool-cases (c == slash)) [
  | inl e ↦ rw (e, is_lib) (lib_loop_lem (suc (length (d ∷ path))) library d path (omega arith))
  | inr e ↦ rw (e, is_lib)
]

-- The path lies in one of the libraries.
abbrev pub in_any : List (List ℕ) → List ℕ → Bool
in_any [] path = false
in_any (library ∷ libraries) path = in_library library path || in_any libraries path

abbrev pub out_by_path : Region → Bool
out_by_path r = in_any (libc ∷ libdl ∷ libforkscan ∷ []) r.path || out_by_kind r

-- The regions that are not scanned.
abbrev pub is_left_out : ℕ → Region → Bool
is_left_out lock r = out_by_flags lock r || out_by_path r

module _ (lock : ℕ) (blocks : List Metadata) (r : Region) (t : RangeTable) where
  abbrev last_test : Bool → Run RangeTable
  last_test b = elim b [
    | true ↦ done t
    | false ↦ subrange_loop (suc (r.high - r.low)) blocks (record { low = r.low; high = r.high }) t
  ]
