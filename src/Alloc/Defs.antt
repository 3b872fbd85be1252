-- ===== src/Alloc/Defs.antt =====
-- The blocks that the library has mapped, forkscan-changed/alloc.c and alloc.h. The circular list is
-- the list of its nodes from `alloc_list` on; the node behind the last is the first again.
use pp_final_project.Prelude.{
  ℕ, ◌+◌, min, true, false, ◌&&◌, List, [], ◌∷◌, ◌++◌, ltb, leb, Run, done, fail, assertion,
  out_of_fuel, ◌>>=◌,
}

-- `memory_metadata_t`; `reason` is never read and has no field.
pub record Metadata : Type 0 where
  pub addr : ℕ
  pub length : ℕ

-- `mem_range_t`
pub record MemRange : Type 0 where
  pub low : ℕ
  pub high : ℕ

abbrev pub low_addr : Metadata → ℕ
low_addr m = m.addr

abbrev pub high_addr : Metadata → ℕ
high_addr m = low_addr m + m.length

-- `alloc_list->prev`
abbrev pub last_node : Metadata → List Metadata → Metadata
last_node m [] = m
last_node m (n ∷ l) = last_node n l

-- The `while` of `metadata_do_insert` and the insertion before the node it ends at. Past the last
-- node the C loop starts again at the first and never ends, which is told by `out_of_fuel`.
unfoldable pub insert_before : Metadata → List Metadata → Run (List Metadata)
insert_before meta [] = fail out_of_fuel
insert_before meta (curr ∷ rest) = elim (ltb (low_addr curr) (high_addr meta)) [
  | false ↦ done (meta ∷ curr ∷ rest)
  | true ↦ do rest' ← insert_before meta rest; done (curr ∷ rest')
]

unfoldable pub metadata_do_insert : Metadata → List Metadata → Run (List Metadata)
metadata_do_insert meta [] = done (meta ∷ [])
metadata_do_insert meta (first ∷ rest) =
    elim (leb (high_addr (last_node first rest)) (low_addr meta)) [
      | true ↦ done (first ∷ (rest ++ meta ∷ []))
      | false ↦ insert_before meta (first ∷ rest)
    ]

-- The first `while` of `metadata_break_range`: the nodes from `curr` on, none if `curr` came back to
-- `alloc_list`.
unfoldable pub advance : ℕ → List Metadata → List Metadata
advance low [] = []
advance low (curr ∷ rest) = elim (leb (high_addr curr) low) [
  | true ↦ advance low rest
  | false ↦ curr ∷ rest
]

-- The second `while`, with the nodes from `curr` on as before.
unfoldable pub advance_low : MemRange → List Metadata → MemRange × List Metadata
advance_low ret [] = (ret, [])
advance_low ret (curr ∷ rest) = elim (leb (low_addr curr) ret.low) [
  | false ↦ (ret, curr ∷ rest)
  | true ↦ elim (leb ret.low (high_addr curr)) [
    | true ↦ advance_low (record ret { low = min (high_addr curr) ret.high }) rest
    | false ↦ advance_low ret rest
  ]
]

-- `curr`, where `first` is `*alloc_list`.
abbrev pub current : Metadata → List Metadata → Metadata
current first [] = first
current first (m ∷ rest) = m

-- The nodes from `curr` to the last of the list.
abbrev pub nodes_from : Metadata → List Metadata → List Metadata → List Metadata
nodes_from first tail [] = first ∷ tail
nodes_from first tail (m ∷ l) = m ∷ l

-- The end of the range, if the node `curr` lies behind its beginning.
unfoldable pub cut_high : MemRange → Metadata → MemRange
cut_high ret curr = elim (ltb ret.low (low_addr curr)) [
  | true ↦ record ret { high = min (low_addr curr) ret.high }
  | false ↦ ret
]

-- `metadata_break_range` from the test of `curr` on, where `nodes` are those from `curr` on: the
-- subrange, and the range that remains.
unfoldable pub break_at : Metadata → List Metadata → MemRange → List Metadata → MemRange × MemRange
break_at first tail big_range nodes =
    let curr = current first nodes in
    elim (ltb big_range.low (high_addr curr) && ltb (low_addr curr) big_range.high) [
      | true ↦
          let (ret, nodes') = advance_low big_range (nodes_from first tail nodes) in
          let ret' = cut_high ret (current first nodes') in
          (ret', record big_range { low = ret'.high })
      | false ↦ (big_range, record big_range { low = big_range.high })
    ]

unfoldable pub metadata_break_range : List Metadata → MemRange → Run (MemRange × MemRange)
metadata_break_range [] big_range = fail assertion
metadata_break_range (first ∷ tail) big_range =
    done (break_at first tail big_range (advance big_range.low (first ∷ tail)))
