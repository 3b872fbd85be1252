-- ===== src/Ranges/Defs.antt =====
-- `collect_ranges`, `is_lib` and `add_stack_ranges` of forkscan-changed/child.c.
use pp_final_project.Prelude.{
  ℕ, zero, suc, ◌+◌, ◌-◌, Bool, true, false, ◌&&◌, ◌||◌, List, [], ◌∷◌, ◌++◌, length, get_or, ltb,
  leb, ◌==◌, Run, done, fail, fatal, out_of_bounds, out_of_fuel, ◌>>=◌,
}
use pp_final_project.Alloc.Defs.{Metadata, MemRange, metadata_break_range}

-- `MAX_MARK_AND_SWEEP_RANGES`
abbrev pub max_ranges : ℕ
max_ranges = 65536

-- `MAX_RANGE_SIZE`
abbrev pub max_range_size : ℕ
max_range_size = 8388608

-- `g_ranges` up to `g_n_ranges`, and `g_bytes_to_scan`.
pub record RangeTable : Type 0 where
  pub ranges : List MemRange
  pub bytes_to_scan : ℕ

-- `g_ranges[g_n_ranges++] = range`
unfoldable pub add_range : RangeTable → MemRange → Run RangeTable
add_range t range = elim (ltb (length t.ranges) max_ranges) [
  | true ↦ done (record t { ranges = t.ranges ++ range ∷ [] })
  | false ↦ fail out_of_bounds
]

-- The inner `while` of `collect_ranges`. The range shrinks in each round, so fuel above its length is
-- enough.
unfoldable pub split_loop : ℕ → MemRange → RangeTable → Run (MemRange × RangeTable)
split_loop zero next t = fail out_of_fuel
split_loop (suc fuel) next t = elim (ltb (next.low + max_range_size) next.high) [
  | false ↦ done (next, t)
  | true ↦ do
    t' ← add_range t (record next { high = next.low + max_range_size })
    split_loop fuel (record next { low = next.low + max_range_size }) t'
]

-- The branch of a subrange that is not empty.
unfoldable pub add_subrange : MemRange → RangeTable → Run RangeTable
add_subrange next t = do
  let counted = record t { bytes_to_scan = t.bytes_to_scan + (next.high - next.low) }
  (last, t') ← split_loop (suc (next.high - next.low)) next counted
  t'' ← add_range t' last
  elim (leb max_ranges (length t''.ranges)) [ true ↦ fail fatal | false ↦ done t'' ]

-- The outer `while`, where `blocks` is the list of the mapped blocks. A round takes an address at least
-- off the range, so fuel above its length is enough.
unfoldable pub subrange_loop : ℕ → List Metadata → MemRange → RangeTable → Run RangeTable
subrange_loop zero blocks big_range t = fail out_of_fuel
subrange_loop (suc fuel) blocks big_range t = elim (big_range.low == big_range.high) [
  | true ↦ done t
  | false ↦ do
    (next, rest) ← metadata_break_range blocks big_range
    elim (next.low == next.high) [
      | true ↦ subrange_loop fuel blocks rest t
      | false ↦ do t' ← add_subrange next t; subrange_loop fuel blocks rest t'
    ]
]

-- Strings are lists of character codes without the final 0.
abbrev pub slash : ℕ
slash = 47

abbrev pub dot : ℕ
dot = 46

abbrev pub dash : ℕ
dash = 45

-- `strncmp(library, path, strlen(library)) == 0`
unfoldable pub starts_with : List ℕ → List ℕ → Bool
starts_with [] path = true
starts_with (c ∷ library) [] = false
starts_with (c ∷ library) (d ∷ path) = (c == d) && starts_with library path

-- The inner `while` of `is_lib`: the path from its next slash on.
unfoldable pub next_slash : List ℕ → List ℕ
next_slash [] = []
next_slash (c ∷ path) = elim (c == slash) [ true ↦ c ∷ path | false ↦ next_slash path ]

-- The test of one position of the path.
unfoldable pub names_library : List ℕ → List ℕ → Bool
names_library library path =
    let after = get_or path (length library) 0 in
    starts_with library path && ((after == dot) || (after == dash))

-- The `while (1)` of `is_lib`: each round takes a character at least off the path, so fuel above its
-- length is enough.
unfoldable pub lib_loop : ℕ → List ℕ → List ℕ → Run Bool
lib_loop zero library path = fail out_of_fuel
lib_loop (suc fuel) library [] = done false
lib_loop (suc fuel) library (c ∷ path) = elim (names_library library path) [
  | true ↦ done true
  | false ↦ lib_loop fuel library (next_slash path)
]

unfoldable pub is_lib : List ℕ → List ℕ → Run Bool
is_lib library [] = done false
is_lib library (c ∷ path) = elim (c == slash) [
  | false ↦ done false
  | true ↦ lib_loop (suc (length path)) library path
]

abbrev pub libc : List ℕ
libc = 108 ∷ 105 ∷ 98 ∷ 99 ∷ []

abbrev pub libdl : List ℕ
libdl = 108 ∷ 105 ∷ 98 ∷ 100 ∷ 108 ∷ []

abbrev pub libforkscan : List ℕ
libforkscan = 108 ∷ 105 ∷ 98 ∷ 102 ∷ 111 ∷ 114 ∷ 107 ∷ 115 ∷ 99 ∷ 97 ∷ 110 ∷ []

-- `"[stack:"`
abbrev pub stack_name : List ℕ
stack_name = 91 ∷ 115 ∷ 116 ∷ 97 ∷ 99 ∷ 107 ∷ 58 ∷ []

-- A line of the map of the process's memory. `bits` are its four flags, as in `rw-p`.
pub record Region : Type 0 where
  pub low : ℕ
  pub high : ℕ
  pub bits : List ℕ
  pub path : List ℕ

-- The tests before those of the path; `lock` is the address `stderr->_lock`.
abbrev pub out_by_flags : ℕ → Region → Bool
out_by_flags lock r =
    (get_or r.bits 1 0 == dash)
    || (get_or r.bits 2 0 == 120)
    || (r.low == r.high)
    || (leb r.low lock && leb lock r.high)

-- The tests behind those of the libraries.
abbrev pub out_by_kind : Region → Bool
out_by_kind r = (get_or r.bits 3 0 == 115) || starts_with stack_name r.path

-- The three calls of `is_lib`, up to the first that succeeds.
unfoldable pub in_libraries : List (List ℕ) → List ℕ → Run Bool
in_libraries [] path = done false
in_libraries (library ∷ libraries) path = do
  found ← is_lib library path
  elim found [ true ↦ done true | false ↦ in_libraries libraries path ]

unfoldable pub collect_ranges : ℕ → List Metadata → Region → RangeTable → Run RangeTable
collect_ranges lock blocks r t = elim (out_by_flags lock r) [
  | true ↦ done t
  | false ↦ do
    library ← in_libraries (libc ∷ libdl ∷ libforkscan ∷ []) r.path
    elim (library || out_by_kind r) [
      | true ↦ done t
      | false ↦
          subrange_loop (suc (r.high - r.low)) blocks (record { low = r.low; high = r.high }) t
    ]
]

-- What `add_stack_ranges` reads of a `thread_data_t`.
pub record UserStack : Type 0 where
  pub stack_is_ours : Bool
  pub user_stack_low : ℕ
  pub user_stack_high : ℕ

unfoldable pub add_stack_ranges : List UserStack → RangeTable → Run RangeTable
add_stack_ranges [] t = done t
add_stack_ranges (td ∷ rest) t = elim td.stack_is_ours [
  | false ↦ add_stack_ranges rest t
  | true ↦ do
    t' ←
        add_range
          (record t { bytes_to_scan = t.bytes_to_scan + (td.user_stack_high - td.user_stack_low) })
          (record { low = td.user_stack_low; high = td.user_stack_high })
    add_stack_ranges rest t'
]
