-- ===== src/Scan/Defs.antt =====
-- The searches and the marking of forkscan-changed/child.c, and the macros of util.h that they use.
-- What the child reads of the process's memory is the parameter `mem`, the 8-byte word at each
-- address, and `malloc_usable_size` is a parameter too.
use pp_final_project.Prelude.{
  ℕ, zero, suc, ◌+◌, ◌-◌, ◌*◌, ◌/◌, ◌%◌, Bool, true, false, List, get_elem?, set, ltb, leb, ◌==◌,
  ◌||◌, min, if◌then◌else◌, Run, done, fail, out_of_fuel, ◌>>=◌, read,
}
use pp_final_project.Buffer.Defs.{AddrBuffer}

-- `v & ~3`
abbrev pub ptr_mask : ℕ → ℕ
ptr_mask v = v / 4 * 4

-- `v & 0x1`
abbrev pub is_marked : ℕ → Bool
is_marked v = v % 2 == 1

-- `v | 0x1`
abbrev pub with_mark : ℕ → ℕ
with_mark v = v / 2 * 2 + 1

-- `PAGESIZE / sizeof(size_t)`
abbrev pub page_addrs : ℕ
page_addrs = 512

abbrev pub binary_threshold : ℕ
binary_threshold = 32

unfoldable pub is_ref : AddrBuffer → ℕ → ℕ → Run Bool
is_ref ab loc cmp = do addr ← read (get_elem? ab.addrs loc); done (ptr_mask addr == cmp)

-- The `for` of `iterative_search`, with `max - min` rounds to go. It is entered with `a[min] <= val`,
-- so that `min - 1` is not below the index that the search began with.
unfoldable pub iterative_loop : ℕ → ℕ → List ℕ → ℕ → Run ℕ
iterative_loop zero val a min = done (min - 1)
iterative_loop (suc rounds) val a min = do
  cmp ← read (get_elem? a min)
  elim (cmp == val) [
    | true ↦ done min
    | false ↦ elim (ltb val cmp) [
      | true ↦ done (min - 1)
      | false ↦ iterative_loop rounds val a (suc min)
    ]
  ]

unfoldable pub iterative_search : ℕ → List ℕ → ℕ → ℕ → Run ℕ
iterative_search val a min max = do
  first ← read (get_elem? a min)
  if ltb val first || (min == max) then done min else iterative_loop (max - min) val a min

-- The `while` of `binary_search`: the range shrinks in each round, so fuel above its length is enough.
unfoldable pub binary_loop : ℕ → ℕ → List ℕ → ℕ → ℕ → Run ℕ
binary_loop zero val a min max = fail out_of_fuel
binary_loop (suc fuel) val a min max = elim (leb binary_threshold (max - min)) [
  | false ↦ iterative_search val a min max
  | true ↦ do
    cmp ← read (get_elem? a ((max + min) / 2))
    elim (cmp == val) [
      | true ↦ done ((max + min) / 2)
      | false ↦ elim (ltb val cmp) [
        | true ↦ binary_loop fuel val a min ((max + min) / 2)
        | false ↦ binary_loop fuel val a ((max + min) / 2) max
      ]
    ]
]

unfoldable pub binary_search : ℕ → List ℕ → ℕ → ℕ → Run ℕ
binary_search val a min max = binary_loop (suc (max - min)) val a min max

unfoldable pub addr_find : ℕ → AddrBuffer → Run ℕ
addr_find val ab = do
  v ← binary_search val ab.minimap 0 ab.n_minimap
  binary_search val ab.addrs (v * page_addrs)
      (if v == ab.n_minimap - 1 then ab.n_addrs else (v + 1) * page_addrs)

-- `trace_stats_t`
pub record TraceStats : Type 0 where
  pub least : ℕ
  pub greatest : ℕ

-- A hit at index `loc`: an address that is marked already is passed over; another is marked, and the
-- recursive call is made before the loop goes on.
unfoldable pub mark_found :
    (AddrBuffer → Run AddrBuffer)
    → (AddrBuffer → Run AddrBuffer)
    → AddrBuffer
    → ℕ
    → ℕ
    → Run AddrBuffer
mark_found again next ab loc target = elim (is_marked target) [
  | true ↦ next ab
  | false ↦ again (record ab { addrs = set ab.addrs loc (with_mark target) }) >>= next
]

module _ (mem : ℕ → ℕ) (usable_size : ℕ → ℕ) (ts : TraceStats) where
  -- The `for` of `recursive_mark` over the words of the block at `ptr`, with `rounds` words to go;
  -- `again` is the recursive call that the body makes.
  unfoldable pub mark_loop : (AddrBuffer → Run AddrBuffer) → ℕ → ℕ → ℕ → AddrBuffer → Run AddrBuffer
  mark_loop again ptr zero i ab = done ab
  mark_loop again ptr (suc rounds) i ab =
      let val = ptr_mask (mem (ptr + 8 * i)) in
      elim (ltb val ts.least || ltb ts.greatest val) [
        | true ↦ mark_loop again ptr rounds (suc i) ab
        | false ↦ do
          loc ← addr_find val ab
          hit ← is_ref ab loc val
          elim hit [
            | false ↦ mark_loop again ptr rounds (suc i) ab
            | true ↦ do
              target ← read (get_elem? ab.addrs loc)
              mark_found again (λ ab'. mark_loop again ptr rounds (suc i) ab') ab loc target
          ]
      ]

  -- Each call has marked one more address than its caller, so fuel above the number of unmarked
  -- addresses is enough.
  unfoldable pub recursive_mark : ℕ → ℕ → AddrBuffer → Run AddrBuffer
  recursive_mark zero addr ab = fail out_of_fuel
  recursive_mark (suc fuel) addr ab =
      mark_loop (λ ab'. recursive_mark fuel (ptr_mask addr) ab') (ptr_mask addr)
        (usable_size (ptr_mask addr) / 8) 0 ab
