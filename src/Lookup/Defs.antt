-- ===== src/Lookup/Defs.antt =====
-- `addr_find_hint` and `lookup_lookaside_list` of forkscan-changed/child.c, with the assertions of a build
-- that has not `NDEBUG`. The address of `ab->addrs`, on which the hint's part of a cache line depends, is
-- the parameter `base`; an aligned one, so that the differences of addresses do not wrap.
use pp_final_project.Prelude.{
  ℕ, zero, suc, ◌+◌, ◌-◌, ◌*◌, ◌/◌, Bool, true, false, not, List, get_elem?, set, leb, ◌==◌, min,
  Run, done, ◌>>=◌, ◌>>◌, assert, read,
}
use pp_final_project.Buffer.Defs.{AddrBuffer}
use pp_final_project.Scan.Defs.{
  TraceStats, addr_find, binary_search, is_ref, is_marked, with_mark, recursive_mark,
}
use pp_final_project.Sort.Defs.{avl_sort, compact}

-- The cells up to the end of the cache line of cell `hint`, and eight more.
abbrev pub remaining_line : ℕ → ℕ → ℕ
remaining_line base hint = let addr = base + 8 * hint in (addr / 64 * 64 + (64 - 8) - addr) / 8 + 8

-- The `for` of `addr_find_hint`, with `rounds` to go, and the search that follows it.
unfoldable pub hint_loop : ℕ → ℕ → AddrBuffer → ℕ → Run ℕ
hint_loop zero val ab hint = addr_find val ab
hint_loop (suc rounds) val ab hint = do
  cmp ← read (get_elem? ab.addrs (min ab.n_addrs (hint + 1)))
  elim (leb val cmp) [
    | true ↦ done (min ab.n_addrs (hint + 1))
    | false ↦ hint_loop rounds val ab (min ab.n_addrs (hint + 1))
  ]

unfoldable pub addr_find_hint : ℕ → ℕ → AddrBuffer → ℕ → Run ℕ
addr_find_hint base val ab hint = do
  cmp ← read (get_elem? ab.addrs hint)
  elim (leb val cmp) [ true ↦ done hint | false ↦ hint_loop (remaining_line base hint) val ab hint ]

module _ (mem : ℕ → ℕ) (usable_size : ℕ → ℕ) (ts : TraceStats) (base : ℕ) where
  -- The value was found at index `loc`.
  unfoldable pub lookup_hit : ℕ → AddrBuffer → Run AddrBuffer
  lookup_hit loc ab = do
    addr ← read (get_elem? ab.addrs loc)
    elim (is_marked addr) [
      | true ↦ done ab
      | false ↦
          recursive_mark mem usable_size ts (suc ab.n_addrs) addr
            (record ab { addrs = set ab.addrs loc (with_mark addr) })
    ]

  -- It was not: what the debugging build asserts.
  unfoldable pub lookup_miss : ℕ → AddrBuffer → Run AddrBuffer
  lookup_miss cmp ab = do
    loc2 ← binary_search cmp ab.addrs 0 ab.n_addrs
    addr ← read (get_elem? ab.addrs loc2)
    assert (not (addr == cmp))
    done ab

  unfoldable pub lookup_at : Bool → ℕ → ℕ → AddrBuffer → Run AddrBuffer
  lookup_at true cmp loc ab = lookup_hit loc ab
  lookup_at false cmp loc ab = lookup_miss cmp ab

  -- The `for` over the list, with `rounds` to go: the values of `i`, `cmp` and `cached_loc`.
  unfoldable pub lookup_loop : List ℕ → ℕ → ℕ → ℕ → ℕ → AddrBuffer → Run AddrBuffer
  lookup_loop list zero i cmp cached_loc ab = done ab
  lookup_loop list (suc rounds) i cmp cached_loc ab = do
    val ← read (get_elem? list i)
    assert (not (cmp == val))
    loc ← addr_find_hint base val ab cached_loc
    hit ← is_ref ab loc val
    ab' ← lookup_at hit val loc ab
    lookup_loop list rounds (suc i) val loc ab'

  -- The list afterwards, `g_lookaside_count` and the buffer. `alloc` tells which allocations of the
  -- tree's nodes succeed.
  unfoldable pub lookup_lookaside_list :
      (ℕ → Bool) → List ℕ → ℕ → AddrBuffer → Run (List ℕ × ℕ × AddrBuffer)
  lookup_lookaside_list alloc list count ab = do
    (sorted, freed) ← avl_sort true alloc list count
    (compacted, savings) ← compact sorted count
    ab' ← lookup_loop compacted (count - savings) 0 0 0 ab
    done (compacted, 0, ab')
