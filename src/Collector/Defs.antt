-- ===== src/Collector/Defs.antt =====
-- The work on address buffers in forkscan-changed/forkscan.c.
use pp_final_project.Prelude.{
  ℕ, zero, suc, ◌+◌, true, false, get_elem?, ltb, Run, done, fail, out_of_fuel, ◌>>=◌, read,
}
use pp_final_project.Buffer.Defs.{AddrBuffer}
use pp_final_project.Queue.Defs.{write}
use pp_final_project.Scan.Defs.{page_addrs, is_marked, ptr_mask}

-- The `for` of `generate_minimap`. The index grows in each round, so fuel above the number of addresses
-- is enough.
unfoldable pub minimap_loop : ℕ → AddrBuffer → ℕ → Run AddrBuffer
minimap_loop zero ab i = fail out_of_fuel
minimap_loop (suc fuel) ab i = elim (ltb i ab.n_addrs) [
  | false ↦ done ab
  | true ↦ do
    addr ← read (get_elem? ab.addrs i)
    minimap ← write ab.minimap ab.n_minimap addr
    minimap_loop fuel (record ab { minimap = minimap; n_minimap = suc ab.n_minimap })
        (i + page_addrs)
]

unfoldable pub generate_minimap : AddrBuffer → Run AddrBuffer
generate_minimap ab = minimap_loop (suc ab.n_addrs) (record ab { n_minimap = 0 }) 0

-- The body of the last `for` of `reclaim_iteration` and the rest of the loop, `next`: `kept` is
-- `g_uncollected_data`.
unfoldable pub keep_addr : (AddrBuffer → Run AddrBuffer) → ℕ → AddrBuffer → Run AddrBuffer
keep_addr next addr kept = elim (is_marked addr) [
  | false ↦ next kept
  | true ↦ do
    addrs ← write kept.addrs kept.n_addrs (ptr_mask addr)
    next (record kept { addrs = addrs; n_addrs = suc kept.n_addrs })
]

-- That `for` over the addresses of `working`, with `rounds` to go.
unfoldable pub keep_loop : ℕ → ℕ → AddrBuffer → AddrBuffer → Run AddrBuffer
keep_loop zero i working kept = done kept
keep_loop (suc rounds) i working kept = do
  addr ← read (get_elem? working.addrs i)
  keep_addr (λ kept'. keep_loop rounds (suc i) working kept') addr kept

unfoldable pub keep_referenced : AddrBuffer → AddrBuffer → Run AddrBuffer
keep_referenced working kept = keep_loop working.n_addrs 0 working kept
