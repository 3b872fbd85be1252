-- ===== src/Buffer/Dead.antt =====
-- `forkscan_buffer_get_dead_references` of forkscan-changed/buffer.c: the addresses of the retiree buffers
-- that are neither marked nor freed.
use pp_final_project.Prelude.{
  ℕ, zero, suc, ◌%◌, Bool, true, false, get_elem?, ltb, leb, ◌==◌, if◌then◌else◌, Option, none,
  some, Run, done, fail, out_of_fuel, ◌>>=◌, ◌>>◌, read, assert,
}
use pp_final_project.Queue.Defs.{write}
use pp_final_project.Buffer.Defs.{AddrBuffer}
use pp_final_project.Buffer.Lists.{Store, load, store, mapped}

-- `addr & 0x3`
abbrev pub low_bits : ℕ → ℕ
low_bits addr = addr % 4

-- The body of the inner `for`, with the rest of the loop, `next`. A full buffer ends both loops: the first
-- component of the result tells that.
unfoldable pub copy_dead :
    (AddrBuffer → Run (Bool × AddrBuffer)) → ℕ → AddrBuffer → Run (Bool × AddrBuffer)
copy_dead next addr ret = elim (low_bits addr == 0) [
  | false ↦ next ret
  | true ↦ do
    addrs ← write ret.addrs ret.n_addrs addr
    let ret' = record ret { addrs = addrs; n_addrs = suc ret.n_addrs }
    if leb ret.capacity ret'.n_addrs then done (true, ret') else next ret'
]

-- That `for`, with `rounds` to go.
unfoldable pub dead_loop : ℕ → ℕ → AddrBuffer → AddrBuffer → Run (Bool × AddrBuffer)
dead_loop zero i ab ret = done (false, ret)
dead_loop (suc rounds) i ab ret = do
  addr ← read (get_elem? ab.addrs i)
  copy_dead (λ ret'. dead_loop rounds (suc i) ab ret') addr ret

-- The `for` over the retiree buffers. They form a list, so fuel above the number of buffers is enough.
unfoldable pub dead_buffers : ℕ → Store → Option ℕ → AddrBuffer → Run AddrBuffer
dead_buffers fuel s none ret = done ret
dead_buffers zero s (some i) ret = fail out_of_fuel
dead_buffers (suc fuel) s (some i) ret = do
  ab ← load s i
  found ← dead_loop ab.n_addrs 0 ab ret
  elim (found.0) [ true ↦ done found.1 | false ↦ dead_buffers fuel s ab.next found.1 ]

-- The static buffer, mapped by the first call.
unfoldable pub dead_buffer : Store → Option ℕ → Run (Store × ℕ)
dead_buffer s (some i) = done (s, i)
dead_buffer s none = do
  assert (ltb 0 s.default_capacity)
  done (
    record (store s s.fresh (mapped false s.default_capacity s.default_capacity 0)) {
      fresh = suc s.fresh;
      dead_references = some s.fresh;
    },
    s.fresh,
  )

unfoldable pub collect_dead : Store × ℕ → Run (Store × ℕ)
collect_dead (s, i) = do
  ret ← load s i
  collected ← dead_buffers (suc s.fresh) s s.first_retiree (record ret { n_addrs = 0 })
  done (store s i collected, i)

unfoldable pub get_dead_references : Store → Run (Store × ℕ)
get_dead_references s = dead_buffer s s.dead_references >>= collect_dead
