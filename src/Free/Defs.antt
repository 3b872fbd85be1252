-- ===== src/Free/Defs.antt =====
-- `forkscan_util_free_ptrs` of forkscan-changed/util.c. Any number of threads run it at the same time. A
-- step of a thread goes from one access of shared data to the next: it takes the first retiree buffer
-- (under the mutex), reads `free_idx` for the test, reads it again, swaps it, or takes one address out of its own range. Leaving a
-- buffer, `pop_retiree_buffer` and `unref_buffer`, is one step. The calls of `free` are the list `freed`.
use pp_final_project.Prelude.{
  ℕ, suc, ◌+◌, ◌%◌, ◌≡◌, true, false, List, ◌∷◌, get_elem?, set, ltb, leb, ◌==◌, min, if◌then◌else◌,
  Option, none, some, Run, done, ◌>>=◌, ◌>>◌, assert, read,
}
use pp_final_project.Buffer.Defs.{AddrBuffer}
use pp_final_project.Buffer.Lists.{
  Store, load, store, get_retiree_buffer, pop_retiree_buffer, unref_buffer,
}
use pp_final_project.Scan.Defs.{is_marked}

-- `FREE_RANGE_SZ`
abbrev pub free_range_sz : ℕ
free_range_sz = 1024

-- Where a thread is: outside the function; at the head of the loop; with a buffer in `ab`; before the
-- second read of `free_idx`, which is volatile, after the test that the buffer is not done; before the swap of `free_idx`, with `begin_idx` and `end_idx`; or before the read of an address. The first
-- number is `i`.
pub data Place : Type 0 where
  outside : Place
  looping : ℕ → Place
  holding : ℕ → Place
  tested : ℕ → Place
  claiming : ℕ → ℕ → ℕ → Place
  freeing : ℕ → Place

-- The fields of `thread_data_t` that the function works on.
pub record Freer : Type 0 where
  pub retiree_buffer : Option ℕ
  pub begin_retiree_idx : ℕ
  pub end_retiree_idx : ℕ
  pub place : Place

-- A call of `free`: the buffer, the cell in it and the address.
pub record FreeCall : Type 0 where
  pub buffer : ℕ
  pub cell : ℕ
  pub address : ℕ

pub record World : Type 0 where
  pub buffers : Store
  pub tds : ℕ → Freer
  pub freed : List FreeCall

abbrev pub update : (ℕ → Freer) → ℕ → Freer → ℕ → Freer
update tds i t j = if i == j then t else tds j

-- Thread `i` goes on as `t`.
abbrev pub with_td : World → ℕ → Freer → World
with_td w i t = record w { tds = update w.tds i t }

-- After `get_retiree_buffer`.
unfoldable pub got_buffer : World → ℕ → ℕ → Store × Option ℕ → World
got_buffer w i round (s, none) =
    with_td (record w { buffers = s }) i
      (record {
        retiree_buffer = none;
        begin_retiree_idx = 0;
        end_retiree_idx = 0;
        place = outside;
      })
got_buffer w i round (s, some k) =
    with_td (record w { buffers = s }) i
      (record {
        retiree_buffer = some k;
        begin_retiree_idx = 0;
        end_retiree_idx = 0;
        place = holding round;
      })

-- The buffer is done.
unfoldable pub leave_buffer : World → ℕ → ℕ → ℕ → Run World
leave_buffer w i round k = do
  s1 ← pop_retiree_buffer k w.buffers
  s2 ← unref_buffer k s1
  done (
      with_td (record w { buffers = s2 }) i
        (record (w.tds i) { retiree_buffer = none; place = looping (suc round) }))

-- With a buffer: what is next is to free an address of the range, to leave the buffer, or to claim
-- another range, by the first read of `free_idx`.
unfoldable pub use_buffer : World → ℕ → ℕ → ℕ → AddrBuffer → Run World
use_buffer w i round k ab = elim ((w.tds i).begin_retiree_idx == (w.tds i).end_retiree_idx) [
  | false ↦ done (with_td w i (record (w.tds i) { place = freeing round }))
  | true ↦ elim (leb ab.n_addrs ab.free_idx) [
    | true ↦ leave_buffer w i round k
    | false ↦ done (with_td w i (record (w.tds i) { place = tested round }))
  ]
]

-- `begin_idx` and `end_idx`
unfoldable pub read_free_idx : World → ℕ → ℕ → AddrBuffer → World
read_free_idx w i round ab = with_td w i (record (w.tds i) {
  place = claiming round ab.free_idx (min ab.n_addrs (ab.free_idx + free_range_sz));
})

-- `BCAS(&ab->free_idx, begin_idx, end_idx)`
unfoldable pub swap_free_idx : World → ℕ → ℕ → ℕ → ℕ → ℕ → AddrBuffer → World
swap_free_idx w i round begin_idx end_idx k ab = elim (ab.free_idx == begin_idx) [
  | true ↦
      with_td (record w { buffers = store w.buffers k (record ab { free_idx = end_idx }) }) i
        (record (w.tds i) {
          begin_retiree_idx = begin_idx;
          end_retiree_idx = end_idx;
          place = freeing round;
        })
  | false ↦ with_td w i (record (w.tds i) { place = looping (suc round) })
]

-- One address: a marked one stays; another is taken out of the set and freed.
unfoldable pub free_cell : World → ℕ → ℕ → ℕ → AddrBuffer → Run World
free_cell w i round k ab =
    let idx = (w.tds i).begin_retiree_idx in
    let w' =
      with_td w i (record (w.tds i) { begin_retiree_idx = suc idx; place = looping (suc round) }) in
    read (get_elem? ab.addrs idx) >>= λ s. elim (is_marked s) [
      | true ↦ done w'
      | false ↦
          assert (s % 4 == 0)
          >> done (record w' {
            buffers = store w.buffers k (record ab { addrs = set ab.addrs idx 2 });
            freed = record { buffer = k; cell = idx; address = s } ∷ w.freed;
          })
    ]

-- A step of thread `i` from where it is; `frees_required` is `g_frees_required`.
unfoldable pub free_at : ℕ → World → ℕ → Place → Option ℕ → Run World
free_at frees_required w i outside b = done (with_td w i (record (w.tds i) { place = looping 0 }))
free_at frees_required w i (looping round) b = elim (ltb round frees_required) [
  | false ↦ done (with_td w i (record (w.tds i) { place = outside }))
  | true ↦ elim b [
    | none ↦ get_retiree_buffer w.buffers >>= λ p. done (got_buffer w i round p)
    | some k ↦ done (with_td w i (record (w.tds i) { place = holding round }))
  ]
]
free_at frees_required w i (holding round) (some k) = do
  ab ← load w.buffers k
  use_buffer w i round k ab
free_at frees_required w i (tested round) (some k) = do
  ab ← load w.buffers k
  done (read_free_idx w i round ab)
free_at frees_required w i (claiming round begin_idx end_idx) (some k) = do
  ab ← load w.buffers k
  done (swap_free_idx w i round begin_idx end_idx k ab)
free_at frees_required w i (freeing round) (some k) = do
  ab ← load w.buffers k
  free_cell w i round k ab
-- No buffer: not reached.
free_at frees_required w i p none = done w

unfoldable pub free_step : ℕ → World → ℕ → Run World
free_step frees_required w i = free_at frees_required w i (w.tds i).place (w.tds i).retiree_buffer

-- What any number of threads can do, in any order.
pub data Reach (frees_required : ℕ) (w : World) : World → Type 0 where
  start : Reach frees_required w w
  next :
      {w1 : World} {w2 : World} (i : ℕ)
      → Reach frees_required w w1
      → free_step frees_required w1 i ≡ done w2
      → Reach frees_required w w2
