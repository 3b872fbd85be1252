-- ===== src/Buffer/Lists.antt =====
-- forkscan-changed/buffer.c: the lists of reclaimer buffers, of aggregates and of retiree buffers, linked
-- through the `next` fields. A buffer is known by its number; `munmap` takes it out of the store. A
-- function that holds a mutex is one step. Memory from `mmap` is zero, and running out of it is left out.
use pp_final_project.Prelude.{
  ℕ, zero, suc, ◌+◌, ◌-◌, ◌*◌, ◌/◌, ◌%◌, ◌^◌, Bool, true, false, not, replicate, ltb, leb, ◌==◌,
  ◌&&◌, if◌then◌else◌, Option, none, some, Run, done, fail, null_deref, out_of_fuel, ◌>>=◌, ◌>>◌,
  assert,
}
use pp_final_project.Buffer.Defs.{AddrBuffer}
use pp_final_project.Scan.Defs.{page_addrs}

pub record Store : Type 0 where
  pub bufs : ℕ → Option AddrBuffer
  -- No buffer has this number or one above.
  pub fresh : ℕ
  pub default_capacity : ℕ
  pub reclaimer_list : Option ℕ
  pub first_retiree : Option ℕ
  pub last_retiree : Option ℕ
  pub available_aggregates : Option ℕ
  pub dead_references : Option ℕ

abbrev pub put : (ℕ → Option AddrBuffer) → ℕ → Option AddrBuffer → ℕ → Option AddrBuffer
put bufs i b j = if i == j then b else bufs j

-- The buffer that a pointer leads to.
abbrev pub load : Store → ℕ → Run AddrBuffer
load s i = elim (s.bufs i) [ none ↦ fail null_deref | some b ↦ done b ]

abbrev pub store : Store → ℕ → AddrBuffer → Store
store s i b = record s { bufs = put s.bufs i (some b) }

abbrev pub same_ptr : Option ℕ → ℕ → Bool
same_ptr none i = false
same_ptr (some j) i = j == i

-- A buffer in newly mapped memory.
abbrev pub mapped : Bool → ℕ → ℕ → ℕ → AddrBuffer
mapped is_aggregate capacity cells minimap_cells = record {
  next = none;
  addrs = replicate cells 0;
  minimap = replicate minimap_cells 0;
  is_aggregate = is_aggregate;
  n_addrs = 0;
  n_minimap = 0;
  capacity = capacity;
  root_counter = 0;
  roots_completed = 0;
  ref_count = 0;
  free_idx = 0;
}

-- The counter is an `int`, here its pattern of 32 bits.
abbrev pub decrement : ℕ → ℕ
decrement n = (n + (2 ^ 32 - 1)) % 2 ^ 32

abbrev pub increment : ℕ → ℕ
increment n = (n + 1) % 2 ^ 32

abbrev pub max_thread_count : ℕ
max_thread_count = 256

-- The list is taken from, or a buffer of the default capacity is mapped.
unfoldable pub make_reclaimer_buffer : ℕ → Store → Run (Store × ℕ)
make_reclaimer_buffer ptrs_per_thread s = elim (s.reclaimer_list) [
  | some i ↦ do
    ab ← load s i
    assert (ab.ref_count == 0)
    done (record (store s i (record ab { n_addrs = 0 })) { reclaimer_list = ab.next }, i)
  | none ↦
      let default =
        if s.default_capacity == 0
        then ptrs_per_thread * max_thread_count
        else s.default_capacity in
      done (
        record (store s s.fresh (mapped false default default 0)) {
          fresh = suc s.fresh;
          default_capacity = default;
        },
        s.fresh,
      )
]

-- `capacity`, up to the next multiple of a page of addresses
unfoldable pub round_capacity : ℕ → ℕ
round_capacity capacity =
    if capacity % page_addrs == 0 then capacity else capacity - capacity % page_addrs + page_addrs

-- The body of the `while` over the available aggregates, with the rest of the loop, `next`: a buffer
-- that is too small is unmapped.
unfoldable pub unmap_small :
    (Store → Option ℕ → Run (Store × Option ℕ))
    → ℕ
    → Store
    → ℕ
    → AddrBuffer
    → Run (Store × Option ℕ)
unmap_small next capacity s i ab =
    if ltb ab.capacity capacity
    then next (record s { bufs = put s.bufs i none }) ab.next
    else done (s, some i)

-- That `while`.
unfoldable pub unmap_loop : ℕ → ℕ → Store → Option ℕ → Run (Store × Option ℕ)
unmap_loop fuel capacity s none = done (s, none)
unmap_loop zero capacity s (some i) = fail out_of_fuel
unmap_loop (suc fuel) capacity s (some i) = do
  ab ← load s i
  unmap_small (λ s' next. unmap_loop fuel capacity s' next) capacity s i ab

-- `(n * sizeof(size_t) + PAGESIZE - sizeof(size_t)) / PAGESIZE`
abbrev pub pages_for : ℕ → ℕ
pages_for n = (n * 8 + 4096 - 8) / 4096

unfoldable pub map_aggregate : ℕ → Store → Store × ℕ
map_aggregate capacity s =
    let pages_of_addrs = pages_for capacity in
    let pages_of_minimap = pages_for pages_of_addrs in
    (
      record (store s s.fresh
          (mapped true capacity (pages_of_addrs * page_addrs) (pages_of_minimap * page_addrs))) {
            fresh = suc s.fresh;
          },
      s.fresh,
    )

unfoldable pub take_aggregate : ℕ → Store × Option ℕ → Run (Store × ℕ)
take_aggregate capacity (s, some i) = do
  ab ← load s i
  assert (ab.ref_count == 0)
  done (
    record (store s i (record ab { next = none; n_addrs = 0 })) { available_aggregates = ab.next },
    i,
  )
take_aggregate capacity (s, none) =
    done (map_aggregate capacity (record s { available_aggregates = none }))

-- Each round of the loop goes to another buffer, so fuel above the number of buffers is enough.
unfoldable pub make_aggregate_buffer : ℕ → Store → Run (Store × ℕ)
make_aggregate_buffer capacity s =
    let rounded = round_capacity capacity in
    unmap_loop (suc s.fresh) rounded s s.available_aggregates >>= λ found.
    take_aggregate rounded found

unfoldable pub release_buffer : ℕ → Store → Run Store
release_buffer i s = do
  assert (not (same_ptr s.first_retiree i))
  assert (not (same_ptr s.last_retiree i))
  ab ← load s i
  elim (ab.is_aggregate) [
    | false ↦ do
      assert (ab.capacity == s.default_capacity)
      done (record (store s i (record ab { next = s.reclaimer_list })) { reclaimer_list = some i })
    | true ↦ done (record (store s i (record ab { next = s.available_aggregates })) {
      available_aggregates = some i;
    })
  ]

-- The end of the queue of retiree buffers, after the fields of the buffer are set.
unfoldable pub link_last : ℕ → Option ℕ → Store → Run Store
link_last i none s = done (record s { first_retiree = some i; last_retiree = some i })
link_last i (some last) s = do
  lb ← load s last
  done (record (store s last (record lb { next = some i })) { last_retiree = some i })

unfoldable pub push_back : ℕ → Store → Run Store
push_back i s = do
  ab ← load s i
  link_last i s.last_retiree (store s i (record ab { ref_count = 1; free_idx = 0; next = none }))

-- The `while` of `pop_retiree_buffer`: the last two values of `prev` and `curr`.
unfoldable pub find_retiree : ℕ → ℕ → Store → Option ℕ → Option ℕ → Run (Option ℕ × Option ℕ)
find_retiree fuel i s prev none = done (prev, none)
find_retiree zero i s prev (some curr) = fail out_of_fuel
find_retiree (suc fuel) i s prev (some curr) = do
  ab ← load s curr
  if i == curr then done (prev, some curr) else find_retiree fuel i s (some curr) ab.next

-- `ab` was found: it is spliced out.
unfoldable pub splice : ℕ → Option ℕ → Store → Run Store
splice i none s = do
  ab ← load s i
  done (record s {
    first_retiree = ab.next;
    last_retiree = elim (ab.next) [ none ↦ none | some j ↦ s.last_retiree ];
  })
splice i (some prev) s = do
  ab ← load s i
  pb ← load s prev
  done (record (store s prev (record pb { next = ab.next })) {
    last_retiree = elim (s.first_retiree) [ none ↦ none | some j ↦ s.last_retiree ];
  })

unfoldable pub pop_found : ℕ → Store → Option ℕ × Option ℕ → Run Store
pop_found i s (prev, none) = done s
pop_found i s (prev, some curr) = splice i prev s

unfoldable pub pop_retiree_buffer : ℕ → Store → Run Store
pop_retiree_buffer i s =
    find_retiree (suc s.fresh) i s none s.first_retiree >>= λ found. pop_found i s found

unfoldable pub share_first : Store → Option ℕ → Run (Store × Option ℕ)
share_first s none = done (s, none)
share_first s (some i) = do
  ab ← load s i
  done (store s i (record ab { ref_count = increment ab.ref_count }), some i)

unfoldable pub get_retiree_buffer : Store → Run (Store × Option ℕ)
get_retiree_buffer s = share_first s s.first_retiree

unfoldable pub unref_buffer : ℕ → Store → Run Store
unref_buffer i s = do
  ab ← load s i
  let s' = store s i (record ab { ref_count = decrement ab.ref_count })
  if (decrement ab.ref_count == 0) && leb ab.n_addrs ab.free_idx
      then release_buffer i s'
      else done s'
