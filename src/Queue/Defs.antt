-- ===== src/Queue/Defs.antt =====
-- The circular queues of forkscan-changed/queue.c and queue.h. The indices are 64-bit counters.
use pp_final_project.Prelude.{
  ℕ, zero, suc, ◌+◌, ◌-◌, ◌%◌, bit_and, Bool, true, false, not, List, length, get_elem?, set, take,
  drop, blit, ltb, leb, ◌==◌, min, if◌then◌else◌, Run, done, fail, out_of_bounds, ◌>>=◌, ◌>>◌,
  assert, read,
}

-- Arithmetic of `unsigned long long` and `size_t`.
abbrev pub two_64 : ℕ
two_64 = 18446744073709551616

unfoldable pub wrap : ℕ → ℕ
wrap n = n % two_64

-- `queue_t`: `e` is the memory of the buffer.
pub record Queue : Type 0 where
  pub e : List ℕ
  pub capacity : ℕ
  pub idx_head : ℕ
  pub idx_tail : ℕ

-- `INDEXIFY`
unfoldable pub indexify : ℕ → ℕ → ℕ
indexify abs_idx capacity = bit_and abs_idx (capacity - 1)

-- A write to an array cell.
abbrev pub write : List ℕ → ℕ → ℕ → Run (List ℕ)
write a i v = if ltb i (length a) then done (set a i v) else fail out_of_bounds

-- `memcpy(&dst[to], &src[from], n * sizeof(size_t))`
unfoldable pub memcpy : List ℕ → ℕ → List ℕ → ℕ → ℕ → Run (List ℕ)
memcpy dst to src from n =
    if leb (from + n) (length src)
    then if leb (to + n) (length dst)
      then done (blit dst to (take n (drop from src)))
      else fail out_of_bounds
    else fail out_of_bounds

unfoldable pub queue_init : List ℕ → ℕ → Queue
queue_init buf capacity = record { e = buf; capacity = capacity; idx_head = 0; idx_tail = capacity }

unfoldable pub is_empty : Queue → Run Bool
is_empty q = do
  assert (ltb q.idx_head q.idx_tail)
  done (wrap (q.idx_head + q.capacity) == q.idx_tail)

unfoldable pub is_full : Queue → Run Bool
is_full q = do assert (ltb q.idx_head q.idx_tail); done (leb q.idx_tail (wrap (q.idx_head + 1)))

-- The counts that `available` and `pop_bulk` return as `int` are below the capacity, which is far
-- below 2 ^ 31; the cast is the identity on them.
unfoldable pub available : Queue → Run ℕ
available q = do assert (ltb q.idx_head q.idx_tail); done (q.idx_tail - q.idx_head - 1)

unfoldable pub push : Queue → ℕ → Run Queue
push q value = do
  e ← write q.e (indexify q.idx_head q.capacity) value
  let q' = record q { e = e; idx_head = wrap (q.idx_head + 1) }
  assert (ltb q'.idx_head q'.idx_tail)
  done q'

unfoldable pub pop : Queue → Run (ℕ × Queue)
pop q = do
  ret ← read (get_elem? q.e (indexify q.idx_tail q.capacity))
  done (ret, record q { idx_tail = wrap (q.idx_tail + 1) })

-- A copy that is made only if it has elements; the index moves with it.
unfoldable pub copy_in : List ℕ → ℕ → ℕ → List ℕ → ℕ → ℕ → Run (List ℕ × ℕ)
copy_in e capacity idx_head values from n =
    if ltb 0 n
    then (do
      e' ← memcpy e (indexify idx_head capacity) values from n
      done (e', wrap (idx_head + n)))
    else done (e, idx_head)

unfoldable pub push_bulk : Queue → List ℕ → ℕ → Run Queue
push_bulk q values len = do
  let first_copy = min len (q.capacity - indexify q.idx_head q.capacity)
  (e, idx_head) ← copy_in q.e q.capacity q.idx_head values 0 first_copy
  (e', idx_head') ← copy_in e q.capacity idx_head values first_copy (len - first_copy)
  done (record q { e = e'; idx_head = idx_head' })

-- `a - b` in 64 bits.
unfoldable pub sub_64 : ℕ → ℕ → ℕ
sub_64 a b = wrap (a + (two_64 - b))

-- The loop of `assert(values[i] != 0)`, with `rounds` to go.
unfoldable pub check_values : ℕ → List ℕ → ℕ → Run (Unit {0})
check_values zero values i = done tt
check_values (suc rounds) values i = do
  v ← read (get_elem? values i)
  assert (not (v == 0))
  check_values rounds values (suc i)

-- A copy that is made only if it has elements.
unfoldable pub copy_some : List ℕ → ℕ → List ℕ → ℕ → ℕ → Run (List ℕ)
copy_some dst to src from n = if ltb 0 n then memcpy dst to src from n else done dst

-- The copies out of the buffer: one to its end, if the run of cells wraps around, and the rest.
unfoldable pub copy_out : Queue → List ℕ → ℕ → ℕ → Run (List ℕ)
copy_out q values head start =
    if ltb head start
    then (do
      values' ← memcpy values 0 q.e start (q.capacity - start)
      copy_some values' (q.capacity - start) q.e 0 head)
    else copy_some values 0 q.e start (head - start)

-- The part of `pop_bulk` after `size` and `idx_head` are settled.
unfoldable pub pop_count : List ℕ → Queue → ℕ → ℕ → Run (List ℕ × ℕ × Queue)
pop_count values q popped idx_head = do
  values' ← copy_out q values (indexify idx_head q.capacity) (indexify q.idx_tail q.capacity)
  check_values popped values' 0
  done (values', popped, record q { idx_tail = wrap (idx_head + q.capacity) })

-- The values buffer, the number of values popped, and the queue.
unfoldable pub pop_bulk : List ℕ → ℕ → Queue → Run (List ℕ × ℕ × Queue)
pop_bulk values len q = do
  let size = sub_64 q.idx_head (sub_64 q.idx_tail q.capacity)
  assert (ltb len 1080863910568919040)
  elim (size == 0) [
    | true ↦ done (values, 0, q)
    | false ↦ elim (ltb len size) [
      | true ↦ pop_count values q len (sub_64 q.idx_head (size - len))
      | false ↦ pop_count values q size q.idx_head
    ]
  ]
