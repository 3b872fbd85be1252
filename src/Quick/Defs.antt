-- ===== src/Quick/Defs.antt =====
-- `swap`, `partition`, `insertion_sort`, `quicksort` and `randomize` of forkscan-changed/util.c. An
-- inclusive bound `max`, which may be -1, is given as `stop`, the index after it.
use pp_final_project.Prelude.{
  ℕ, zero, suc, ◌+◌, ◌-◌, ◌*◌, ◌/◌, ◌%◌, ◌^◌, true, false, List, get_elem?, set, ltb, leb, ◌==◌,
  Run, done, fail, out_of_fuel, ◌>>=◌, read,
}

unfoldable pub swap : List ℕ → ℕ → ℕ → Run (List ℕ)
swap addrs n m = do
  addr ← read (get_elem? addrs n)
  other ← read (get_elem? addrs m)
  done (set (set addrs n other) m addr)

-- The body of the `for` of `partition` at the cell `addr`, and the rest of the loop, `next`.
unfoldable pub partition_cell :
    (ℕ → List ℕ → Run (List ℕ × ℕ)) → ℕ → ℕ → ℕ → ℕ → List ℕ → Run (List ℕ × ℕ)
partition_cell next addr i mid pivot_val addrs = elim (leb addr pivot_val) [
  | true ↦ swap addrs i mid >>= next (suc mid)
  | false ↦ next mid addrs
]

-- That `for`, with `rounds` to go; it returns the array and `mid`.
unfoldable pub partition_loop : ℕ → ℕ → ℕ → ℕ → List ℕ → Run (List ℕ × ℕ)
partition_loop zero i mid pivot_val addrs = done (addrs, mid)
partition_loop (suc rounds) i mid pivot_val addrs = do
  addr ← read (get_elem? addrs i)
  partition_cell (λ mid' addrs'. partition_loop rounds (suc i) mid' pivot_val addrs') addr i mid
      pivot_val addrs

-- The last swap of `partition`.
unfoldable pub place_pivot : ℕ → List ℕ × ℕ → Run (List ℕ × ℕ)
place_pivot max (addrs, mid) = do swapped ← swap addrs mid max; done (swapped, mid)

unfoldable pub partition : List ℕ → ℕ → ℕ → Run (List ℕ × ℕ)
partition addrs min stop =
    let max = stop - 1 in
    let pivot = (max + min) / 2 in
    do
      pivot_val ← read (get_elem? addrs pivot)
      swapped ← swap addrs pivot max
      parted ← partition_loop (max - min) min min pivot_val swapped
      place_pivot max parted

-- The body of the inner `for` of `insertion_sort` at the cells `before` and `here`, with the rest of the
-- loop, `next`.
unfoldable pub insert_cell : (List ℕ → Run (List ℕ)) → ℕ → ℕ → ℕ → List ℕ → Run (List ℕ)
insert_cell next before here j addrs = elim (ltb here before) [
  | true ↦ swap addrs (suc j) j >>= next
  | false ↦ done addrs
]

-- That `for`: it goes down to the start of the array, not to `min`.
unfoldable pub insert_down : ℕ → List ℕ → Run (List ℕ)
insert_down zero addrs = done addrs
insert_down (suc j) addrs = do
  before ← read (get_elem? addrs j)
  here ← read (get_elem? addrs (suc j))
  insert_cell (λ swapped. insert_down j swapped) before here j addrs

-- The outer `for`, with `rounds` to go.
unfoldable pub insertion_loop : ℕ → ℕ → List ℕ → Run (List ℕ)
insertion_loop zero i addrs = done addrs
insertion_loop (suc rounds) i addrs = do
  inserted ← insert_down i addrs
  insertion_loop rounds (suc i) inserted

unfoldable pub insertion_sort : List ℕ → ℕ → ℕ → Run (List ℕ)
insertion_sort addrs min stop = insertion_loop (stop - suc min) (suc min) addrs

abbrev pub sort_threshold : ℕ
sort_threshold = 16

-- The recursion is on ever shorter parts, so fuel above the length is enough. `max - min` is above the
-- threshold where `stop` is above `min + 17`.
unfoldable pub quicksort : ℕ → List ℕ → ℕ → ℕ → Run (List ℕ)
quicksort zero addrs min stop = fail out_of_fuel
quicksort (suc fuel) addrs min stop = elim (ltb (min + sort_threshold + 1) stop) [
  | true ↦ do
    (parted, mid) ← partition addrs min stop
    left ← quicksort fuel parted min mid
    quicksort fuel left (mid + 1) stop
  | false ↦ insertion_sort addrs min stop
]

unfoldable pub util_sort : List ℕ → ℕ → Run (List ℕ)
util_sort a length = quicksort (suc length) a 0 length

-- The `for` of `randomize`, with `rounds` to go; the product is of 32-bit numbers.
unfoldable pub randomize_loop : ℕ → ℕ → ℕ → List ℕ → Run (List ℕ)
randomize_loop zero i n addrs = done addrs
randomize_loop (suc rounds) i n addrs =
    let tmp = i * 2147483647 % 2 ^ 32 % n in
    elim (i == tmp) [
      | true ↦ randomize_loop rounds (suc i) n addrs
      | false ↦ do swapped ← swap addrs i tmp; randomize_loop rounds (suc i) n swapped
    ]

unfoldable pub randomize : List ℕ → ℕ → Run (List ℕ)
randomize addrs n = randomize_loop n 0 n addrs
