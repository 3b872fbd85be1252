-- ===== src/Bench/Defs.antt =====
-- The array of forkscan_test/main.c: `add`, `remove_node` and `contains`, one atomic access at a time.
-- The field `key` of a node is only stored, never read, and has no field here.
use pp_final_project.Prelude.{
  ℕ, suc, Bool, true, false, ◌==◌, if◌then◌else◌, List, ◌∷◌, Option, none, some,
}

-- Where a thread stands, with its node.
pub data Pc : Type 0 where
  idle : Pc
  -- `add`: the cell was empty
  allocating : (key : ℕ) → Pc
  -- `add`: the node is made, and the compare-and-swap is next
  inserting : (key node : ℕ) → Pc
  -- `add`: the swap failed, and the node is to be freed
  dropping : (node : ℕ) → Pc
  -- `remove_node`: the node is out of the array
  removing : (node : ℕ) → Pc
  -- `remove_node`: `collected` was 0
  retiring : (node : ℕ) → Pc

-- What a thread that is idle calls.
pub data Call : Type 0 where
  add : (key : ℕ) → Call
  remove_node : (key : ℕ) → Call
  contains : (key : ℕ) → Call

pub record Bench : Type 0 where
  pub array : ℕ → Option ℕ
  pub collected : ℕ → Bool
  -- No node has this number or one above.
  pub fresh : ℕ
  pub pc : ℕ → Pc
  -- the nodes that `forkscan_retire` and `free` were called with, the last first
  pub retired : List ℕ
  pub freed : List ℕ

abbrev pub update {ℓ} : {A : Type ℓ} → (ℕ → A) → ℕ → A → ℕ → A
update f i a j = if i == j then a else f j

-- The value that `contains` returns.
unfoldable pub is_present : Bench → ℕ → Bool
is_present s key = elim (s.array key) [ none ↦ false | some n ↦ true ]

module _ (i : ℕ) (s : Bench) where
  abbrev pub go : Pc → Bench
  go p = record s { pc = update s.pc i p }

  unfoldable pub add_load : ℕ → Bench
  add_load key = elim (s.array key) [ none ↦ go (allocating key) | some n ↦ go idle ]

  -- Memory from `forkscan_malloc`, with the flag at 0.
  unfoldable pub add_allocate : ℕ → Bench
  add_allocate key = record (go (inserting key s.fresh)) {
    collected = update s.collected s.fresh false;
    fresh = suc s.fresh;
  }

  unfoldable pub add_swap : ℕ → ℕ → Bench
  add_swap key node = elim (s.array key) [
    | none ↦ record (go idle) { array = update s.array key (some node) }
    | some n ↦ go (dropping node)
  ]

  unfoldable pub add_drop : ℕ → Bench
  add_drop node = record (go idle) { freed = node ∷ s.freed }

  unfoldable pub remove_exchange : ℕ → Bench
  remove_exchange key = elim (s.array key) [
    | none ↦ go idle
    | some n ↦ record (go (removing n)) { array = update s.array key none }
  ]

  unfoldable pub remove_collect : ℕ → Bench
  remove_collect node = record (go (if s.collected node then idle else retiring node)) {
    collected = update s.collected node true;
  }

  unfoldable pub remove_retire : ℕ → Bench
  remove_retire node = record (go idle) { retired = node ∷ s.retired }

  unfoldable pub begin : Call → Bench
  begin (add key) = add_load key
  begin (remove_node key) = remove_exchange key
  begin (contains key) = go idle

  unfoldable pub resume : Call → Pc → Bench
  resume call idle = begin call
  resume call (allocating key) = add_allocate key
  resume call (inserting key node) = add_swap key node
  resume call (dropping node) = add_drop node
  resume call (removing node) = remove_collect node
  resume call (retiring node) = remove_retire node

-- The next access of thread `i`.
abbrev pub step : ℕ → Call → Bench → Bench
step i call s = resume i s call (s.pc i)
