-- ===== src/Ranges/Collect.antt =====
-- The loops of `collect_ranges` of forkscan-changed/child.c.
use pp_final_project.Prelude.{ℕ, true, false, List, ◌∷◌, ◌==◌, Run, ◌>>=◌}
use pp_final_project.Alloc.Defs.{Metadata, MemRange}
use pp_final_project.Alloc.Order.{Ordered}
use pp_final_project.Alloc.Subrange.{Subrange}
use pp_final_project.Ranges.Defs.{RangeTable, add_subrange, subrange_loop}

-- The rest of a round, after the call of `metadata_break_range`.
abbrev after_break : ℕ → List Metadata → RangeTable → MemRange × MemRange → Run RangeTable
after_break fuel blocks t (next, rest) = elim (next.low == next.high) [
  | true ↦ subrange_loop fuel blocks rest t
  | false ↦ add_subrange next t >>= λ t'. subrange_loop fuel blocks rest t'
]

module _ (b : ℕ) (first : Metadata) (tail : List Metadata) (order : Ordered b (first ∷ tail)) where
  abbrev blocks : List Metadata
  blocks = first ∷ tail
