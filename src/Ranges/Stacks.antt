-- ===== src/Ranges/Stacks.antt =====
-- `add_stack_ranges` of forkscan-changed/child.c.
use pp_final_project.Prelude.{
  ◌+◌, ◌-◌, ◌≤◌, ◌<◌, ◌≡◌, true, false, List, [], ◌∷◌, ◌++◌, length, Returns, sym, ap, ◌∙◌,
  append-nil, append_assoc, length-append, lt→ltb, arith, Bool-cases, inl, inr, Returns-imp,
}
use pp_final_project.Alloc.Defs.{MemRange}
use pp_final_project.Ranges.Defs.{RangeTable, UserStack, max_ranges, add_range, add_stack_ranges}
use pp_final_project.Ranges.Pieces.{total}

-- The stacks that the library made, in the order of the thread list.
unfoldable pub own_stacks : List UserStack → List MemRange
own_stacks [] = []
own_stacks (td ∷ rest) = elim td.stack_is_ours [
  | true ↦ record { low = td.user_stack_low; high = td.user_stack_high } ∷ own_stacks rest
  | false ↦ own_stacks rest
]

abbrev stack_range : UserStack → MemRange
stack_range td = record { low = td.user_stack_low; high = td.user_stack_high }

abbrev with_stack : UserStack → RangeTable → RangeTable
with_stack td t = record {
  ranges = t.ranges ++ stack_range td ∷ [];
  bytes_to_scan = t.bytes_to_scan + (td.user_stack_high - td.user_stack_low);
}

module _ (td : UserStack) (rest : List UserStack) where
  own_stacks-ours :
      td.stack_is_ours ≡ true → own_stacks (td ∷ rest) ≡ stack_range td ∷ own_stacks rest
  unfolding own_stacks
  own_stacks-ours e = rw (e, own_stacks)

  own_stacks-other : td.stack_is_ours ≡ false → own_stacks (td ∷ rest) ≡ own_stacks rest
  unfolding own_stacks
  own_stacks-other e = rw (e, own_stacks)

  add-ours :
      (t : RangeTable)
      → td.stack_is_ours ≡ true
      → length t.ranges < max_ranges
      → add_stack_ranges (td ∷ rest) t ≡ add_stack_ranges rest (with_stack td t)
  unfolding add_stack_ranges add_range
  add-ours t e room =
      rw (e, add_stack_ranges) (rw (lt→ltb (length t.ranges) max_ranges room, add_range))

  add-other :
      (t : RangeTable)
      → td.stack_is_ours ≡ false
      → add_stack_ranges (td ∷ rest) t ≡ add_stack_ranges rest t
  unfolding add_stack_ranges
  add-other t e = rw (e, add_stack_ranges)

-- If the table has room for the library's own stacks, `add_stack_ranges` returns, and has added each of
-- them whole, in the order of the thread list, and their lengths to the count of bytes.
pub add_stack_ranges_lem :
    (tds : List UserStack) (t : RangeTable)
    → length t.ranges + length (own_stacks tds) ≤ max_ranges
    → Returns (add_stack_ranges tds t) (λ t'.
      (t'.ranges ≡ t.ranges ++ own_stacks tds)
      × (t'.bytes_to_scan ≡ t.bytes_to_scan + total (own_stacks tds)))
add_stack_ranges_lem [] t room =
    unfold add_stack_ranges own_stacks in (sym (append-nil t.ranges), omega arith)
add_stack_ranges_lem (td ∷ rest) t room = elim (Bool-cases td.stack_is_ours) [
  | inr other ↦
      let size = ap length (own_stacks-other td rest other) in
      rw (add-other td rest t other, own_stacks-other td rest other)
        (add_stack_ranges_lem rest t (omega (arith, size)))
  | inl ours ↦
      let size = ap length (own_stacks-ours td rest ours) in
      rw (add-ours td rest t ours (omega (arith, size)), own_stacks-ours td rest ours)
        (Returns-imp (add_stack_ranges rest (with_stack td t))
          (λ t' h. (
            h.0 ∙ append_assoc t.ranges (stack_range td ∷ []) (own_stacks rest),
            omega (arith, h.1),
          ))
          (add_stack_ranges_lem rest (with_stack td t)
            (omega (arith, size, length-append t.ranges (stack_range td ∷ [])))))
]
