-- ===== src/Ranges/Tests.antt =====
-- Runs of `collect_ranges` and `add_stack_ranges` of forkscan-changed/child.c, and the theorems about
-- them at concrete inputs.
use pp_final_project.Prelude.{ℕ, ◌+◌, ◌≤◌, ◌≡◌, refl, true, false, List, [], ◌∷◌, ◌++◌, done, arith}
use pp_final_project.Alloc.Defs.{
  Metadata, metadata_break_range, break_at, advance, advance_low, cut_high,
}
use pp_final_project.Ranges.Defs.{
  RangeTable, Region, UserStack, subrange_loop, add_subrange, add_range, split_loop, is_lib,
  lib_loop, names_library, starts_with, next_slash, libc, collect_ranges, in_libraries,
}
use pp_final_project.Ranges.Handler.{in_library, is_lib_lem}

abbrev block : Metadata
block = record { addr = 4096; length = 4096 }

abbrev no_ranges : RangeTable
no_ranges = record { ranges = []; bytes_to_scan = 0 }

-- `rw-p`, without a path, around the block.
abbrev region : Region
region = record { low = 4000; high = 9000; bits = 114 ∷ 119 ∷ 45 ∷ 112 ∷ []; path = [] }

around_block :
    collect_ranges 5 (block ∷ []) region no_ranges
    ≡ done (record {
      ranges = record { low = 4000; high = 4096 } ∷ record { low = 8192; high = 9000 } ∷ [];
      bytes_to_scan = 904;
    })
unfolding collect_ranges in_libraries is_lib starts_with subrange_loop metadata_break_range break_at
    advance advance_low cut_high add_subrange split_loop add_range
around_block = refl

-- `/x/libc-`
abbrev libc_path : List ℕ
libc_path = 47 ∷ 120 ∷ 47 ∷ 108 ∷ 105 ∷ 98 ∷ 99 ∷ 45 ∷ []

-- A directory whose name begins so counts as the library: `/x/libc-/y`.
directory_too : is_lib libc (libc_path ++ 47 ∷ 121 ∷ []) ≡ done true
unfolding is_lib lib_loop names_library starts_with next_slash
directory_too = refl

abbrev stacks : List UserStack
stacks =
    record { stack_is_ours = false; user_stack_low = 16; user_stack_high = 32 }
    ∷ record { stack_is_ours = true; user_stack_low = 64; user_stack_high = 96 }
    ∷ []

is_lib_lem_example : is_lib libc libc_path ≡ done (in_library libc libc_path)
is_lib_lem_example = is_lib_lem libc libc_path

few : 0 + 1 ≤ 65536
few = omega arith
