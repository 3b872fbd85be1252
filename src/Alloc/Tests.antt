-- ===== src/Alloc/Tests.antt =====
-- Runs of forkscan-changed/alloc.c, and the theorems about it at concrete inputs.
use pp_final_project.Prelude.{
  ℕ, suc, ◌*◌, Bool, true, Option, some, ◌>>=◌, ◌≡◌, refl, List, [], ◌∷◌, done, Returns, inl, inr,
  arith,
}
use pp_final_project.Alloc.Defs.{
  Metadata, MemRange, metadata_do_insert, insert_before, metadata_break_range, break_at, advance,
  advance_low, cut_high,
}
use pp_final_project.Alloc.Order.{Ordered, Apart}
use pp_final_project.Alloc.Map.{
  chained, dangling, alloc_mmap, alloc_munmap, metadata_new, more_nodes, mmap_wrap, mapped_at,
  metadata_insert, take_node, metadata_remove, remove_from, find_node,
}
use pp_final_project.Alloc.RoundTrip.{alloc_mmap-alloc_munmap}
use pp_final_project.Alloc.Subrange.{Subrange, metadata_break_range-Subrange}

abbrev low_block : Metadata
low_block = record { addr = 100; length = 50 }

abbrev high_block : Metadata
high_block = record { addr = 300; length = 100 }

abbrev middle_block : Metadata
middle_block = record { addr = 200; length = 20 }

abbrev blocks : List Metadata
blocks = low_block ∷ high_block ∷ []

abbrev big : MemRange
big = record { low = 120; high = 500 }

inserts_between :
    metadata_do_insert middle_block blocks ≡ done (low_block ∷ middle_block ∷ high_block ∷ [])
unfolding metadata_do_insert insert_before
inserts_between = refl

breaks_off :
    metadata_break_range blocks big
    ≡ done (record { low = 150; high = 300 }, record { low = 300; high = 500 })
unfolding metadata_break_range break_at advance advance_low cut_high
breaks_off = refl

blocks-Ordered : Ordered 0 blocks
blocks-Ordered = (omega arith, omega arith, (omega arith, omega arith, tt))

middle-Apart : Apart middle_block blocks
middle-Apart = (inl (omega arith), (inr (omega arith), tt))

metadata_break_range-Subrange_example :
    Returns (metadata_break_range blocks big) (λ r. Subrange blocks big r.0 r.1)
metadata_break_range-Subrange_example =
    metadata_break_range-Subrange 0 low_block (high_block ∷ []) big blocks-Ordered (omega arith)

-- The system places the new block behind the others.
abbrev next_page : ℕ → Option ℕ
next_page n = some (4096 * suc n)

abbrev allowed : ℕ → ℕ → Bool
allowed addr length = true

alloc_mmap-alloc_munmap_example :
    (alloc_mmap next_page allowed 4096
        (record { alloc_list = chained blocks; free_nodes = 3; calls = 0 })
      >>= λ r. alloc_munmap next_page allowed r.1 r.0)
    ≡ done (record { alloc_list = chained blocks; free_nodes = 3; calls = 1 })
alloc_mmap-alloc_munmap_example =
    alloc_mmap-alloc_munmap next_page allowed 4096 4096 2 0 low_block (high_block ∷ []) refl
      (omega arith) (omega arith) refl blocks-Ordered (inl (omega arith), (inl (omega arith), tt))
      refl

-- The first call maps a block of nodes as well.
first_mmap :
    alloc_mmap next_page allowed 8192
      (record { alloc_list = chained []; free_nodes = 0; calls = 0 })
    ≡ done (
      record {
        alloc_list =
            chained
              (record { addr = 4096; length = 4096 } ∷ record { addr = 8192; length = 8192 } ∷ []);
        free_nodes = 100;
        calls = 2;
      },
      8192,
    )
unfolding alloc_mmap metadata_new more_nodes mmap_wrap mapped_at metadata_insert take_node
    metadata_do_insert insert_before
first_mmap = refl

-- If the only block is removed, the list keeps pointing to its node.
only_block :
    metadata_remove 100
      (record { alloc_list = chained (low_block ∷ []); free_nodes = 0; calls = 0 })
    ≡ done (record { alloc_list = dangling; free_nodes = 0; calls = 0 }, low_block)
unfolding metadata_remove remove_from find_node
only_block = refl
