-- ===== src/Buffer/Defs.antt =====
-- The struct of forkscan-changed/buffer.h.
use pp_final_project.Prelude.{ℕ, Bool, List, Option}

-- `addr_buffer_t`. The arrays are the memory that the buffer owns; `next` is the number of another
-- buffer, or none for NULL. `sibling_mode`, `completed_children`, `more_marking_tbd`,
-- `cutoff_reached` and `round` are only ever stored, never read, and have no field.
pub record AddrBuffer : Type 0 where
  pub next : Option ℕ
  pub addrs : List ℕ
  pub minimap : List ℕ
  pub is_aggregate : Bool
  pub n_addrs : ℕ
  pub n_minimap : ℕ
  pub capacity : ℕ
  pub root_counter : ℕ
  pub roots_completed : ℕ
  pub ref_count : ℕ
  pub free_idx : ℕ
