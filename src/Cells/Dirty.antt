-- ===== src/Cells/Dirty.antt =====
-- core/hivecell.cpp: `HvMarkCellDirty` and `HvIsCellDirty`. A stable cell is dirty by the bit of its
-- block in the dirty vector; the lazy flush is commented out in the source.
pub mod Laws
use ntreg.Base.{ℕ, ◌+◌, ◌/◌, Bool, true, false, ◌==◌, if◌then◌else◌, add32, sub32}
use ntreg.Bitmap.State.{test_bit}
use ntreg.Bitmap.Ranges.{set_bits}
use ntreg.Cells.State.{Hive, stable, volatile, cell_type, cell_block}

unfoldable pub mark_cell_dirty : Hive → ℕ → Hive
mark_cell_dirty h c =
    let first = cell_block c in
    let last = cell_block (add32 c 4095) in
    elim (cell_type c) [
      | stable ↦ record h {
        dirty_vector = set_bits h.dirty_vector first (sub32 last first);
        dirty_count = add32 h.dirty_count 1;
      }
      | volatile ↦ h
    ]

unfoldable pub is_cell_dirty : Hive → ℕ → Bool
is_cell_dirty h c = elim (cell_type c) [
  | stable ↦ test_bit h.dirty_vector (c / 4096)
  | volatile ↦ true
]
