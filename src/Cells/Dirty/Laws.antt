-- ===== src/Cells/Dirty/Laws.antt =====
-- Which cells are dirty after one was marked.
use ntreg.Base.{ℕ, ◌+◌, ◌/◌, ◌<◌, ◌≡◌, true, not, ◌&&◌, ◌==◌, if◌then◌else◌, add32, sub32, arith}
use ntreg.Bitmap.Ranges.Laws.{test_bit-set_bits}
use ntreg.Cells.State.{Hive, cell_block, cell_offset}
use ntreg.Cells.Dirty.{mark_cell_dirty, is_cell_dirty}

-- Marking a stable cell makes dirty exactly the cells of the block that it starts in, unless it
-- starts at the beginning of a block: then it makes no cell dirty. Blocks behind the first that
-- the cell reaches into stay as they were.
pub is_cell_dirty-mark_cell_dirty :
    (h : Hive) (c d : ℕ)
    → c + 4095 < 0x8000_0000
    → d < 0x8000_0000
    → is_cell_dirty (mark_cell_dirty h c) d ≡ (
        if (cell_block d == cell_block c) && not (cell_offset c == 0)
        then true
        else is_cell_dirty h d)
unfolding is_cell_dirty mark_cell_dirty
is_cell_dirty-mark_cell_dirty h c d hc hd = ground (
  arith,
  test_bit-set_bits h.dirty_vector (cell_block c) (sub32 (cell_block (add32 c 4095)) (cell_block c))
      (d / 4096),
)
