-- ===== src/Examples/HiveCells.antt =====
-- core/hivecell.cpp at a hive of two blocks, and at a few references.
use ntreg.Base.{
  ℕ, ◌+◌, ◌*◌, ◌≤◌, ◌<◌, ◌≡◌, refl, true, false, not, ◌&&◌, ◌==◌, if◌then◌else◌, some, none, arith,
}
use ntreg.Cells.State.{Hive, cell_block, cell_offset}
use ntreg.Cells.Dirty.{mark_cell_dirty, is_cell_dirty}
use ntreg.Cells.Dirty.Laws.{is_cell_dirty-mark_cell_dirty}
use ntreg.Cells.FreeIndex.{compute_free_list_index}
use ntreg.Cells.FreeIndex.Order.{compute_free_list_index_ordered}
use ntreg.Cells.Refs.{Pair, TrackCellRef, track_cell_ref, release_free_cell_ref_array}
use ntreg.Cells.Refs.Laws.{
  IsTracking, Appended, Released, track_cell_ref-Appended, release_free_cell_ref_array_lem,
}

compute_free_list_index_ordered_example :
    (compute_free_list_index 136 ≤ compute_free_list_index 4000)
    × (compute_free_list_index 4000 < 24)
compute_free_list_index_ordered_example =
    compute_free_list_index_ordered 136 4000 (omega arith) (omega arith) (omega arith)

abbrev pair : ℕ → Pair
pair c = record { hive = 1; cell = c }

-- The static array is full, the dynamic one does not exist.
abbrev four : TrackCellRef
four = record {
  count = 0;
  max = 0;
  cell_array = none;
  static_array = λ i. pair i;
  static_count = 4;
}

four-IsTracking : IsTracking four
four-IsTracking = record {
  in_static = omega arith;
  in_array = omega arith;
  static_first = λ p. refl;
  used = λ p. p;
  freed = λ e. refl;
  allocated = λ p. absurd (omega arith);
}

track_cell_ref-Appended_example :
    Appended four (pair 9) (track_cell_ref (some (λ i. pair 0)) four (pair 9))
track_cell_ref-Appended_example =
    track_cell_ref-Appended (some (λ i. pair 0)) four (pair 9) four-IsTracking (omega arith)

release_free_cell_ref_array_lem_example : Released four (release_free_cell_ref_array four)
release_free_cell_ref_array_lem_example = release_free_cell_ref_array_lem four four-IsTracking

-- Two blocks of one bin, at 0x8000 in memory, both clean.
abbrev pub two_blocks : Hive
two_blocks = record {
  flat = false;
  base_block = 0x4000;
  base_length = 0x2000;
  stable_storage = record {
    length = 2;
    block_address = λ b. 0x8000 + 4096 * b;
    bin_address = λ b. 0x8000;
  };
  volatile_storage = record { length = 0; block_address = λ b. 0; bin_address = λ b. 0 };
  dirty_vector = record { size = 32; buffer = λ w i. false };
  dirty_count = 0;
}

is_cell_dirty-mark_cell_dirty_example : is_cell_dirty (mark_cell_dirty two_blocks 0x20) 0x40 ≡ (
    if (cell_block 0x40 == cell_block 0x20) && not (cell_offset 0x20 == 0)
    then true
    else is_cell_dirty two_blocks 0x40)
is_cell_dirty-mark_cell_dirty_example =
    is_cell_dirty-mark_cell_dirty two_blocks 0x20 0x40 (omega arith) (omega arith)
