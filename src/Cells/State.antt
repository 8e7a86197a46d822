-- ===== src/Cells/State.antt =====
-- include/hivedata.hpp and core/hivecell.cpp: the state of a hive as far as its cells go, and how a
-- cell index names a place in memory. A storage is a list of blocks of 4096 bytes; an address is a
-- number, and NULL is 0.
use ntreg.Base.{ℕ, ◌+◌, ◌/◌, ◌%◌, ◌^◌, Bool, true, false, not, leb, ◌==◌, if◌then◌else◌}
use ntreg.Bitmap.State.{Bitmap}

pub data StorageType : Type 0 where
  stable volatile : StorageType

-- A `DUAL`: Length, and the two addresses in each entry of BlockList.
pub record Storage : Type 0 where
  pub length : ℕ
  pub block_address : ℕ → ℕ
  pub bin_address : ℕ → ℕ

pub record Hive : Type 0 where
  pub flat : Bool
  pub base_block : ℕ
  -- `BaseBlock->Length`
  pub base_length : ℕ
  pub stable_storage : Storage
  pub volatile_storage : Storage
  pub dirty_vector : Bitmap
  pub dirty_count : ℕ

abbrev pub storage : Hive → StorageType → Storage
storage h stable = h.stable_storage
storage h volatile = h.volatile_storage

-- `HvGetCellType`, `HvGetCellBlock` and the offset in the block: bit 31, bits 30 to 12 and the rest.
abbrev pub cell_type : ℕ → StorageType
cell_type c = if c / 2 ^ 31 % 2 == 0 then stable else volatile

abbrev pub cell_block : ℕ → ℕ
cell_block c = c / 4096 % 2 ^ 19

abbrev pub cell_offset : ℕ → ℕ
cell_offset c = c % 4096

-- The address of the header of a cell.
unfoldable pub cell_header : Hive → ℕ → ℕ
cell_header h c =
    if h.flat
    then h.base_block + 4096 + c
    else (storage h (cell_type c)).block_address (cell_block c) + cell_offset c

-- The address of its data, behind a header of four bytes.
unfoldable pub cell_data : Hive → ℕ → ℕ
cell_data h c = cell_header h c + 4

unfoldable pub is_cell_allocated : Hive → ℕ → Bool
is_cell_allocated h c =
    let s = storage h (cell_type c) in
    if h.flat
    then true
    else if leb s.length (cell_block c)
    then false
    else not (s.block_address (cell_block c) == 0)
