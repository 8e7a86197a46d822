-- ===== src/Cells/Bin.antt =====
-- core/hivebin.cpp, `HvpAddBin`: a hive grows by a bin, a run of blocks behind the last one. What the
-- allocations return is an argument: an address, or 0 for NULL; and the words of memory, if any.
pub mod Growth
use ntreg.Base.{
  ℕ, ◌+◌, ◌-◌, ◌*◌, ◌/◌, ◌%◌, Bool, true, false, Option, none, some, not, ◌&&◌, ◌||◌, ltb, leb,
  ◌==◌, if◌then◌else◌, ulong, add32,
}
use ntreg.Bitmap.State.{Buffer, Bitmap, initialize_bitmap}
use ntreg.Bitmap.Ranges.{set_bits}
use ntreg.Cells.State.{StorageType, stable, volatile, Storage, Hive, storage}

-- ROUND_UP(a, b)
abbrev pub round_up : ℕ → ℕ → ℕ
round_up a b = (a + b - 1) / b * b

-- The header of a bin takes 32 bytes.
abbrev pub bin_size_of : ℕ → ℕ
bin_size_of size = round_up (size + 32) 4096 % ulong

-- What is written to the bin: FileOffset and Size in its header, and the size of its free cell.
pub record Bin : Type 0 where
  pub address : ℕ
  pub file_offset : ℕ
  pub size : ℕ
  pub free_size : ℕ

-- A new bin; NULL, with the hive as it was; or an access through NULL.
pub data Growing : Type 0 where
  added : Hive → Bin → Growing
  refused : Hive → Growing
  fault : Growing

-- The new list of blocks: the entries of the old one, and those of the bin.
unfoldable pub extend_blocks : Storage → (bin count : ℕ) → Storage
extend_blocks s bin count = record {
  length = add32 s.length count;
  block_address = λ b.
      if leb s.length b && ltb b (s.length + count)
      then bin + (b - s.length) * 4096
      else s.block_address b;
  bin_address = λ b. if leb s.length b && ltb b (s.length + count) then bin else s.bin_address b;
}

-- New memory with zeros for the given number of bytes, then the whole bytes of the old bitmap.
unfoldable pub copy_bitmap : Bitmap → (bytes : ℕ) → (fresh : Buffer) → Buffer
copy_bitmap d bytes fresh m i =
    if ltb (4 * m + i / 8) (d.size / 8)
    then d.buffer m i
    else if ltb (4 * m + i / 8) bytes
    then false
    else fresh m i

-- The dirty vector, for a number of blocks; none for an access through NULL.
unfoldable pub extend_bitmap : Bitmap → (length : ℕ) → (memory : Option Buffer) → Option Bitmap
extend_bitmap d length memory =
    let bytes = round_up length 32 / 8 in
    if ltb (d.size / 8) bytes
    then (elim memory [
      | none ↦ none
      | some fresh ↦ some (initialize_bitmap (copy_bitmap d bytes fresh) (bytes * 8))
    ])
    else some d

-- The part that is for the stable storage only.
unfoldable pub mark_bin : Option Bitmap → Hive → Bin → Growing
mark_bin none h bin = fault
mark_bin (some d) h bin =
    added
      (record h {
        dirty_vector = set_bits d (bin.file_offset / 4096) (bin.size / 4096);
        base_length = add32 h.base_length bin.size;
      })
      bin

unfoldable pub add_bin :
    (address : ℕ) (has_list : Bool) (memory : Option Buffer)
    → Hive
    → (size : ℕ) → StorageType
    → Growing
add_bin address has_list memory h size t =
    let old = storage h t in
    let bin_size = bin_size_of size in
    let blocks = extend_blocks old address (bin_size / 4096) in
    let bin : Bin = record {
      address = address;
      file_offset = old.length * 4096 % ulong;
      size = bin_size;
      free_size = bin_size - 32;
    } in
    if address == 0 || not has_list then refused h else elim t [
      | stable ↦
          mark_bin (extend_bitmap h.dirty_vector blocks.length memory)
            (record h { stable_storage = blocks }) bin
      | volatile ↦ added (record h { volatile_storage = blocks }) bin
    ]
