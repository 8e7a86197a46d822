-- ===== src/Writing/Primary.antt =====
-- core/hivewrt.cpp, `HvpWriteHive`: the base block with its first sequence number ahead, the blocks,
-- and the base block with both numbers equal again. The block loop is given one round more than
-- the storage has blocks.
use ntreg.Base.{
  ℕ, zero, suc, ◌+◌, ◌*◌, ◌%◌, Bool, not, ◌||◌, ltb, leb, ◌==◌, if◌then◌else◌, Option, none, some,
  add32, ulong,
}
use ntreg.Bitmap.Find.{position, max_index, find_set_bits}
use ntreg.Cells.State.{Hive}
use ntreg.Writing.File.{
  file_write, file_flush, succeeded, failed, stuck, Operation, ◌>>◌, with_base, Answers, issue,
  write_base, block_bytes, begin_write, end_write, primary_file,
}

-- The next dirty block, unless the search has come to the end or turned round.
unfoldable pub next_block : Hive → ℕ → Option ℕ
next_block h last =
    let index = position (find_set_bits h.dirty_vector 1 last) in
    if index == max_index || ltb index last then none else some index

abbrev pub block_offset : ℕ → ℕ
block_offset i = (i + 1) * 4096 % ulong

module _ (accepts : Answers) where
  unfoldable pub write_blocks : ℕ → (only_dirty : Bool) → (file index : ℕ) → Operation
  write_blocks zero only_dirty file index s = stuck
  write_blocks (suc f) only_dirty file index s =
      if leb s.hive.stable_storage.length index
      then succeeded s
      else elim (if only_dirty then next_block s.hive index else some index) [
        | none ↦ succeeded s
        | some at ↦
            (issue accepts (file_write file (block_offset at) (block_bytes s at) 4096)
                >> write_blocks f only_dirty file (add32 at 1))
              s
      ]

  unfoldable pub write_hive : (only_dirty : Bool) → (file : ℕ) → Operation
  write_hive only_dirty file s =
      if not (s.base_block.sequence1 == s.base_block.sequence2)
      then failed s
      else (with_base (begin_write primary_file)
            >> write_base accepts file 4096
            >> write_blocks (s.hive.stable_storage.length + 1) only_dirty file 0
            >> issue accepts (file_flush file)
            >> with_base end_write
            >> write_base accepts file 4096
            >> issue accepts (file_flush file))
          s
