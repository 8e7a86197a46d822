-- ===== src/Writing/Log.antt =====
-- core/hivewrt.cpp, `HvpWriteLog` and `HvpTruncateLog`. The log has 512 bytes of the base block, a
-- signature, a byte for each block that says whether it is dirty, and the dirty blocks in order.
use ntreg.Base.{
  ℕ, zero, suc, ◌+◌, ◌-◌, ◌*◌, ◌/◌, ◌%◌, ulong, Bool, true, false, not, ltb, leb, ◌==◌,
  if◌then◌else◌, Option, none, some, add32,
}
use ntreg.Base.Word.{Word, ones}
use ntreg.Cells.State.{Hive}
use ntreg.Header.Checksum.{zero_word}
use ntreg.Writing.File.{
  BaseBlock, bits, bytes, words, file_write, file_flush, succeeded, failed, stuck, Operation, ◌>>◌,
  with_base, Answers, issue, write_base, block_bytes, begin_write, end_write, log_file, seal,
}
use ntreg.Writing.Primary.{next_block}

-- ROUND_UP(sizeof(ULONG) + SizeOfBitMap, HSECTOR_SIZE), as a size_t that is cut to 32 bits, behind
-- the header.
unfoldable pub log_buffer_size : Hive → ℕ
log_buffer_size h = add32 512 ((4 + h.dirty_vector.size + 511) / 512 * 512 % ulong)

-- The blocks that the loop over the dirty vector marks.
unfoldable pub mark_blocks : ℕ → Hive → (index : ℕ) → (ℕ → Bool) → Option (ℕ → Bool)
mark_blocks zero h index marks = none
mark_blocks (suc f) h index marks =
    if leb h.stable_storage.length index then some marks else elim (next_block h index) [
      | none ↦ some marks
      | some at ↦ mark_blocks f h (add32 at 1) (λ i. if i == at then true else marks i)
    ]

-- HV_LOG_DIRTY_SIGNATURE, "DIRT"
abbrev pub log_dirty_signature : ℕ
log_dirty_signature = 0x5452_4944

unfoldable pub log_header : BaseBlock → (ℕ → Bool) → ℕ → Word
log_header b marks k =
    if ltb k 512
    then bytes (words b) k
    else if ltb k 516
    then bytes (λ n. bits log_dirty_signature) (k - 512)
    else if marks (k - 516)
    then ones
    else zero_word

module _ (accepts : Answers) where
  unfoldable pub log_blocks : ℕ → (offset index : ℕ) → Operation
  log_blocks zero offset index s = stuck
  log_blocks (suc f) offset index s =
      if leb s.hive.stable_storage.length index
      then succeeded s
      else elim (next_block s.hive index) [
        | none ↦ succeeded s
        | some at ↦
            (issue accepts (file_write log_file offset (block_bytes s at) 4096)
                >> log_blocks f (add32 offset 4096) (add32 at 1))
              s
      ]

  -- The header and the marks, in the buffer that was allocated.
  unfoldable pub write_log_header : Operation
  write_log_header s = elim (mark_blocks (s.hive.stable_storage.length + 1) s.hive 0 (λ i. false)) [
    | none ↦ stuck
    | some marks ↦
        issue accepts
          (file_write log_file 0 (log_header s.base_block marks) (log_buffer_size s.hive)) s
  ]

  -- `allocates` is the answer of the allocation callback, by the size.
  unfoldable pub write_log : (allocates : ℕ → Bool) → Operation
  write_log allocates s =
      if not (s.base_block.sequence1 == s.base_block.sequence2)
      then failed s
      else if not (allocates (log_buffer_size s.hive))
      then failed s
      else (with_base (begin_write log_file)
            >> write_log_header
            >> log_blocks (s.hive.stable_storage.length + 1) (log_buffer_size s.hive) 0
            >> issue accepts (file_flush log_file)
            >> with_base end_write
            >> write_base accepts log_file 512
            >> issue accepts (file_flush log_file))
          s

  -- HV_HBLOCK_SIGNATURE and HBASE_FORMAT_MEMORY, with the sequence numbers of the hive.
  unfoldable pub empty_header : BaseBlock → BaseBlock
  empty_header b = seal (record {
    signature = 0x6667_6572;
    sequence1 = b.sequence1;
    sequence2 = b.sequence2;
    time_stamp = 0;
    major = 0;
    minor = 0;
    file_type = log_file;
    format = 1;
    cluster = 0;
    check_sum = zero_word;
    other = λ n. zero_word;
  })

  unfoldable pub truncate_log : Operation
  truncate_log s =
      if not s.log
      then succeeded s
      else (issue accepts (file_write log_file 0 (bytes (words (empty_header s.base_block))) 4096)
            >> issue accepts (file_flush log_file))
          s
