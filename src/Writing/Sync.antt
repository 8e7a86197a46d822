-- ===== src/Writing/Sync.antt =====
-- core/hivewrt.cpp: `HvSyncHive`, `HvWriteHive`, `HvWriteAlternateHive`, `HvSyncHiveFromRecover` and
-- `HvHiveWillShrink`. The system time is a number that the caller supplies.
use ntreg.Base.{ℕ, Bool, true, false, ◌==◌, if◌then◌else◌}
use ntreg.Bitmap.State.{clear_all_bits}
use ntreg.Bitmap.Find.{position, max_index, find_set_bits}
use ntreg.Writing.File.{
  BaseBlock, succeeded, failed, stuck, Operation, ◌>>◌, with_base, Answers, primary_file,
  alternate_file,
}
use ntreg.Writing.Primary.{write_hive}
use ntreg.Writing.Log.{write_log, truncate_log}

-- KeQuerySystemTime(&BaseBlock->TimeStamp)
abbrev pub stamp : ℕ → BaseBlock → BaseBlock
stamp now b = record b { time_stamp = now }

-- Nothing is dirty any more.
unfoldable pub clean : Operation
clean s = succeeded (record s {
  hive = record s.hive { dirty_vector = clear_all_bits s.hive.dirty_vector; dirty_count = 0 };
})

module _ (accepts : Answers) where
  unfoldable pub sync_hive : (allocates : ℕ → Bool) → (now : ℕ) → Operation
  sync_hive allocates now s =
      if s.is_volatile
      then succeeded s
      else if position (find_set_bits s.hive.dirty_vector 1 0) == max_index
      then succeeded s
      else (with_base (stamp now)
            >> (λ t. if t.log then write_log accepts allocates t else succeeded t)
            >> write_hive accepts true primary_file
            >> (λ t. if t.alternate then write_hive accepts true alternate_file t else succeeded t)
            >> clean)
          s

  unfoldable pub write_whole_hive : (now : ℕ) → Operation
  write_whole_hive now = with_base (stamp now) >> write_hive accepts false primary_file

  unfoldable pub write_alternate_hive : (now : ℕ) → Operation
  write_alternate_hive now = with_base (stamp now) >> write_hive accepts false alternate_file

  -- What the truncation of the log returns is not looked at.
  unfoldable pub sync_hive_from_recover : Operation
  sync_hive_from_recover s = elim (write_hive accepts true primary_file s) [
    | succeeded t ↦ elim (truncate_log accepts t) [
      | succeeded u ↦ succeeded u
      | failed u ↦ succeeded u
      | stuck ↦ stuck
    ]
    | failed t ↦ failed t
    | stuck ↦ stuck
  ]
