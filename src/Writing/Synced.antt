-- ===== src/Writing/Synced.antt =====
-- `HvSyncHive` of core/hivewrt.cpp: after it, the files of a hive stand for the hive in memory.
use ntreg.Base.{ℕ, ◌<◌, ◌≡◌, ◌⊎◌, Bool, true, false, if◌then◌else◌}
use ntreg.Bitmap.State.{test_bit}
use ntreg.Writing.File.{HiveFile, succeeded, Operation, Answers, primary_file, alternate_file}
use ntreg.Writing.Primary.{write_hive}
use ntreg.Writing.Log.{write_log}
use ntreg.Writing.Sync.{stamp}
use ntreg.Writing.Contents.{Disk}
use ntreg.Writing.Stages.{Mirrors, Kept}

module _ (accepts : Answers) (disk : Disk) where
  module _ (allocates : ℕ → Bool) (s : HiveFile) where
    record Copied (t : HiveFile) : Type 0 where
      kept : Kept accepts disk allocates s t
      mirrors : Mirrors accepts disk s.hive s.memory primary_file t.trace
      copy : s.alternate ≡ true → Mirrors accepts disk s.hive s.memory alternate_file t.trace

    -- The files stand for the hive in memory, and nothing is dirty.
    pub record Synced (t : HiveFile) : Type 0 where
      pub same_memory : t.memory ≡ s.memory
      pub same_blocks : t.hive.stable_storage ≡ s.hive.stable_storage
      pub mirrors : Mirrors accepts disk t.hive t.memory primary_file t.trace
      pub copy : s.alternate ≡ true → Mirrors accepts disk t.hive t.memory alternate_file t.trace
      pub cleaned : (n : ℕ) → n < t.hive.dirty_vector.size → test_bit t.hive.dirty_vector n ≡ false

  module _ (allocates : ℕ → Bool) (now : ℕ) (s : HiveFile) where
    -- The hive with the time of the sync.
    abbrev started : HiveFile
    started = record s { base_block = stamp now s.base_block }

    abbrev log_step : Operation
    log_step t = if t.log then write_log accepts allocates t else succeeded t

    abbrev copy_step : Operation
    copy_step t = if t.alternate then write_hive accepts true alternate_file t else succeeded t

    abbrev pub Done : HiveFile → Type 0
    Done t = ((s.is_volatile ≡ true) × (t ≡ s)) ⊎ Synced allocates s t
