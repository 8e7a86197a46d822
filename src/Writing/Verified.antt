-- ===== src/Writing/Verified.antt =====
-- The headers that `HvpWriteHive` and `HvpWriteLog` of core/hivewrt.cpp leave, as `HvpVerifyHiveHeader`
-- of core/hiveinit.cpp sees them.
use ntreg.Base.{
  ℕ, ◌+◌, ◌-◌, ◌<◌, ◌≡◌, refl, sym, Bool, true, ◌&&◌, ltb, leb, ◌==◌, List, [], ◌∷◌, ◌++◌, arith,
}
use mathlib.Core.Path.{subst}
use ntreg.Header.Verify.{is_format_known, verify_hive_header}
use ntreg.Header.Verify.Laws.{verify_hive_header-end_write}
use ntreg.Writing.File.{
  Event, file_write, file_flush, bytes, words, HiveFile, Result, succeeded, failed, stuck, Answers,
  primary_file, log_file,
}
use ntreg.Writing.Primary.{write_hive}
use ntreg.Writing.Log.{log_buffer_size, log_header, write_log}
use ntreg.Writing.Blocks.{IsTracked, dirty_blocks}
use ntreg.Writing.Loops.{block_calls, log_calls, dirty_marks}
use ntreg.Writing.Calls.{push-append, after, Made, AreAccepted, AreAccepted-split}
use ntreg.Writing.Order.{begun, ended, write_hive-Made, write_log-Made}
use ntreg.Writing.Contents.{Disk, contents}
use ntreg.Writing.Durable.{IsMatching, LastRefused, Refused-LastRefused}

module _ (accepts : Answers) (disk : Disk) (file kind length : ℕ) (s : HiveFile) where
  -- The start of the file is the base block, which is accepted for one type of file and no other.
  pub record Verified (t : HiveFile) : Type 0 where
    pub front :
        (k : ℕ) → k < length → contents accepts disk file t.trace k ≡ bytes (words t.base_block) k
    pub accepted : (k : ℕ) → verify_hive_header t.base_block k ≡ (kind == k)

  abbrev pub VerifiedOutcome : Result → Type 0
  VerifiedOutcome (succeeded t) = Verified t
  VerifiedOutcome (failed t) = LastRefused accepts t
  VerifiedOutcome stuck = ⊥

  module _ (known : is_format_known s.base_block ≡ true) (matching : IsMatching s.base_block)
      (es : List Event) where
    abbrev closing : List Event
    closing =
        file_flush file
        ∷ file_write file 0 (bytes (words (ended kind s))) length
        ∷ file_flush file
        ∷ []

    closed-Verified :
        AreAccepted accepts (es ++ closing) s.trace
        → Verified (after (ended kind s) (es ++ closing) s)
    closed-Verified all =
        let taken = (AreAccepted-split accepts es closing s.trace all).1 in
        record {
          front = λ k small.
              let hit : (file == file && (leb 0 k && ltb k (0 + length))) ≡ true = ground arith in
              let place : k - 0 ≡ k = omega arith in
              rw (push-append es closing s.trace, hit, place, taken.1.0) refl;
          accepted = λ k. verify_hive_header-end_write s.base_block kind k known matching;
        }

    Made-VerifiedOutcome :
        (r : Result) → Made accepts (es ++ closing) (ended kind s) s r → VerifiedOutcome r
    Made-VerifiedOutcome (succeeded t) (e, all) = subst Verified (sym e) (closed-Verified all)
    Made-VerifiedOutcome (failed t) r =
        let l = Refused-LastRefused accepts (es ++ closing) s t r in l.2
    Made-VerifiedOutcome stuck o = o

-- Writing the dirty blocks of a hive, or its log, ends. If it succeeds, the file begins with the base
-- block, which the verification accepts as that of a primary file, whichever file was written, or,
-- for the log, as that of a log, and as no other type; it fails only if a call was refused. The
-- sequence numbers agree before, the format is known, and there is memory for the log.
pub write_hive-Verified :
    (accepts : Answers) (disk : Disk) (file : ℕ) (allocates : ℕ → Bool) (s : HiveFile)
    → IsTracked s.hive
    → IsMatching s.base_block
    → is_format_known s.base_block ≡ true
    → allocates (log_buffer_size s.hive) ≡ true
    → VerifiedOutcome accepts disk file primary_file 4096 s (write_hive accepts true file s)
      × VerifiedOutcome accepts disk log_file log_file 512 s (write_log accepts allocates s)
write_hive-Verified accepts disk file allocates s tracked matching known memory = (
  Made-VerifiedOutcome accepts disk file primary_file 4096 s known matching
      (file_write file 0 (bytes (words (begun primary_file s))) 4096
        ∷ block_calls file s (dirty_blocks s.hive))
      _ (write_hive-Made accepts file s tracked matching),
  Made-VerifiedOutcome accepts disk log_file log_file 512 s known matching
      (file_write log_file 0 (log_header (begun log_file s) (dirty_marks s.hive))
          (log_buffer_size s.hive)
        ∷ log_calls s (log_buffer_size s.hive) (dirty_blocks s.hive))
      _ (write_log-Made accepts allocates s tracked matching memory),
)
