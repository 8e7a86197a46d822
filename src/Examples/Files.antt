-- ===== src/Examples/Files.antt =====
-- core/hivewrt.cpp at a hive of three blocks, the second of which is dirty.
use ntreg.Base.{◌+◌, ◌*◌, refl, true, false, ◌&&◌, ◌==◌, [], arith, not, length}
use ntreg.Cells.State.{Hive, Storage}
use ntreg.Writing.File.{BaseBlock, HiveFile, Answers, bits, primary_file, log_file, alternate_file}
use ntreg.Writing.Primary.{write_hive}
use ntreg.Writing.Sync.{sync_hive}
use ntreg.Writing.Blocks.{IsTracked}
use ntreg.Writing.Calls.{Made}
use ntreg.Writing.Log.{write_log}
use ntreg.Writing.Order.{log_transaction, ended, write_log-Made}
use ntreg.Writing.Ahead.{AheadOutcome, started, sync_hive-IsAhead}
use ntreg.Writing.Contents.{Disk}
use ntreg.Writing.Durable.{WriteOutcome, write_hive-Written}
use ntreg.Writing.Torn.{SafeOutcome, write_hive-IsSafe}
use ntreg.Header.Verify.{is_format_known}
use ntreg.Writing.Verified.{VerifiedOutcome, write_hive-Verified}

abbrev blocks : Storage
blocks = record { length = 3; block_address = λ i. (i + 1) * 4096; bin_address = λ i. 4096 }

abbrev hive : Hive
hive = record {
  flat = false;
  base_block = 0;
  base_length = 12288;
  stable_storage = blocks;
  volatile_storage = record { length = 0; block_address = λ i. 0; bin_address = λ i. 0 };
  dirty_vector = record { size = 8; buffer = λ n i. (n == 0) && (i == 1) };
  dirty_count = 1;
}

abbrev pub base : BaseBlock
base = record {
  signature = 0x6667_6572;
  sequence1 = 7;
  sequence2 = 7;
  time_stamp = 0;
  major = 1;
  minor = 5;
  file_type = 0;
  format = 1;
  cluster = 1;
  check_sum = λ i. false;
  other = λ n i. false;
}

abbrev sample : HiveFile
sample = record {
  hive = hive;
  base_block = base;
  memory = λ p. bits p;
  is_volatile = false;
  log = true;
  alternate = true;
  trace = [];
}

abbrev disk : Disk
disk = record { before = λ file p. bits p; torn = λ trace call p. bits (p + 1) }

-- The third call is refused.
abbrev third_refused : Answers
third_refused before call = not (length before == 2)

sample-IsTracked : IsTracked hive
sample-IsTracked = record {
  few = omega arith;
  small = omega arith;
  fits = omega arith;
  outside = λ n above below. ground arith;
}

write_log-Made_example :
    Made third_refused
      (log_transaction sample)
      (ended log_file sample)
      sample
      (write_log third_refused (λ n. true) sample)
write_log-Made_example = write_log-Made third_refused (λ n. true) sample sample-IsTracked refl refl

sync_hive-IsAhead_example :
    AheadOutcome disk third_refused
      (λ n. true)
      (started 5 sample)
      (sync_hive third_refused (λ n. true) 5 sample)
sync_hive-IsAhead_example =
    sync_hive-IsAhead disk third_refused (λ n. true) 5 sample sample-IsTracked (omega arith) refl

write_hive-Written_example :
    WriteOutcome third_refused disk primary_file sample
      (write_hive third_refused true primary_file sample)
write_hive-Written_example =
    write_hive-Written third_refused disk primary_file sample sample-IsTracked

write_hive-IsSafe_example :
    SafeOutcome third_refused disk primary_file sample
      (write_hive third_refused true primary_file sample)
write_hive-IsSafe_example =
    write_hive-IsSafe third_refused disk primary_file sample sample-IsTracked (omega arith)

write_hive-Verified_example :
    VerifiedOutcome third_refused disk alternate_file primary_file 4096 sample
      (write_hive third_refused true alternate_file sample)
    × VerifiedOutcome third_refused disk log_file log_file 512 sample
        (write_log third_refused (λ n. true) sample)
unfolding is_format_known
write_hive-Verified_example =
    write_hive-Verified third_refused disk alternate_file (λ n. true) sample sample-IsTracked refl
      refl refl
