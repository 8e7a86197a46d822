-- ===== src/Writing/Ahead.antt =====
-- `HvSyncHive` of core/hivewrt.cpp writes the log ahead of the primary file.
use ntreg.Base.{
  ℕ, ◌+◌, ◌<◌, ◌≡◌, ◌≢◌, refl, sym, inl, inr, ◌⊎◌, Bool, true, false, ◌==◌, if◌then◌else◌, List,
  arith, Bool-cases, ◌∙◌,
}
use mathlib.Core.Path.{subst}
use ntreg.Bitmap.Find.{position, max_index, find_set_bits}
use ntreg.Writing.File.{
  Event, HiveFile, Result, succeeded, failed, stuck, Operation, ◌>>◌, Answers, with_base,
  primary_file, log_file, alternate_file,
}
use ntreg.Writing.Primary.{write_hive}
use ntreg.Writing.Log.{log_buffer_size, write_log}
use ntreg.Writing.Sync.{sync_hive, stamp, clean}
use ntreg.Writing.Blocks.{IsTracked, dirty_blocks}
use ntreg.Writing.Calls.{Made}
use ntreg.Writing.Order.{log_transaction, ended, write_log-Made}
use ntreg.Writing.Contents.{Disk, contents, AreFor, log_calls-AreFor}
use ntreg.Writing.Logged.{Complete, log_transaction-Complete}
use ntreg.Writing.Durable.{Refused-others, WriteOutcome, write_hive-Written}

module _ (disk : Disk) (accepts : Answers) (allocates : ℕ → Bool) (s : HiveFile) where
  -- The primary file is as it was, or the log is complete.
  abbrev pub IsAhead : List Event → Type 0
  IsAhead trace =
      ((p : ℕ)
        → contents accepts disk primary_file trace p ≡ contents accepts disk primary_file s.trace p)
      ⊎ Complete accepts disk s trace

  -- Between two steps behind the log.
  abbrev Ready : HiveFile → Type 0
  Ready t = (t.hive ≡ s.hive) × Complete accepts disk s t.trace

  abbrev pub AheadOutcome : Result → Type 0
  AheadOutcome (succeeded t) = IsAhead t.trace
  AheadOutcome (failed t) = IsAhead t.trace
  AheadOutcome stuck = ⊥

  abbrev Step : Result → Type 0
  Step (succeeded t) = Ready t
  Step (failed t) = IsAhead t.trace
  Step stuck = ⊥

  Step-then :
      (p q : Operation) (t : HiveFile)
      → Step (p t)
      → ((u : HiveFile) → Ready u → Step (q u))
      → Step ((p >> q) t)
  Step-then p q t o more = go (p t) o
    where
      go :
          (r : Result)
          → Step r
          → Step (elim r [ succeeded u ↦ q u | failed u ↦ failed u | stuck ↦ stuck ])
      go (succeeded u) h = more u h
      go (failed u) h = h
      go stuck o = o

  -- What leaves the log leaves it complete.
  Complete-same :
      (t u : List Event)
      → ((p : ℕ) → contents accepts disk log_file u p ≡ contents accepts disk log_file t p)
      → Complete accepts disk s t
      → Complete accepts disk s u
  Complete-same t u same c = record {
    front = λ k small. same k ∙ c.front k small;
    marks = λ i below. same (516 + i) ∙ c.marks i below;
    blocks = λ j k below small. same _ ∙ c.blocks j k below small;
  }

  write_hive-Step :
      (file : ℕ)
      → log_file ≢ file
      → IsTracked s.hive
      → (t : HiveFile) → Ready t
      → Step (write_hive accepts true file t)
  write_hive-Step file apart tracked t (same, c) =
      go _ (write_hive-Written accepts disk file t (subst IsTracked (sym same) tracked))
    where
      go : (r : Result) → WriteOutcome accepts disk file t r → Step r
      go (succeeded u) w =
          (w.same_hive ∙ same, Complete-same t.trace u.trace (λ p. w.others log_file p apart) c)
      go (failed u) (_, _, others, _) =
          inr (Complete-same t.trace u.trace (λ p. others log_file p apart) c)
      go stuck o = o

  write_log-Step :
      IsTracked s.hive
      → s.hive.dirty_vector.size < 0x4000_0000
      → Step (write_log accepts allocates s)
  unfolding write_log
  write_log-Step tracked bounded =
      elim (Bool-cases (s.base_block.sequence1 == s.base_block.sequence2)) [
        | inr differ ↦ rw differ (inl (λ p. refl))
        | inl same ↦ elim (Bool-cases (allocates (log_buffer_size s.hive))) [
          | inr refused ↦ rw (same, refused) (inl (λ p. refl))
          | inl memory ↦ go _ (write_log-Made accepts allocates s tracked (ground arith) memory)
        ]
      ]
    where
      for_log : AreFor log_file (log_transaction s)
      for_log = (refl, log_calls-AreFor s _ (dirty_blocks s.hive) _ (refl, (refl, (refl, tt))))

      go : (r : Result) → Made accepts (log_transaction s) (ended log_file s) s r → Step r
      go (succeeded t) (e, all) =
          subst Ready (sym e) (refl, log_transaction-Complete accepts disk s tracked bounded all)
      go (failed t) r = inl (λ p.
          Refused-others accepts disk log_file (log_transaction s) s t for_log r primary_file p
            (λ e. omega arith))
      go stuck o = o

  copy_step :
      IsTracked s.hive
      → (t : HiveFile) → Ready t
      → Step (if t.alternate then write_hive accepts true alternate_file t else succeeded t)
  copy_step tracked t ready = go t.alternate
    where
      go : (b : Bool) → Step (if b then write_hive accepts true alternate_file t else succeeded t)
      go true = write_hive-Step alternate_file (λ e. omega arith) tracked t ready
      go false = ready

-- The hive with the time of a sync.
abbrev pub started : ℕ → HiveFile → HiveFile
started now s = record s { base_block = stamp now s.base_block }

-- Wherever a sync with a log stops, at its end or at any call that is refused, the primary file is as
-- it was before, or the log is complete: it has the base block with the final sequence numbers, a
-- mark for each dirty block and none for a clean one, and all dirty blocks as they are in memory.
-- The dirty vector has fewer than 2 ^ 30 bits.
pub sync_hive-IsAhead :
    (disk : Disk) (accepts : Answers) (allocates : ℕ → Bool) (now : ℕ) (s : HiveFile)
    → IsTracked s.hive
    → s.hive.dirty_vector.size < 0x4000_0000
    → s.log ≡ true
    → AheadOutcome disk accepts allocates (started now s) (sync_hive accepts allocates now s)
unfolding sync_hive with_base clean
sync_hive-IsAhead disk accepts allocates now s tracked bounded logged =
    go s.is_volatile (position (find_set_bits s.hive.dirty_vector 1 0) == max_index)
  where
    log_step : HiveFile → Result
    log_step t = if t.log then write_log accepts allocates t else succeeded t

    copied : HiveFile → Result
    copied t = if t.alternate then write_hive accepts true alternate_file t else succeeded t

    first : Step disk accepts allocates (started now s) (log_step (started now s))
    first = with_log s.log logged
      where
        with_log :
            (b : Bool)
            → b ≡ true
            → Step disk accepts allocates (started now s) (
                if b
                then write_log accepts allocates (started now s)
                else succeeded (started now s))
        with_log true e = write_log-Step disk accepts allocates (started now s) tracked bounded
        with_log false e = cc

    steps :
        Step disk accepts allocates
          (started now s)
          ((log_step >> write_hive accepts true primary_file >> copied) (started now s))
    steps =
        Step-then disk accepts allocates (started now s)
          (log_step >> write_hive accepts true primary_file) copied (started now s)
          (Step-then disk accepts allocates (started now s) log_step
            (write_hive accepts true primary_file) (started now s) first
            (write_hive-Step disk accepts allocates (started now s) primary_file (λ e. omega arith)
              tracked))
          (copy_step disk accepts allocates (started now s) tracked)

    cleaned :
        (r : Result)
        → Step disk accepts allocates (started now s) r
        → AheadOutcome disk accepts allocates
            (started now s)
            (elim r [ succeeded t ↦ clean t | failed t ↦ failed t | stuck ↦ stuck ])
    cleaned (succeeded t) (same, c) = inr c
    cleaned (failed t) h = h
    cleaned stuck o = o

    go :
        (v w : Bool)
        → AheadOutcome disk accepts allocates (started now s) (
            if v
            then succeeded s
            else if w
            then succeeded s
            else (with_base (stamp now)
                  >> log_step
                  >> write_hive accepts true primary_file
                  >> copied
                  >> clean)
                s)
    go true w = inl (λ p. refl)
    go false true = inl (λ p. refl)
    go false false = cleaned _ steps
