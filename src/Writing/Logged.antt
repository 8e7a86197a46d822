-- ===== src/Writing/Logged.antt =====
-- What the log contains after `HvpWriteLog` of core/hivewrt.cpp.
use ntreg.Base.{
  ℕ, zero, suc, ◌+◌, ◌-◌, ◌*◌, ◌≤◌, ◌<◌, ◌≡◌, refl, inl, inr, true, false, ◌&&◌, ltb, leb,
  if◌then◌else◌, List, [], ◌∷◌, arith, Bool-cases, ◌∙◌, ulong, add32, length, get_or,
}
use mathlib.Core.Path.{subst}
use ntreg.Base.Word.{ones}
use ntreg.Bitmap.State.{test_bit}
use ntreg.Header.Checksum.{zero_word}
use ntreg.Cells.State.{Hive}
use ntreg.Writing.File.{
  BaseBlock, bytes, words, Event, file_write, file_flush, HiveFile, Answers, block_bytes, log_file,
}
use ntreg.Writing.Log.{log_buffer_size, log_header}
use ntreg.Writing.Blocks.{IsTracked, dirty_blocks, dirty_from}
use ntreg.Writing.Calls.{push, push-append, AreAccepted, AreAccepted-split}
use ntreg.Writing.Loops.{log_calls, dirty_marks}
use ntreg.Writing.Order.{log_transaction, begun, ended}
use ntreg.Writing.Contents.{Disk, contents, AreWithin, contents-outside}

length-dirty_from : (h : Hive) (n j : ℕ) → length (dirty_from h n j) ≤ n
unfolding dirty_from
length-dirty_from h zero j = omega arith
length-dirty_from h (suc n) j = elim (Bool-cases (test_bit h.dirty_vector j)) [
  | inl set ↦ rw set (omega (arith, length-dirty_from h n (j + 1)))
  | inr clear ↦ rw clear (omega (arith, length-dirty_from h n (j + 1)))
]

log_calls-AreWithin :
    (s : HiveFile) (offset : ℕ) (is : List ℕ) (lo : ℕ)
    → lo ≤ offset
    → offset + 4096 * length is < ulong
    → AreWithin lo ulong (log_calls s offset is)
log_calls-AreWithin s offset [] lo le few = tt
log_calls-AreWithin s offset (i ∷ is) lo le few =
    let next : add32 offset 4096 ≡ offset + 4096 = omega arith in
    (
      le,
      omega arith,
      rw next (log_calls-AreWithin s (offset + 4096) is lo (omega arith) (omega arith)),
    )

module _ (accepts : Answers) (disk : Disk) where
  contents-log_calls :
      (s : HiveFile) (offset : ℕ) (is : List ℕ) (trace : List Event) (j k : ℕ)
      → offset + 4096 * length is < ulong
      → j < length is
      → k < 4096
      → AreAccepted accepts (log_calls s offset is) trace
      → contents accepts disk log_file (push (log_calls s offset is) trace) (offset + 4096 * j + k)
        ≡ block_bytes s (get_or is j 0) k
  contents-log_calls s offset [] trace j k few below small taken = absurd (omega arith)
  contents-log_calls s offset (i ∷ is) trace zero k few below small (taken, more) =
      let next : add32 offset 4096 ≡ offset + 4096 = omega arith in
      let within =
        log_calls-AreWithin s (offset + 4096) is (offset + 4096) (omega arith) (omega arith) in
      let hit : (leb offset (offset + 4096 * 0 + k) && ltb (offset + 4096 * 0 + k) (offset + 4096))
          ≡ true =
        ground arith in
      let place : offset + 4096 * 0 + k - offset ≡ k = omega arith in
      rw next (
        contents-outside accepts disk log_file (offset + 4096) ulong
          (log_calls s (offset + 4096) is) _ _ within (inl (omega arith))
        ∙ rw (hit, place, taken) refl)
  contents-log_calls s offset (i ∷ is) trace (suc j) k few below small (taken, more) =
      let next : add32 offset 4096 ≡ offset + 4096 = omega arith in
      let place : offset + 4096 * suc j + k ≡ offset + 4096 + 4096 * j + k = omega arith in
      rw (next, place)
        (contents-log_calls s (offset + 4096) is _ j k (omega arith) (omega arith) small (
          subst
            (λ o.
              AreAccepted accepts (log_calls s o is)
                (file_write log_file offset (block_bytes s i) 4096 ∷ trace))
            next more))

  -- A log from which a hive can be recovered: the base block with equal sequence numbers, a mark for
  -- each dirty block and none for a clean one, and the dirty blocks in order.
  pub record Complete (s : HiveFile) (trace : List Event) : Type 0 where
    pub front :
        (k : ℕ)
        → k < 512
        → contents accepts disk log_file trace k ≡ bytes (words (ended log_file s)) k
    pub marks :
        (i : ℕ)
        → i < s.hive.stable_storage.length
        → contents accepts disk log_file trace (516 + i)
          ≡ (if test_bit s.hive.dirty_vector i then ones else zero_word)
    pub blocks :
        (j k : ℕ)
        → j < length (dirty_blocks s.hive)
        → k < 4096
        → contents accepts disk log_file trace (log_buffer_size s.hive + 4096 * j + k)
          ≡ block_bytes s (get_or (dirty_blocks s.hive) j 0) k

  module _ (s : HiveFile) (tracked : IsTracked s.hive)
      (bounded : s.hive.dirty_vector.size < 0x4000_0000)
      (all : AreAccepted accepts (log_transaction s) s.trace) where
    buffer_size :
        (512 + 4 + s.hive.dirty_vector.size ≤ log_buffer_size s.hive)
        × (log_buffer_size s.hive < 0x5000_0000)
    unfolding log_buffer_size
    buffer_size = (omega arith, omega arith)

    abbrev head : Event
    head =
        file_write log_file 0 (log_header (begun log_file s) (dirty_marks s.hive))
          (log_buffer_size s.hive)

    abbrev all_blocks : List Event
    all_blocks = log_calls s (log_buffer_size s.hive) (dirty_blocks s.hive)

    abbrev whole : List Event
    whole =
        file_flush log_file
        ∷ file_write log_file 0 (bytes (words (ended log_file s))) 512
        ∷ file_flush log_file
        ∷ push all_blocks (head ∷ s.trace)

    blocks_taken : AreAccepted accepts all_blocks (head ∷ s.trace)
    blocks_taken = (AreAccepted-split accepts all_blocks _ (head ∷ s.trace) all.1).0

    last_taken :
        accepts
          (file_flush log_file ∷ push all_blocks (head ∷ s.trace))
          (file_write log_file 0 (bytes (words (ended log_file s))) 512)
        ≡ true
    last_taken = (AreAccepted-split accepts all_blocks _ (head ∷ s.trace) all.1).1.1.0

    few_blocks : log_buffer_size s.hive + 4096 * length (dirty_blocks s.hive) < ulong
    unfolding dirty_blocks
    few_blocks =
        omega
          (arith, buffer_size, tracked.few, length-dirty_from s.hive s.hive.stable_storage.length 0)

    within_log : AreWithin (log_buffer_size s.hive) ulong all_blocks
    within_log = log_calls-AreWithin s _ (dirty_blocks s.hive) _ (omega arith) few_blocks

    -- Behind the front, the second write of the base block is not seen.
    behind_front :
        (p : ℕ)
        → 512 ≤ p
        → contents accepts disk log_file whole p
          ≡ contents accepts disk log_file (push all_blocks (head ∷ s.trace)) p
    behind_front p le =
        let miss : (leb 0 p && ltb p (0 + 512)) ≡ false = ground arith in rw miss refl

    front_lem :
        (k : ℕ)
        → k < 512
        → contents accepts disk log_file whole k ≡ bytes (words (ended log_file s)) k
    front_lem k small =
        let hit : (leb 0 k && ltb k (0 + 512)) ≡ true = ground arith in
        let place : k - 0 ≡ k = omega arith in rw (hit, place, last_taken) refl

    header_mark :
        (b : BaseBlock) (i : ℕ)
        → i < s.hive.stable_storage.length
        → log_header b (dirty_marks s.hive) (516 + i - 0)
          ≡ (if test_bit s.hive.dirty_vector i then ones else zero_word)
    unfolding log_header
    header_mark b i below =
        let first : ltb (516 + i - 0) 512 ≡ false = ground arith in
        let second : ltb (516 + i - 0) 516 ≡ false = ground arith in
        let place : 516 + i - 0 - 516 ≡ i = omega arith in
        let in_range : ltb i s.hive.stable_storage.length ≡ true = ground arith in
        rw (first, second, place, in_range) refl

    mark_lem :
        (i : ℕ)
        → i < s.hive.stable_storage.length
        → contents accepts disk log_file whole (516 + i)
          ≡ (if test_bit s.hive.dirty_vector i then ones else zero_word)
    mark_lem i below =
        let in_buffer : 516 + i < log_buffer_size s.hive =
          omega (arith, buffer_size, tracked.fits) in
        let hit : (leb 0 (516 + i) && ltb (516 + i) (0 + log_buffer_size s.hive)) ≡ true =
          ground arith in
        behind_front (516 + i) (omega arith)
        ∙ contents-outside accepts disk log_file (log_buffer_size s.hive) ulong all_blocks
            (head ∷ s.trace) (516 + i) within_log (inl in_buffer)
        ∙ rw (hit, all.0) (header_mark (begun log_file s) i below)

    pub log_transaction-Complete : Complete s (push (log_transaction s) s.trace)
    log_transaction-Complete = rw (push-append all_blocks _ (head ∷ s.trace)) (record {
      front = front_lem;
      marks = mark_lem;
      blocks = λ j k below small.
          behind_front (log_buffer_size s.hive + 4096 * j + k) (omega (arith, buffer_size))
          ∙ contents-log_calls s _ (dirty_blocks s.hive) (head ∷ s.trace) j k few_blocks below small
              blocks_taken;
    })
