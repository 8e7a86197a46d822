-- ===== src/Writing/Order.antt =====
-- The calls that `HvpWriteHive` and `HvpWriteLog` of core/hivewrt.cpp make, in order.
use ntreg.Base.{ℕ, ◌+◌, ◌≡◌, refl, ap, Bool, true, ◌==◌, List, [], ◌∷◌, ◌++◌, arith}
use mathlib.Core.Path.{subst}
use ntreg.Writing.File.{
  BaseBlock, bytes, words, Event, file_write, file_flush, HiveFile, Operation, ◌>>◌, Answers, issue,
  with_base, write_base, begin_write, end_write, log_file, primary_file,
}
use ntreg.Writing.Primary.{write_blocks, write_hive}
use ntreg.Writing.Log.{log_buffer_size, log_header, write_log_header, log_blocks, write_log}
use ntreg.Writing.Blocks.{IsTracked, dirty_blocks, dirty_blocks-dirty_from}
use ntreg.Writing.Calls.{Made, Made-then, Made-issue, Made-with_base, after}
use ntreg.Writing.Loops.{
  block_calls, log_calls, dirty_marks, write_blocks-Made, log_blocks-Made, mark_blocks-dirty_marks,
}

-- The base block as the first write of a transaction has it, and as the second has it.
abbrev pub begun : (kind : ℕ) → HiveFile → BaseBlock
begun kind s = begin_write kind s.base_block

abbrev pub ended : (kind : ℕ) → HiveFile → BaseBlock
ended kind s = end_write (begun kind s)

-- The base block, the dirty blocks, a flush, the base block with equal numbers, and a flush.
abbrev pub hive_calls : (file : ℕ) → HiveFile → List Event
hive_calls file s =
    file_write file 0 (bytes (words (begun primary_file s))) 4096
      ∷ block_calls file s (dirty_blocks s.hive)
    ++ file_flush file
      ∷ file_write file 0 (bytes (words (ended primary_file s))) 4096
      ∷ file_flush file
      ∷ []

abbrev pub log_transaction : HiveFile → List Event
log_transaction s =
    file_write log_file 0 (log_header (begun log_file s) (dirty_marks s.hive))
        (log_buffer_size s.hive)
      ∷ log_calls s (log_buffer_size s.hive) (dirty_blocks s.hive)
    ++ file_flush log_file
      ∷ file_write log_file 0 (bytes (words (ended log_file s))) 512
      ∷ file_flush log_file
      ∷ []

regroup :
    (es : List Event) (a b c : Event)
    → (((es ++ a ∷ []) ++ []) ++ b ∷ []) ++ c ∷ [] ≡ es ++ a ∷ b ∷ c ∷ []
regroup [] a b c = refl
regroup (e ∷ es) a b c = ap (λ fs. e ∷ fs) (regroup es a b c)

module _ (accepts : Answers) where
  Made-write_base :
      (file length : ℕ) (s : HiveFile)
      → Made accepts
          (file_write file 0 (bytes (words s.base_block)) length ∷ [])
          s.base_block
          s
          (write_base accepts file length s)
  unfolding write_base
  Made-write_base file length s = Made-issue accepts _ s

  -- The end of a transaction, behind its blocks.
  Made-finish :
      (p : Operation) (file length : ℕ) (es : List Event) (b : BaseBlock) (s : HiveFile)
      → Made accepts es b s (p s)
      → Made accepts
          (es
            ++ file_flush file
              ∷ file_write file 0 (bytes (words (end_write b))) length
              ∷ file_flush file
              ∷ [])
          (end_write b)
          s
          ((p
              >> issue accepts (file_flush file)
              >> with_base end_write
              >> write_base accepts file length
              >> issue accepts (file_flush file))
            s)
  Made-finish p file length es b s made =
      let flush = issue accepts (file_flush file) in
      let one = file_flush file ∷ [] in
      let settle = file_write file 0 (bytes (words (end_write b))) length ∷ [] in
      let first =
        Made-then accepts p flush es one b b s made (Made-issue accepts _ (after b es s)) in
      let second =
        Made-then accepts (p >> flush) (with_base end_write) (es ++ one) [] b (end_write b) s first
          (Made-with_base accepts end_write (after b (es ++ one) s)) in
      let third =
        Made-then accepts (p >> flush >> with_base end_write) (write_base accepts file length)
          ((es ++ one) ++ []) settle (end_write b) (end_write b) s second
          (Made-write_base file length (after (end_write b) ((es ++ one) ++ []) s)) in
      subst
        (λ fs.
          Made accepts fs (end_write b) s
            ((p >> flush >> with_base end_write >> write_base accepts file length >> flush) s))
        (regroup es (file_flush file) _ (file_flush file))
        (Made-then accepts (p >> flush >> with_base end_write >> write_base accepts file length)
          flush (((es ++ one) ++ []) ++ settle) one (end_write b) (end_write b) s third
          (Made-issue accepts _ (after (end_write b) (((es ++ one) ++ []) ++ settle) s)))

  -- Writing the dirty blocks makes its calls in order and ends. It succeeds once all are answered
  -- with TRUE, and stops at the first that is not.
  pub write_hive-Made :
      (file : ℕ) (s : HiveFile)
      → IsTracked s.hive
      → s.base_block.sequence1 ≡ s.base_block.sequence2
      → Made accepts (hive_calls file s) (ended primary_file s) s (write_hive accepts true file s)
  unfolding write_hive
  write_hive-Made file s tracked matching =
      let same : (s.base_block.sequence1 == s.base_block.sequence2) ≡ true = ground arith in
      let start = Made-with_base accepts (begin_write primary_file) s in
      let b = begun primary_file s in
      let head = file_write file 0 (bytes (words b)) 4096 ∷ [] in
      let opened =
        Made-then accepts (with_base (begin_write primary_file)) (write_base accepts file 4096) []
          head b b s start (Made-write_base file 4096 (after b [] s)) in
      let blocks =
        subst
          (λ is.
            Made accepts (block_calls file s is) b (after b head s) (
              write_blocks accepts (s.hive.stable_storage.length + 1) true file 0 (after b head s)))
          (dirty_blocks-dirty_from s.hive)
          (write_blocks-Made accepts (s.hive.stable_storage.length + 1) file 0 (after b head s)
            tracked (omega arith) (omega arith)) in
      let p = with_base (begin_write primary_file) >> write_base accepts file 4096 in
      let loop = write_blocks accepts (s.hive.stable_storage.length + 1) true file 0 in
      let es = block_calls file s (dirty_blocks s.hive) in
      rw same (
        Made-finish (p >> loop) file 4096 (head ++ es) b s
          (Made-then accepts p loop head es b b s opened blocks))

  Made-write_log_header :
      (s : HiveFile)
      → IsTracked s.hive
      → Made accepts
          (file_write log_file 0
              (log_header s.base_block (dirty_marks s.hive))
              (log_buffer_size s.hive)
            ∷ [])
          s.base_block
          s
          (write_log_header accepts s)
  unfolding write_log_header
  Made-write_log_header s tracked =
      rw (mark_blocks-dirty_marks s.hive tracked, write_log_header) (Made-issue accepts _ s)

  -- With equal sequence numbers and memory for the header, writing the log makes its calls in order
  -- and ends: the header with the marks, each dirty block once, a flush, the base block with equal
  -- numbers, and a flush. It succeeds once all are answered with TRUE, and stops at the first that
  -- is not.
  pub write_log-Made :
      (allocates : ℕ → Bool) (s : HiveFile)
      → IsTracked s.hive
      → s.base_block.sequence1 ≡ s.base_block.sequence2
      → allocates (log_buffer_size s.hive) ≡ true
      → Made accepts (log_transaction s) (ended log_file s) s (write_log accepts allocates s)
  unfolding write_log
  write_log-Made allocates s tracked matching memory =
      let same : (s.base_block.sequence1 == s.base_block.sequence2) ≡ true = ground arith in
      let b = begun log_file s in
      let size = log_buffer_size s.hive in
      let head = file_write log_file 0 (log_header b (dirty_marks s.hive)) size ∷ [] in
      let opened =
        Made-then accepts (with_base (begin_write log_file)) (write_log_header accepts) [] head b b
          s (Made-with_base accepts (begin_write log_file) s)
          (Made-write_log_header (after b [] s) tracked) in
      let loop = log_blocks accepts (s.hive.stable_storage.length + 1) size 0 in
      let blocks =
        subst (λ is. Made accepts (log_calls s size is) b (after b head s) (loop (after b head s)))
          (dirty_blocks-dirty_from s.hive)
          (log_blocks-Made accepts (s.hive.stable_storage.length + 1) size 0 (after b head s)
            tracked (omega arith) (omega arith)) in
      let p = with_base (begin_write log_file) >> write_log_header accepts in
      let es = log_calls s size (dirty_blocks s.hive) in
      rw (same, memory)
        (Made-finish (p >> loop) log_file 512 (head ++ es) b s
          (Made-then accepts p loop head es b b s opened blocks))
