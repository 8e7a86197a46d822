-- ===== src/Writing/Durable.antt =====
-- What `HvpWriteHive` of core/hivewrt.cpp leaves in its file.
use ntreg.Base.{
  ℕ, ◌+◌, ◌-◌, ◌*◌, ◌<◌, ◌≡◌, ◌≢◌, refl, sym, ap, inl, inr, ◌⊎◌, true, false, ◌&&◌, ltb, leb, ◌==◌,
  if◌then◌else◌, List, [], ◌∷◌, ◌++◌, arith, Bool-cases, ◌∙◌,
}
use mathlib.Core.Path.{subst}
use mathlib.Core.List.{append_assoc}
use ntreg.Bitmap.State.{test_bit}
use ntreg.Writing.File.{
  BaseBlock, bytes, words, Event, file_write, file_flush, HiveFile, Result, succeeded, failed,
  stuck, Answers, block_bytes, primary_file, begin_write, end_write, seal,
}
use ntreg.Writing.Primary.{write_hive}
use ntreg.Writing.Blocks.{IsTracked, dirty_blocks}
use ntreg.Writing.Calls.{push, push-append, after, Made, Refused, AreAccepted, AreAccepted-split}
use ntreg.Writing.Loops.{block_calls}
use ntreg.Writing.Order.{hive_calls, begun, ended, write_hive-Made}
use ntreg.Writing.Contents.{
  Disk, contents, AreFor, contents-block_calls, contents-other, block_calls-AreFor, AreFor-append,
}

-- The sequence numbers of a base block.
abbrev pub IsMatching : BaseBlock → Type 0
IsMatching b = b.sequence1 ≡ b.sequence2

pub ended-IsMatching :
    (kind : ℕ) (s : HiveFile) → IsMatching s.base_block → IsMatching (ended kind s)
unfolding begin_write end_write seal
ended-IsMatching kind s e = rw e refl

-- The latest call was refused.
pub record LastRefused (accepts : Answers) (t : HiveFile) : Type 0 where
  pub call : Event
  pub before : List Event
  pub latest : t.trace ≡ call ∷ before
  pub refused : accepts before call ≡ false

pub Refused-LastRefused :
    (accepts : Answers) (es : List Event) (s t : HiveFile)
    → Refused accepts es s t
    → (t.hive ≡ s.hive) × (t.memory ≡ s.memory) × LastRefused accepts t
Refused-LastRefused accepts es s t r = (
  ap (λ u. u.hive) r.left,
  ap (λ u. u.memory) r.left,
  record {
    call = r.call;
    before = push r.done s.trace;
    latest = rw (r.left, push-append) refl;
    refused = r.refused;
  },
)

-- The calls for one file leave the others, the refused one included.
pub Refused-others :
    (accepts : Answers) (disk : Disk) (file : ℕ) (es : List Event) (s t : HiveFile)
    → AreFor file es
    → Refused accepts es s t
    → (other p : ℕ) → other ≢ file
    → contents accepts disk other t.trace p ≡ contents accepts disk other s.trace p
Refused-others accepts disk file es s t for r other p apart =
    let made = r.done ++ r.call ∷ [] in
    let cut : es ≡ made ++ r.rest = r.split ∙ sym (append_assoc r.done (r.call ∷ []) r.rest) in
    rw r.left (
      contents-other accepts disk other file made s.trace p apart
        (AreFor-append file made r.rest (subst (AreFor file) cut for)))

module _ (accepts : Answers) (disk : Disk) (file : ℕ) (s : HiveFile) where
  -- The file of a hive after all the calls of `HvpWriteHive`: the base block is in front, the blocks
  -- that are dirty are those in memory, the others are as they were, and so are all other files.
  pub record Written (t : HiveFile) : Type 0 where
    pub same_hive : t.hive ≡ s.hive
    pub same_memory : t.memory ≡ s.memory
    pub same_alternate : t.alternate ≡ s.alternate
    pub matching : IsMatching t.base_block
    pub front :
        (k : ℕ) → k < 4096 → contents accepts disk file t.trace k ≡ bytes (words t.base_block) k
    pub blocks :
        (i k : ℕ)
        → i < s.hive.stable_storage.length
        → k < 4096
        → contents accepts disk file t.trace ((i + 1) * 4096 + k) ≡ (
            if test_bit s.hive.dirty_vector i
            then block_bytes s i k
            else contents accepts disk file s.trace ((i + 1) * 4096 + k))
    pub others :
        (other p : ℕ)
        → other ≢ file
        → contents accepts disk other t.trace p ≡ contents accepts disk other s.trace p

  -- The other files are as they were.
  abbrev pub Others : HiveFile → Type 0
  Others t =
      (other p : ℕ)
      → other ≢ file
      → contents accepts disk other t.trace p ≡ contents accepts disk other s.trace p

  abbrev pub WriteOutcome : Result → Type 0
  WriteOutcome (succeeded t) = Written t
  WriteOutcome (failed t) =
      (t.hive ≡ s.hive)
      × (t.memory ≡ s.memory)
      × Others t
      × ((¬ IsMatching s.base_block × (t ≡ s)) ⊎ LastRefused accepts t)
  WriteOutcome stuck = ⊥

  module _ (tracked : IsTracked s.hive) (matching : IsMatching s.base_block) where
    abbrev first : Event
    first = file_write file 0 (bytes (words (begun primary_file s))) 4096

    abbrev all_blocks : List Event
    all_blocks = block_calls file s (dirty_blocks s.hive)

    abbrev final : BaseBlock
    final = ended primary_file s

    abbrev whole : List Event
    whole =
        file_flush file
        ∷ file_write file 0 (bytes (words final)) 4096
        ∷ file_flush file
        ∷ push all_blocks (first ∷ s.trace)

    trace_lem : push (hive_calls file s) s.trace ≡ whole
    trace_lem = push-append all_blocks _ (first ∷ s.trace)

    hits_front :
        AreAccepted accepts (hive_calls file s) s.trace
        → (k : ℕ) → k < 4096
        → contents accepts disk file whole k ≡ bytes (words final) k
    hits_front all k small =
        let hit : (file == file && (leb 0 k && ltb k (0 + 4096))) ≡ true = ground arith in
        let place : k - 0 ≡ k = omega arith in
        let taken = (AreAccepted-split accepts all_blocks _ (first ∷ s.trace) all.1).1 in
        rw (hit, place, taken.1.0) refl

    hits_blocks :
        AreAccepted accepts (hive_calls file s) s.trace
        → (i k : ℕ) → i < s.hive.stable_storage.length
        → k < 4096
        → contents accepts disk file whole ((i + 1) * 4096 + k) ≡ (
            if test_bit s.hive.dirty_vector i
            then block_bytes s i k
            else contents accepts disk file s.trace ((i + 1) * 4096 + k))
    unfolding dirty_blocks
    hits_blocks all i k inside small =
        let miss : (file == file
              && (leb 0 ((i + 1) * 4096 + k) && ltb ((i + 1) * 4096 + k) (0 + 4096)))
            ≡ false =
          ground arith in
        let within : (leb 0 i && ltb i (0 + s.hive.stable_storage.length)) ≡ true = ground arith in
        rw
          (
            miss,
            contents-block_calls accepts disk file s s.hive.stable_storage.length 0
                (first ∷ s.trace) i k (omega (arith, tracked.few)) small
                (AreAccepted-split accepts all_blocks _ (first ∷ s.trace) all.1).0,
            within,
          )
          (rw miss refl)

    hive_calls-AreFor : AreFor file (hive_calls file s)
    hive_calls-AreFor =
        (refl, block_calls-AreFor file s (dirty_blocks s.hive) _ (refl, (refl, (refl, tt))))

    after-Written :
        (t : HiveFile)
        → t ≡ after final (hive_calls file s) s
        → AreAccepted accepts (hive_calls file s) s.trace
        → Written t
    after-Written t e all = subst Written (sym e) (record {
      same_hive = refl;
      same_memory = refl;
      same_alternate = refl;
      matching = ended-IsMatching primary_file s matching;
      front = λ k small. rw trace_lem (hits_front all k small);
      blocks = λ i k inside small. rw trace_lem (hits_blocks all i k inside small);
      others = λ other p apart.
          contents-other accepts disk other file (hive_calls file s) s.trace p apart
            hive_calls-AreFor;
    })

    Made-WriteOutcome : (r : Result) → Made accepts (hive_calls file s) final s r → WriteOutcome r
    Made-WriteOutcome (succeeded t) (e, all) = after-Written t e all
    Made-WriteOutcome (failed t) r =
        let l = Refused-LastRefused accepts (hive_calls file s) s t r in
        (
          l.0,
          l.1,
          Refused-others accepts disk file (hive_calls file s) s t hive_calls-AreFor r,
          inr l.2,
        )
    Made-WriteOutcome stuck o = o

  -- Writing the dirty blocks of a hive ends. If it succeeds, the file has the base block, with equal
  -- sequence numbers, in front, each dirty block as it is in memory, and each clean block and every
  -- other file as before. It fails only if the sequence numbers differ, and then with no call
  -- made, or if a call was refused; the dirty vector, the memory and every other file are as they were
  -- in each case.
  pub write_hive-Written : IsTracked s.hive → WriteOutcome (write_hive accepts true file s)
  unfolding write_hive
  write_hive-Written tracked =
      elim (Bool-cases (s.base_block.sequence1 == s.base_block.sequence2)) [
        | inl same ↦
            Made-WriteOutcome tracked (ground arith) _
              (write_hive-Made accepts file s tracked (ground arith))
        | inr differ ↦
            rw differ (refl, refl, (λ other p apart. refl), inl ((λ e. ground arith), refl))
      ]
