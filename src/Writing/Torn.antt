-- ===== src/Writing/Torn.antt =====
-- What a file of a hive is at any moment of `HvpWriteHive` of core/hivewrt.cpp.
use ntreg.Base.{
  ℕ, ◌+◌, ◌-◌, ◌*◌, ◌<◌, ◌≡◌, refl, sym, inl, inr, ◌⊎◌, true, false, ◌&&◌, ltb, leb, ◌==◌, List, [],
  ◌∷◌, ◌++◌, arith, Bool-cases, ◌∙◌, ulong,
}
use mathlib.Core.Path.{subst}
use mathlib.Core.List.{append-nil}
use ntreg.Bitmap.State.{test_bit}
use ntreg.Writing.File.{
  BaseBlock, bytes, words, Event, file_write, file_flush, HiveFile, Result, succeeded, failed,
  stuck, Answers, block_bytes, primary_file,
}
use ntreg.Writing.Primary.{write_hive}
use ntreg.Writing.Blocks.{IsTracked, dirty_blocks}
use ntreg.Writing.Calls.{push, push-append, Made, AreAccepted, AreAccepted-split}
use ntreg.Writing.Loops.{block_calls}
use ntreg.Writing.Order.{hive_calls, begun, ended, write_hive-Made}
use ntreg.Writing.Contents.{
  Disk, contents, AreWithin, AreWithin-append, block_calls-AreWithin, contents-block_calls,
  contents-outside,
}
use ntreg.Writing.Durable.{IsMatching}
use ntreg.Header.Verify.{verify_hive_header}
use ntreg.Header.Verify.Laws.{verify_hive_header-begin_write}

-- Where a list is cut in two, one of its parts ends or goes on behind the cut.
data Cut (d xs ys : List Event) : Type 0 where
  inside : (more : List Event) → xs ≡ d ++ more → Cut d xs ys
  behind : (more rest : List Event) → d ≡ xs ++ more → ys ≡ more ++ rest → Cut d xs ys

Cut-of : (d r xs ys : List Event) → xs ++ ys ≡ d ++ r → Cut d xs ys
Cut-of [] r xs ys e = inside xs refl
Cut-of (x ∷ d) r [] ys e = behind (x ∷ d) r refl e
Cut-of (x ∷ d) r (y ∷ xs) ys e =
    let same : y ≡ x = cc in
    elim (Cut-of d r xs ys cc) [
      | inside more f ↦ inside more (rw (f, same) refl)
      | behind more rest f g ↦ behind more rest (rw (f, same) refl) g
    ]

module _ (accepts : Answers) (disk : Disk) (file : ℕ) (s : HiveFile) where
  -- A file between two calls: as it was before; or with a base block that no verification of a header
  -- accepts; or with all dirty blocks as they are in memory.
  abbrev pub IsSafe : List Event → Type 0
  IsSafe trace =
      ((p : ℕ) → contents accepts disk file trace p ≡ contents accepts disk file s.trace p)
      ⊎ (((b : BaseBlock) × ((kind : ℕ) → verify_hive_header b kind ≡ false)
            × ((k : ℕ) → k < 4096 → contents accepts disk file trace k ≡ bytes (words b) k))
          ⊎ ((i k : ℕ)
              → i < s.hive.stable_storage.length
              → k < 4096
              → test_bit s.hive.dirty_vector i ≡ true
              → contents accepts disk file trace ((i + 1) * 4096 + k) ≡ block_bytes s i k))

  module _ (tracked : IsTracked s.hive) (matching : IsMatching s.base_block)
      (word : s.base_block.sequence1 < ulong) where
    abbrev first : Event
    first = file_write file 0 (bytes (words (begun primary_file s))) 4096

    abbrev all_blocks : List Event
    all_blocks = block_calls file s (dirty_blocks s.hive)

    abbrev closing : List Event
    closing =
        file_flush file
        ∷ file_write file 0 (bytes (words (ended primary_file s))) 4096
        ∷ file_flush file
        ∷ []

    begun-rejected : (kind : ℕ) → verify_hive_header (begun primary_file s) kind ≡ false
    begun-rejected kind =
        verify_hive_header-begin_write s.base_block primary_file kind matching word

    all_within : AreWithin 4096 0x1_0000_0000 all_blocks
    unfolding dirty_blocks
    all_within =
        block_calls-AreWithin file s s.hive.stable_storage.length 0 (omega (arith, tracked.few))

    -- While the blocks are written the front is that of the first write.
    inside-IsSafe :
        (d more : List Event)
        → all_blocks ≡ d ++ more
        → accepts s.trace first ≡ true
        → IsSafe (push d (first ∷ s.trace))
    inside-IsSafe d more e taken =
        let within =
          AreWithin-append 4096 0x1_0000_0000 d more
            (subst (AreWithin 4096 0x1_0000_0000) e all_within) in
        inr (
          inl (
            begun primary_file s,
            begun-rejected,
            λ k small.
                let hit : (file == file && (leb 0 k && ltb k (0 + 4096))) ≡ true = ground arith in
                let place : k - 0 ≡ k = omega arith in
                contents-outside accepts disk file 4096 0x1_0000_0000 d (first ∷ s.trace) k within
                  (inl small)
                ∙ rw (hit, place, taken) refl,
          ))

    -- Behind them, the blocks stay.
    behind-IsSafe :
        (more rest : List Event)
        → closing ≡ more ++ rest
        → AreAccepted accepts all_blocks (first ∷ s.trace)
        → IsSafe (push (all_blocks ++ more) (first ∷ s.trace))
    unfolding dirty_blocks
    behind-IsSafe more rest e all =
        let within : AreWithin 0 4096 more =
          AreWithin-append 0 4096 more rest
            (subst (AreWithin 0 4096) e (omega arith, omega arith, tt)) in
        inr (
          inr (λ i k below small dirty.
            let in_range : (leb 0 i && ltb i (0 + s.hive.stable_storage.length)) ≡ true =
              ground arith in
            rw push-append (
              contents-outside accepts disk file 0 4096 more _ ((i + 1) * 4096 + k) within
                (inr (omega arith))
              ∙ contents-block_calls accepts disk file s s.hive.stable_storage.length 0
                  (first ∷ s.trace) i k (omega (arith, tracked.few)) small all
              ∙ rw (in_range, dirty) refl)))

    prefix-IsSafe :
        (d r : List Event)
        → hive_calls file s ≡ d ++ r
        → AreAccepted accepts d s.trace
        → IsSafe (push d s.trace)
    prefix-IsSafe [] r e all = inl (λ p. refl)
    prefix-IsSafe (c ∷ d) r e all =
        let same : first ≡ c = cc in
        let taken : AreAccepted accepts (first ∷ d) s.trace =
          subst (λ e. AreAccepted accepts (e ∷ d) s.trace) (sym same) all in
        rw (sym same) (elim (Cut-of d r all_blocks closing cc) [
          | inside more f ↦ inside-IsSafe d more f taken.0
          | behind more rest f g ↦
              let both : AreAccepted accepts (all_blocks ++ more) (first ∷ s.trace) =
                subst (λ es. AreAccepted accepts es (first ∷ s.trace)) f taken.1 in
              rw f (
                behind-IsSafe more rest g
                  (AreAccepted-split accepts all_blocks more (first ∷ s.trace) both).0)
        ])

  -- A failure is safe: nothing was done, or the call that was refused came at a moment when the file
  -- was safe. A success leaves the file safe too.
  abbrev pub SafeOutcome : Result → Type 0
  SafeOutcome (succeeded t) = IsSafe t.trace
  SafeOutcome (failed t) =
      (t ≡ s)
      ⊎ ((call : Event) × (before : List Event) × (t.trace ≡ call ∷ before)
          × (accepts before call ≡ false)
          × IsSafe before)
  SafeOutcome stuck = ⊥

  -- Whenever the writing of the dirty blocks stops, at the end or at any call that is refused, the
  -- file is as it was before, or its base block is one that `HvpVerifyHiveHeader` rejects for every
  -- type of file, or it has every dirty block as it is in memory. A write that is refused may leave any
  -- bytes in its range; the file meant is the one before it. The first
  -- sequence number has 32 bits.
  pub write_hive-IsSafe :
      IsTracked s.hive
      → s.base_block.sequence1 < ulong
      → SafeOutcome (write_hive accepts true file s)
  unfolding write_hive
  write_hive-IsSafe tracked word =
      elim (Bool-cases (s.base_block.sequence1 == s.base_block.sequence2)) [
        | inl same ↦ go (ground arith) _ (write_hive-Made accepts file s tracked (ground arith))
        | inr differ ↦ rw differ (inl refl)
      ]
    where
      go :
          IsMatching s.base_block
          → (r : Result) → Made accepts (hive_calls file s) (ended primary_file s) s r
          → SafeOutcome r
      go m (succeeded t) (e, all) =
          rw e (prefix-IsSafe tracked m word (hive_calls file s) [] (sym (append-nil _)) all)
      go m (failed t) r = inr (
        r.call,
        push r.done s.trace,
        (rw (r.left, push-append) refl),
        r.refused,
        prefix-IsSafe tracked m word r.done (r.call ∷ r.rest) r.split r.taken,
      )
      go m stuck o = o
