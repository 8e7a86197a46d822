-- ===== src/Writing/Loops.antt =====
-- The loops of core/hivewrt.cpp as sequences of calls: one write for each dirty block, in order.
use ntreg.Base.{
  ℕ, zero, suc, ◌+◌, ◌-◌, ◌≤◌, ◌<◌, ◌≡◌, refl, inl, inr, Bool, true, false, ◌&&◌, ltb, leb, ◌==◌,
  if◌then◌else◌, Option, none, some, List, [], ◌∷◌, map, arith, Bool-cases, add32, lt→not_leb,
  le→leb, fun_ext, ap, ◌∙◌,
}
use native.Mathlib.Decide.{dec_lt}
use ntreg.Bitmap.State.{test_bit}
use ntreg.Cells.State.{Hive}
use ntreg.Writing.File.{
  Event, file_write, HiveFile, succeeded, Operation, ◌>>◌, Answers, issue, block_bytes, log_file,
}
use ntreg.Writing.Primary.{block_offset, next_block, write_blocks}
use ntreg.Writing.Log.{log_blocks, mark_blocks}
use ntreg.Writing.Blocks.{IsTracked, dirty_from, Next, next_block-Next}
use ntreg.Writing.Calls.{Made, Made-then, Made-issue, after}

abbrev pub block_calls : (file : ℕ) → HiveFile → List ℕ → List Event
block_calls file s = map (λ i. file_write file (block_offset i) (block_bytes s i) 4096)

abbrev pub log_calls : HiveFile → (offset : ℕ) → List ℕ → List Event
log_calls s offset [] = []
log_calls s offset (i ∷ is) =
    file_write log_file offset (block_bytes s i) 4096 ∷ log_calls s (add32 offset 4096) is

no_blocks :
    (h : Hive) (i : ℕ)
    → h.stable_storage.length ≤ i
    → dirty_from h (h.stable_storage.length - i) i ≡ []
unfolding dirty_from
no_blocks h i le =
    let none_left : h.stable_storage.length - i ≡ 0 = omega arith in rw none_left refl

module _ (accepts : Answers) where
  -- One round of a loop that makes a call for each dirty block.
  round-Made :
      (s : HiveFile) (i : ℕ) (tracked : IsTracked s.hive)
      (inside : i < s.hive.stable_storage.length) (call : ℕ → Event) (rest : ℕ → Operation)
      (calls later : List ℕ → List Event) (o : Option ℕ)
      → calls [] ≡ []
      → ((at : ℕ) (is : List ℕ) → calls (at ∷ is) ≡ call at ∷ later is)
      → Next s.hive i tracked inside o
      → ((at : ℕ)
          → i ≤ at
          → at < s.hive.stable_storage.length
          → Made accepts
              (later (dirty_from s.hive (s.hive.stable_storage.length - (at + 1)) (at + 1)))
              s.base_block
              (after s.base_block (call at ∷ []) s)
              (rest at (after s.base_block (call at ∷ []) s)))
      → Made accepts
          (calls (dirty_from s.hive (s.hive.stable_storage.length - i) i))
          s.base_block
          s
          (elim o [ none ↦ succeeded s | some at ↦ (issue accepts (call at) >> rest at) s ])
  round-Made s i tracked inside call rest calls later none empty heads e more =
      rw (e, empty) (refl, tt)
  round-Made s i tracked inside call rest calls later (some at) empty heads (le, lt, e) more =
      rw (e, heads)
        (Made-then accepts (issue accepts (call at)) (rest at) (call at ∷ [])
          (later (dirty_from s.hive (s.hive.stable_storage.length - (at + 1)) (at + 1)))
          s.base_block s.base_block s (Made-issue accepts (call at) s) (more at le lt))

  write_blocks-step :
      (f file i : ℕ) (s : HiveFile)
      → i < s.hive.stable_storage.length
      → write_blocks accepts (suc f) true file i s ≡ elim (next_block s.hive i) [
        | none ↦ succeeded s
        | some at ↦
            (issue accepts (file_write file (block_offset at) (block_bytes s at) 4096)
                >> write_blocks accepts f true file (add32 at 1))
              s
      ]
  unfolding write_blocks
  write_blocks-step f file i s inside = rw (lt→not_leb i s.hive.stable_storage.length inside) refl

  write_blocks-end :
      (f file i : ℕ) (s : HiveFile)
      → s.hive.stable_storage.length ≤ i
      → write_blocks accepts (suc f) true file i s ≡ succeeded s
  unfolding write_blocks
  write_blocks-end f file i s end = rw (le→leb s.hive.stable_storage.length i end) refl

  pub write_blocks-Made :
      (f file i : ℕ) (s : HiveFile)
      → IsTracked s.hive
      → i ≤ s.hive.stable_storage.length
      → s.hive.stable_storage.length - i < f
      → Made accepts
          (block_calls file s (dirty_from s.hive (s.hive.stable_storage.length - i) i))
          s.base_block
          s
          (write_blocks accepts f true file i s)
  write_blocks-Made zero file i s tracked le fuel = absurd (omega arith)
  write_blocks-Made (suc f) file i s tracked le fuel =
      elim (dec_lt i s.hive.stable_storage.length) [
        | no end ↦
            rw (write_blocks-end f file i s (omega arith), no_blocks s.hive i (omega arith))
              (refl, tt)
        | yes inside ↦ rw (write_blocks-step f file i s inside) (
            round-Made s i tracked inside
              (λ at. file_write file (block_offset at) (block_bytes s at) 4096)
              (λ at. write_blocks accepts f true file (add32 at 1)) (block_calls file s)
              (block_calls file s) (next_block s.hive i) refl (λ at is. refl)
              (next_block-Next s.hive i tracked inside)
              (λ at lo hi.
                let next : add32 at 1 ≡ at + 1 = omega (arith, tracked.few) in
                rw next (
                  write_blocks-Made f file (at + 1) (after s.base_block (_ ∷ []) s) tracked
                    (omega arith) (omega arith))))
      ]

  log_blocks-step :
      (f offset i : ℕ) (s : HiveFile)
      → i < s.hive.stable_storage.length
      → log_blocks accepts (suc f) offset i s ≡ elim (next_block s.hive i) [
        | none ↦ succeeded s
        | some at ↦
            (issue accepts (file_write log_file offset (block_bytes s at) 4096)
                >> log_blocks accepts f (add32 offset 4096) (add32 at 1))
              s
      ]
  unfolding log_blocks
  log_blocks-step f offset i s inside = rw (lt→not_leb i s.hive.stable_storage.length inside) refl

  log_blocks-end :
      (f offset i : ℕ) (s : HiveFile)
      → s.hive.stable_storage.length ≤ i
      → log_blocks accepts (suc f) offset i s ≡ succeeded s
  unfolding log_blocks
  log_blocks-end f offset i s end = rw (le→leb s.hive.stable_storage.length i end) refl

  pub log_blocks-Made :
      (f offset i : ℕ) (s : HiveFile)
      → IsTracked s.hive
      → i ≤ s.hive.stable_storage.length
      → s.hive.stable_storage.length - i < f
      → Made accepts
          (log_calls s offset (dirty_from s.hive (s.hive.stable_storage.length - i) i))
          s.base_block
          s
          (log_blocks accepts f offset i s)
  log_blocks-Made zero offset i s tracked le fuel = absurd (omega arith)
  log_blocks-Made (suc f) offset i s tracked le fuel =
      elim (dec_lt i s.hive.stable_storage.length) [
        | no end ↦
            rw (log_blocks-end f offset i s (omega arith), no_blocks s.hive i (omega arith))
              (refl, tt)
        | yes inside ↦ rw (log_blocks-step f offset i s inside) (
            round-Made s i tracked inside (λ at. file_write log_file offset (block_bytes s at) 4096)
              (λ at. log_blocks accepts f (add32 offset 4096) (add32 at 1)) (log_calls s offset)
              (log_calls s (add32 offset 4096)) (next_block s.hive i) refl (λ at is. refl)
              (next_block-Next s.hive i tracked inside)
              (λ at lo hi.
                let next : add32 at 1 ≡ at + 1 = omega (arith, tracked.few) in
                rw next (
                  log_blocks-Made f (add32 offset 4096) (at + 1) (after s.base_block (_ ∷ []) s)
                    tracked (omega arith) (omega arith))))
      ]

-- The blocks that are marked dirty in the log.
abbrev pub dirty_marks : Hive → ℕ → Bool
dirty_marks h n = ltb n h.stable_storage.length && test_bit h.dirty_vector n

-- Marks of the blocks of a list.
abbrev mark_all : List ℕ → (ℕ → Bool) → ℕ → Bool
mark_all [] marks = marks
mark_all (i ∷ is) marks = mark_all is (λ n. if n == i then true else marks n)

round_marks :
    (f i : ℕ) (h : Hive) (marks : ℕ → Bool) (tracked : IsTracked h)
    (inside : i < h.stable_storage.length) (o : Option ℕ)
    → Next h i tracked inside o
    → ((at : ℕ)
        → i ≤ at
        → at < h.stable_storage.length
        → mark_blocks f h (add32 at 1) (λ n. if n == at then true else marks n)
          ≡ some (
              mark_all
                (dirty_from h (h.stable_storage.length - (at + 1)) (at + 1))
                (λ n. if n == at then true else marks n)))
    → (elim o [
      | none ↦ some marks
      | some at ↦ mark_blocks f h (add32 at 1) (λ n. if n == at then true else marks n)
    ])
      ≡ some (mark_all (dirty_from h (h.stable_storage.length - i) i) marks)
round_marks f i h marks tracked inside none e more = rw e refl
round_marks f i h marks tracked inside (some at) (le, lt, e) more = rw e (more at le lt)

mark_blocks-mark_all :
    (f i : ℕ) (h : Hive) (marks : ℕ → Bool)
    → IsTracked h
    → i ≤ h.stable_storage.length
    → h.stable_storage.length - i < f
    → mark_blocks f h i marks ≡ some (mark_all (dirty_from h (h.stable_storage.length - i) i) marks)
unfolding mark_blocks
mark_blocks-mark_all zero i h marks tracked le fuel = absurd (omega arith)
mark_blocks-mark_all (suc f) i h marks tracked le fuel = elim (dec_lt i h.stable_storage.length) [
  | no end ↦ rw (le→leb h.stable_storage.length i (omega arith), no_blocks h i (omega arith)) refl
  | yes inside ↦ rw (lt→not_leb i h.stable_storage.length inside) (
      round_marks f i h marks tracked inside (next_block h i) (next_block-Next h i tracked inside)
        (λ at lo hi.
          let next : add32 at 1 ≡ at + 1 = omega (arith, tracked.few) in
          rw next (
            mark_blocks-mark_all f (at + 1) h (λ n. if n == at then true else marks n) tracked
              (omega arith) (omega arith))))
]

mark_all-dirty_from :
    (h : Hive) (left i : ℕ) (marks : ℕ → Bool) (n : ℕ)
    → mark_all (dirty_from h left i) marks n
      ≡ (if leb i n && (ltb n (i + left) && test_bit h.dirty_vector n) then true else marks n)
unfolding dirty_from
mark_all-dirty_from h zero i marks n = ground arith
mark_all-dirty_from h (suc left) i marks n = elim (Bool-cases (test_bit h.dirty_vector i)) [
  | inl set ↦
      ground (arith, mark_all-dirty_from h left (i + 1) (λ m. if m == i then true else marks m) n)
  | inr clear ↦ ground (arith, mark_all-dirty_from h left (i + 1) marks n)
]

-- The marks that the log gets are those of the dirty blocks.
pub mark_blocks-dirty_marks :
    (h : Hive)
    → IsTracked h
    → mark_blocks (h.stable_storage.length + 1) h 0 (λ n. false) ≡ some (dirty_marks h)
mark_blocks-dirty_marks h tracked =
    mark_blocks-mark_all (h.stable_storage.length + 1) 0 h (λ n. false) tracked (omega arith)
      (omega arith)
    ∙ ap some (
        fun_ext
          λ n. mark_all-dirty_from h (h.stable_storage.length - 0) 0 (λ m. false) n ∙ ground arith)
