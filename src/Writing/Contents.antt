-- ===== src/Writing/Contents.antt =====
-- What the files of a hive contain after calls of the callbacks. A write that is answered with TRUE
-- puts its bytes at its offset; one that is refused leaves any bytes there. Each leaves the rest of
-- its file, and the other files, as they were.
use ntreg.Base.{
  ℕ, zero, suc, ◌+◌, ◌-◌, ◌*◌, ◌≤◌, ◌<◌, ◌≡◌, ◌≢◌, refl, inl, inr, ◌⊎◌, Bool, true, false, ◌&&◌,
  ltb, leb, ◌==◌, if◌then◌else◌, List, [], ◌∷◌, ◌++◌, arith, Bool-cases, ◌∙◌, add32,
}
use mathlib.Core.Path.{subst}
use ntreg.Base.Word.{Word}
use ntreg.Cells.State.{Hive}
use ntreg.Bitmap.State.{test_bit}
use ntreg.Writing.File.{Event, file_write, file_flush, HiveFile, Answers, block_bytes, log_file}
use ntreg.Writing.Primary.{block_offset}
use ntreg.Writing.Blocks.{dirty_from}
use ntreg.Writing.Calls.{push, AreAccepted}
use ntreg.Writing.Loops.{block_calls, log_calls}

-- The bytes of each file before the calls of a trace, by the file and the offset; and those that a
-- write leaves in its range when it is refused, by the calls before it, the call and the offset.
pub record Disk : Type 0 where
  pub before : (file : ℕ) → ℕ → Word
  pub torn : List Event → Event → ℕ → Word

-- One more block in front of a range, dirty or not.
extend_hit :
    (x y : Word) (i j n : ℕ) (b : Bool)
    → (i ≡ j → b ≡ true)
    → (if (leb (j + 1) i && ltb i (j + 1 + n)) && b then x else (if i == j then x else y))
      ≡ (if (leb j i && ltb i (j + suc n)) && b then x else y)
extend_hit x y i j n b h = ground arith

extend_miss :
    (x y : Word) (i j n : ℕ) (b : Bool)
    → (i ≡ j → b ≡ false)
    → (if (leb (j + 1) i && ltb i (j + 1 + n)) && b then x else y)
      ≡ (if (leb j i && ltb i (j + suc n)) && b then x else y)
extend_miss x y i j n b h = ground arith

-- Calls for one file.
abbrev pub AreFor : ℕ → List Event → Type 0
AreFor file [] = Unit
AreFor file (file_write other offset buffer length ∷ es) = (other ≡ file) × AreFor file es
AreFor file (file_flush other ∷ es) = (other ≡ file) × AreFor file es

pub block_calls-AreFor :
    (file : ℕ) (s : HiveFile) (is : List ℕ) (es : List Event)
    → AreFor file es
    → AreFor file (block_calls file s is ++ es)
block_calls-AreFor file s [] es for = for
block_calls-AreFor file s (i ∷ is) es for = (refl, block_calls-AreFor file s is es for)

pub log_calls-AreFor :
    (s : HiveFile) (offset : ℕ) (is : List ℕ) (es : List Event)
    → AreFor log_file es
    → AreFor log_file (log_calls s offset is ++ es)
log_calls-AreFor s offset [] es for = for
log_calls-AreFor s offset (i ∷ is) es for = (refl, log_calls-AreFor s (add32 offset 4096) is es for)

pub AreFor-append : (file : ℕ) (es fs : List Event) → AreFor file (es ++ fs) → AreFor file es
AreFor-append file [] fs for = tt
AreFor-append file (file_write other offset buffer length ∷ es) fs (same, for) =
    (same, AreFor-append file es fs for)
AreFor-append file (file_flush other ∷ es) fs (same, for) = (same, AreFor-append file es fs for)

-- Writes into a range of offsets.
abbrev pub AreWithin : (lo hi : ℕ) → List Event → Type 0
AreWithin lo hi [] = Unit
AreWithin lo hi (file_write file offset buffer length ∷ es) =
    (lo ≤ offset) × (offset + length ≤ hi) × AreWithin lo hi es
AreWithin lo hi (file_flush file ∷ es) = AreWithin lo hi es

pub AreWithin-append :
    (lo hi : ℕ) (es fs : List Event) → AreWithin lo hi (es ++ fs) → AreWithin lo hi es
AreWithin-append lo hi [] fs w = tt
AreWithin-append lo hi (file_write file offset buffer length ∷ es) fs (le, ge, w) =
    (le, ge, AreWithin-append lo hi es fs w)
AreWithin-append lo hi (file_flush file ∷ es) fs w = AreWithin-append lo hi es fs w

pub block_calls-AreWithin :
    (file : ℕ) (s : HiveFile) (n j : ℕ)
    → j + n < 0x8_0000
    → AreWithin 4096 0x1_0000_0000 (block_calls file s (dirty_from s.hive n j))
unfolding dirty_from
block_calls-AreWithin file s zero j few = tt
block_calls-AreWithin file s (suc n) j few = elim (Bool-cases (test_bit s.hive.dirty_vector j)) [
  | inl set ↦
      rw set (omega arith, omega arith, block_calls-AreWithin file s n (j + 1) (omega arith))
  | inr clear ↦ rw clear (block_calls-AreWithin file s n (j + 1) (omega arith))
]

dirty_from-set :
    (h : Hive) (n j : ℕ)
    → test_bit h.dirty_vector j ≡ true
    → dirty_from h (suc n) j ≡ j ∷ dirty_from h n (j + 1)
unfolding dirty_from
dirty_from-set h n j set = rw set refl

dirty_from-clear :
    (h : Hive) (n j : ℕ)
    → test_bit h.dirty_vector j ≡ false
    → dirty_from h (suc n) j ≡ dirty_from h n (j + 1)
unfolding dirty_from
dirty_from-clear h n j clear = rw clear refl

module _ (accepts : Answers) (disk : Disk) where
  abbrev pub contents : (file : ℕ) → List Event → ℕ → Word
  contents file [] p = disk.before file p
  contents file (file_write other offset buffer length ∷ trace) p =
      if other == file && (leb offset p && ltb p (offset + length))
      then (if accepts trace (file_write other offset buffer length)
          then buffer (p - offset)
          else disk.torn trace (file_write other offset buffer length) p)
      else contents file trace p
  contents file (file_flush other ∷ trace) p = contents file trace p

  -- A block that is written is read back from its place, and nowhere else.
  block_call :
      (file : ℕ) (s : HiveFile) (j : ℕ) (trace : List Event) (i k : ℕ)
      → j + 1 < 0x8_0000
      → k < 4096
      → accepts trace (file_write file (block_offset j) (block_bytes s j) 4096) ≡ true
      → contents file
          (file_write file (block_offset j) (block_bytes s j) 4096 ∷ trace)
          ((i + 1) * 4096 + k)
        ≡ (if i == j then block_bytes s i k else contents file trace ((i + 1) * 4096 + k))
  block_call file s j trace i k few small taken = elim (Bool-cases (i == j)) [
    | inl here ↦
        let same : i ≡ j = ground arith in
        let hit : (file == file
              && (leb (block_offset j) ((j + 1) * 4096 + k)
                  && ltb ((j + 1) * 4096 + k) (block_offset j + 4096)))
            ≡ true =
          ground arith in
        let place : (j + 1) * 4096 + k - block_offset j ≡ k = omega arith in
        let itself : (j == j) ≡ true = ground arith in rw (same, hit, place, itself, taken) refl
    | inr there ↦
        let miss : (file == file
              && (leb (block_offset j) ((i + 1) * 4096 + k)
                  && ltb ((i + 1) * 4096 + k) (block_offset j + 4096)))
            ≡ false =
          ground arith in
        rw (miss, there) refl
  ]

  -- Writing the dirty blocks among `n` from `j` on puts their bytes in their places in the file, and
  -- leaves all other blocks as they were.
  pub contents-block_calls :
      (file : ℕ) (s : HiveFile) (n j : ℕ) (trace : List Event) (i k : ℕ)
      → j + n < 0x8_0000
      → k < 4096
      → AreAccepted accepts (block_calls file s (dirty_from s.hive n j)) trace
      → contents file (push (block_calls file s (dirty_from s.hive n j)) trace) ((i + 1) * 4096 + k)
        ≡ (if (leb j i && ltb i (j + n)) && test_bit s.hive.dirty_vector i
            then block_bytes s i k
            else contents file trace ((i + 1) * 4096 + k))
  unfolding dirty_from
  contents-block_calls file s zero j trace i k few small all =
      let outside : (leb j i && ltb i (j + 0)) ≡ false = ground arith in rw outside refl
  contents-block_calls file s (suc n) j trace i k few small all =
      let w = file_write file (block_offset j) (block_bytes s j) 4096 in
      elim (Bool-cases (test_bit s.hive.dirty_vector j)) [
        | inl set ↦
            let taken : AreAccepted accepts (w ∷ block_calls file s (dirty_from s.hive n (j + 1)))
                trace =
              subst (λ is. AreAccepted accepts (block_calls file s is) trace)
                (dirty_from-set s.hive n j set) all in
            rw set (
              contents-block_calls file s n (j + 1) (w ∷ trace) i k (omega arith) small taken.1
              ∙ rw (block_call file s j trace i k (omega arith) small taken.0)
                  (extend_hit _ _ i j n (test_bit s.hive.dirty_vector i) (λ e. rw e set)))
        | inr clear ↦
            let taken : AreAccepted accepts (block_calls file s (dirty_from s.hive n (j + 1)))
                trace =
              subst (λ is. AreAccepted accepts (block_calls file s is) trace)
                (dirty_from-clear s.hive n j clear) all in
            rw clear (
              contents-block_calls file s n (j + 1) trace i k (omega arith) small taken
              ∙ extend_miss _ _ i j n (test_bit s.hive.dirty_vector i) (λ e. rw e clear))
      ]

  -- They leave what is outside the range.
  pub contents-outside :
      (file lo hi : ℕ) (es trace : List Event) (p : ℕ)
      → AreWithin lo hi es
      → (p < lo) ⊎ (hi ≤ p)
      → contents file (push es trace) p ≡ contents file trace p
  contents-outside file lo hi [] trace p w out = refl
  contents-outside file lo hi (file_write f offset buffer length ∷ es) trace p (le, ge, w) out =
      let miss : (f == file && (leb offset p && ltb p (offset + length))) ≡ false = ground arith in
      contents-outside file lo hi es _ p w out ∙ rw miss refl
  contents-outside file lo hi (file_flush f ∷ es) trace p w out =
      contents-outside file lo hi es _ p w out

  -- They leave the other files.
  pub contents-other :
      (file other : ℕ) (es trace : List Event) (p : ℕ)
      → file ≢ other
      → AreFor other es
      → contents file (push es trace) p ≡ contents file trace p
  contents-other file other [] trace p apart for = refl
  contents-other file other (file_write f offset buffer length ∷ es) trace p apart (same, for) =
      let miss : (f == file) ≡ false = ground (arith, apart) in
      contents-other file other es _ p apart for ∙ rw miss refl
  contents-other file other (file_flush f ∷ es) trace p apart (same, for) =
      contents-other file other es _ p apart for
