-- ===== src/Header/Verify/Laws.antt =====
-- Which headers `HvpVerifyHiveHeader` of core/hiveinit.cpp accepts, of those that core/hivewrt.cpp
-- writes and of those that have a wrong bit.
use ntreg.Base.{
  ℕ, ◌<◌, ◌≡◌, ◌≢◌, refl, sym, ◌∙◌, inl, inr, Bool, true, false, not, ◌&&◌, ◌==◌, ulong, arith,
  Bool-cases, ap, fun_ext,
}
use ntreg.Base.Word.{Word, is_zero, is_zero-clear}
use ntreg.Header.Checksum.{differ, xor, zero_word, hive_header_checksum}
use ntreg.Header.Checksum.Laws.{hive_header_checksum-same, hive_header_checksum-changed}
use ntreg.Header.Verify.{is_format_known, is_equal, verify_hive_header}
use ntreg.Writing.File.{BaseBlock, words, seal, begin_write, end_write}

differ-itself : (b : Bool) → differ b b ≡ false
differ-itself true = refl
differ-itself false = refl

differ-false : (a b : Bool) → differ a b ≡ false → a ≡ b
differ-false true true e = refl
differ-false false false e = refl
differ-false true false e = cc
differ-false false true e = cc

is_equal-itself : (w : Word) → is_equal w w ≡ true
unfolding is_zero
is_equal-itself w =
    let same : xor w w ≡ zero_word = fun_ext (λ i. differ-itself (w i)) in ap is_zero same

is_equal-bits : (a b : Word) → is_equal a b ≡ true → (k : ℕ) → k < 32 → a k ≡ b k
is_equal-bits a b e k inside = differ-false (a k) (b k) (is_zero-clear (xor a b) k e inside)

words-sealed :
    (b : BaseBlock) (w : Word) (j k : ℕ)
    → j < 127
    → words (record b { check_sum = w }) j k ≡ words b j k
unfolding words
words-sealed b w j k inside = let other : (j == 127) ≡ false = ground arith in rw other refl

and_true : (a b c : Bool) → (a && b && c && true) ≡ (a && b && c)
and_true a b c = ground arith

-- A checksum that has just been made is right.
verify_hive_header-seal :
    (b : BaseBlock) (kind : ℕ)
    → verify_hive_header (seal b) kind
      ≡ (is_format_known b && (b.file_type == kind) && (b.sequence1 == b.sequence2))
unfolding verify_hive_header seal is_format_known
verify_hive_header-seal b kind =
    let sum = hive_header_checksum (words b) in
    rw
      (
        hive_header_checksum-same (words b) (words (record b { check_sum = sum }))
            (λ j k. words-sealed b sum j k),
        is_equal-itself sum,
      )
      (and_true (is_format_known b) (b.file_type == kind) (b.sequence1 == b.sequence2))

pub verify_hive_header-end_write :
    (b : BaseBlock) (kind k : ℕ)
    → is_format_known b ≡ true
    → b.sequence1 ≡ b.sequence2
    → verify_hive_header (end_write (begin_write kind b)) k ≡ (kind == k)
unfolding begin_write end_write seal is_format_known
verify_hive_header-end_write b kind k known agree =
    verify_hive_header-seal _ k ∙ ground (arith, known, agree)

pub verify_hive_header-begin_write :
    (b : BaseBlock) (kind k : ℕ)
    → b.sequence1 ≡ b.sequence2
    → b.sequence1 < ulong
    → verify_hive_header (begin_write kind b) k ≡ false
unfolding begin_write end_write seal is_format_known
verify_hive_header-begin_write b kind k agree small =
    verify_hive_header-seal _ k ∙ ground (arith, agree)

-- Of two headers with the same checksum field that differ, at some bit position but the lowest, in
-- exactly one of the words that are summed, at most one is accepted.
pub verify_hive_header-changed :
    (b b' : BaseBlock) (j k kind kind' : ℕ)
    → j < 127
    → 0 < k
    → k < 32
    → ((i : ℕ) → i < 127 → i ≢ j → words b' i k ≡ words b i k)
    → words b' j k ≡ not (words b j k)
    → b'.check_sum ≡ b.check_sum
    → verify_hive_header b kind ≡ true
    → verify_hive_header b' kind' ≡ false
unfolding verify_hive_header
verify_hive_header-changed b b' j k kind kind' inside lo hi same changed sums accepted =
    elim (Bool-cases (is_equal (hive_header_checksum (words b')) b'.check_sum)) [
      | inr wrong ↦ rw wrong (ground arith)
      | inl right ↦
          let was : is_equal (hive_header_checksum (words b)) b.check_sum ≡ true =
            ground (arith, accepted) in
          let f = hive_header_checksum-changed (words b) (words b') j k inside lo hi same changed in
          let g = is_equal-bits (hive_header_checksum (words b)) b.check_sum was k hi in
          let h =
            is_equal-bits (hive_header_checksum (words b')) b'.check_sum right k hi
            ∙ ap (λ w. w k) sums in
          absurd (not_itself _ (sym f ∙ h ∙ sym g))
    ]
  where
    not_itself : (c : Bool) → not c ≢ c
    not_itself c e = ground arith
