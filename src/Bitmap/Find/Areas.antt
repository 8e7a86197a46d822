-- ===== src/Bitmap/Find/Areas.antt =====
-- `RtlAreBitsClear` and `RtlAreBitsSet` of core/bitmap.cpp decide that a range has one value.
use ntreg.Base.{
  ℕ, ◌+◌, ◌≤◌, ◌<◌, ◌≡◌, ◌↔◌, inl, inr, Bool, true, false, ltb, leb, ◌||◌, add32, ulong, arith,
  Bool-cases, leb→le, le→leb,
}
use ntreg.Bitmap.State.{Bitmap, test_bit}
use ntreg.Bitmap.Runs.Exact.{IsSmall, IsRun, length_of_run_clear-IsRun, length_of_run_set-IsRun}
use ntreg.Bitmap.Find.{are_bits_clear, are_bits_set}

-- The `count` bits from `start` on lie in the bitmap and have the value `v`.
pub record Area (b : Bitmap) (v : Bool) (start count : ℕ) : Type 0 where
  pub within : start + count ≤ b.size
  pub same : (n : ℕ) → start ≤ n → n < start + count → test_bit b n ≡ v

module _ {b : Bitmap} {v : Bool} {start count r : ℕ} (run : IsRun b v start count r)
    (fits : start + count ≤ b.size) where
  -- A run that is at least as long as was asked is an area of that length, and conversely.
  IsRun→Area : count ≤ r → Area b v start count
  IsRun→Area h = record { within = fits; same = λ n p q. run.same n p (omega arith) }

  Area→le : Area b v start count → count ≤ r
  Area→le a = ground (arith, run.stop, a.same (start + r))

-- The test on the parameters of a range, which may wrap.
abbrev pub bad_range : (size start count : ℕ) → Bool
bad_range size start count = ltb size (add32 start count) || leb (add32 start count) start

bad_range-Area :
    (b : Bitmap) (v : Bool) (start count : ℕ)
    → IsSmall b
    → start < ulong
    → count < ulong
    → bad_range b.size start count ≡ true
    → 0 < count
    → ¬ Area b v start count
bad_range-Area b v start count small hs hc bad pos a = ground (arith, a.within)

module _ (b : Bitmap) (start count : ℕ) (small : IsSmall b) (start_word : start < ulong)
    (count_word : count < ulong) where
  good_range : bad_range b.size start count ≡ false → (0 < count) × (start + count ≤ b.size)
  good_range h = ground arith

  -- True exactly when the range is not empty, lies in the bitmap, and has clear bits only.
  pub are_bits_clear_iff :
      (are_bits_clear b start count ≡ true) ↔ ((0 < count) × Area b false start count)
  unfolding are_bits_clear
  are_bits_clear_iff = elim (Bool-cases (bad_range b.size start count)) [
    | inl bad ↦ rw bad (
      λ h. cc,
      λ h. absurd (bad_range-Area b false start count small start_word count_word bad h.0 h.1),
    )
    | inr good ↦
        let fits = good_range good in
        let run = length_of_run_clear-IsRun b start count small (omega (arith, fits)) in
        rw good (
          λ h. (fits.0, IsRun→Area run fits.1 (leb→le _ _ h)),
          λ h. le→leb _ _ (Area→le run fits.1 h.1),
        )
  ]

  -- True exactly when the range is not empty, lies in the bitmap, and has set bits only.
  pub are_bits_set_iff :
      (are_bits_set b start count ≡ true) ↔ ((0 < count) × Area b true start count)
  unfolding are_bits_set
  are_bits_set_iff = elim (Bool-cases (bad_range b.size start count)) [
    | inl bad ↦ rw bad (
      λ h. cc,
      λ h. absurd (bad_range-Area b true start count small start_word count_word bad h.0 h.1),
    )
    | inr good ↦
        let fits = good_range good in
        let run = length_of_run_set-IsRun b start count small (omega (arith, fits)) in
        rw good (
          λ h. (fits.0, IsRun→Area run fits.1 (leb→le _ _ h)),
          λ h. le→leb _ _ (Area→le run fits.1 h.1),
        )
  ]
