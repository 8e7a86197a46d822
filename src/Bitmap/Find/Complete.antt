-- ===== src/Bitmap/Find/Complete.antt =====
-- What `RtlFindSetBits` and `RtlFindClearBits` of core/bitmap.cpp return.
use ntreg.Base.{
  ℕ, zero, suc, ◌+◌, ◌≤◌, ◌<◌, min, ◌≡◌, ◌⊎◌, inl, inr, Bool, true, false, not, ◌==◌, if◌then◌else◌,
  add32, arith, Bool-cases, refl, not_lt→ltb, pos→not_zero,
}
use native.Mathlib.Decide.{dec_lt}
use ntreg.Bitmap.State.{Bitmap, test_bit}
use ntreg.Bitmap.Ranges.{set_bits, clear_bits}
use ntreg.Bitmap.Ranges.Laws.{in_range, test_bit-set_bits, test_bit-clear_bits}
use ntreg.Bitmap.Runs.Exact.{IsSmall}
use ntreg.Bitmap.Find.{
  Pass, found, exhausted, stuck, position, max_index, clear_pass, retry, used_hint, find_set_bits,
  find_clear_bits, find_set_bits_and_clear, find_clear_bits_and_set,
}
use ntreg.Bitmap.Find.Areas.{Area}
use ntreg.Bitmap.Find.Rounds.{Outcome, set_pass-Outcome, clear_pass-Outcome}

-- The answer of a search from `hint` on for `count` bits of value `v`: the search ends; an index has
-- the bits, and is the first from the hint on that has, or one below the hint if there is none; no
-- index means that no wanted start has them.
abbrev pub Answer : Bitmap → Bool → (count hint : ℕ) → (ℕ → Type 0) → Pass → Type 0
Answer b v count hint Wanted (found at) =
    Area b v at count
    × ((p : ℕ) → Wanted p → hint ≤ p → p < at → ¬ Area b v p count)
    × (at < hint → (p : ℕ) → Wanted p → hint ≤ p → ¬ Area b v p count)
Answer b v count hint Wanted exhausted = (p : ℕ) → Wanted p → ¬ Area b v p count
Answer b v count hint Wanted stuck = ⊥

-- Where the answer of a search in `b` is taken at its index and the other value is written through:
-- MAXINDEX and the bitmap as it was, if no wanted start has the bits; or an index that has them, and
-- a bitmap in which they, and no others, have changed.
abbrev pub Written : Bitmap → (count : ℕ) → Bool → (ℕ → Type 0) → Bitmap × ℕ → Type 0
Written b count v Wanted (c, at) =
    ((at ≡ max_index) × (c ≡ b) × ((p : ℕ) → Wanted p → ¬ Area b v p count))
    ⊎ (Area b v at count
        × ((n : ℕ) → test_bit c n ≡ (if in_range at count n then not v else test_bit b n)))

-- A pass from the hint and a pass from 0 make an answer. The second pass has to look at the wanted
-- starts below the hint.
retry-Answer :
    (b : Bitmap) (v : Bool) (count hint : ℕ) (Wanted Wanted_low : ℕ → Type 0) (pass : ℕ → ℕ → Pass)
    → Outcome b v count hint Wanted (pass b.size hint)
    → ((p : ℕ) → p < hint → Wanted p → Wanted_low p)
    → Outcome b v count 0 Wanted_low (pass (min (add32 hint count) b.size) 0)
    → Answer b v count hint Wanted (retry pass b.size count hint)
unfolding retry
retry-Answer b v count hint Wanted Wanted_low pass first low second = join (pass b.size hint) first
  where
    again :
        (p : Pass)
        → Outcome b v count 0 Wanted_low p
        → ((p : ℕ) → hint ≤ p → Wanted p → ¬ Area b v p count)
        → Answer b v count hint Wanted p
    again (found at) (_, a, _) h = (a, λ p w q _. h p q w, λ _ p w q. h p q w)
    again exhausted none_low h = λ p w. elim (dec_lt p hint) [
      | yes below ↦ none_low p (omega arith) (low p below w)
      | no above ↦ h p (omega arith) w
    ]
    again stuck o h = o

    join :
        (p : Pass)
        → Outcome b v count hint Wanted p
        → Answer b v count hint Wanted (elim p [
          | found at ↦ found at
          | exhausted ↦ if hint == 0 then exhausted else pass (min (add32 hint count) b.size) 0
          | stuck ↦ stuck
        ])
    join (found at) (le, a, first) = (a, λ p _. first p, λ below. absurd (omega arith))
    join exhausted h = elim (Bool-cases (hint == 0)) [
      | inl no_hint ↦ rw no_hint (λ p w. h p (ground arith) w)
      | inr hinted ↦ rw hinted (again _ second h)
    ]
    join stuck o = o

module _ (b : Bitmap) (count hint : ℕ) (small : IsSmall b) (pos : 0 < count)
    (fits : count ≤ b.size) where
  abbrev pub used : ℕ
  used = used_hint b.size hint

  used-lt : used < b.size
  used-lt = ground arith

  -- A search for set bits always ends. An index that it returns has the bits wanted, and is the
  -- first from the hint on that has them, or lies below the hint if there is none from the hint on;
  -- it returns none only if the bitmap has no such range at all.
  pub find_set_bits-Answer :
      Answer b true count used (λ p. p + count ≤ b.size) (find_set_bits b count hint)
  unfolding find_set_bits
  find_set_bits-Answer =
      rw (not_lt→ltb b.size count (omega arith), pos→not_zero count pos)
        (retry-Answer b true count used _ (λ p. p + count ≤ min (add32 used count) b.size) _
          (set_pass-Outcome b count b.size small pos (omega arith) fits (b.size + 1) used
            (omega (arith, used-lt)) (omega arith))
          (λ p q w. omega (arith, used-lt))
          (set_pass-Outcome b count (min (add32 used count) b.size) small pos (omega arith) fits
            (b.size + 1) 0 (omega arith) (omega arith)))

  -- A search for clear bits always ends. An index that it returns has the bits wanted, and is the
  -- first from the hint on that has them, or lies below the hint if there is none from the hint on
  -- that ends before the end of the bitmap; it returns none only if no range at all that ends there
  -- has them.
  pub find_clear_bits-Answer :
      Answer b false count used (λ p. p + count < b.size) (find_clear_bits b count hint)
  unfolding find_clear_bits
  find_clear_bits-Answer =
      rw (not_lt→ltb b.size count (omega arith), pos→not_zero count pos)
        (retry-Answer b false count used _ (λ p. p + count < min (add32 used count) b.size) _
          (clear_pass-Outcome b count b.size small pos (omega arith) fits (b.size + 1) used
            (omega (arith, used-lt)) (omega arith))
          (λ p q w. omega (arith, used-lt))
          (clear_pass-Outcome b count (min (add32 used count) b.size) small pos (omega arith) fits
            (b.size + 1) 0 (omega arith) (omega arith)))

  Area-position : (v : Bool) (at : ℕ) → Area b v at count → (at == max_index) ≡ false
  Area-position v at a = ground (arith, a.within)

  -- A search for clear bits that sets them: either MAXINDEX comes back, the bitmap is as it was
  -- and no range that ends before its end was clear; or the range at the index was clear and is
  -- now set, and no other bit changed.
  pub find_clear_bits_and_set-Written :
      Written b count false (λ p. p + count < b.size) (find_clear_bits_and_set b count hint)
  unfolding find_clear_bits_and_set
  find_clear_bits_and_set-Written = go (find_clear_bits b count hint) find_clear_bits-Answer
    where
      go :
          (r : Pass)
          → Answer b false count used (λ p. p + count < b.size) r
          → Written b count false
              (λ p. p + count < b.size)
              (if position r == max_index then b else set_bits b (position r) count, position r)
      go (found at) (a, _, _) =
          rw (Area-position false at a) (inr (a, λ n. test_bit-set_bits b at count n))
      go exhausted h = inl (refl, refl, h)
      go stuck o = absurd o

  -- A search for set bits that clears them: either MAXINDEX comes back, the bitmap is as it was and
  -- has no such range; or the range at the index was set and is now clear, and no other bit
  -- changed.
  pub find_set_bits_and_clear-Written :
      Written b count true (λ p. p + count ≤ b.size) (find_set_bits_and_clear b count hint)
  unfolding find_set_bits_and_clear
  find_set_bits_and_clear-Written = go (find_set_bits b count hint) find_set_bits-Answer
    where
      go :
          (r : Pass)
          → Answer b true count used (λ p. p + count ≤ b.size) r
          → Written b count true
              (λ p. p + count ≤ b.size)
              (if position r == max_index then b else clear_bits b (position r) count, position r)
      go (found at) (a, _, _) =
          rw (Area-position true at a) (inr (a, λ n. test_bit-clear_bits b at count n))
      go exhausted h = inl (refl, refl, h)
      go stuck o = absurd o

clear_pass_end :
    (f : ℕ) (b : Bitmap) (count margin current : ℕ)
    → 0 < f
    → margin ≤ add32 current count
    → clear_pass f b count margin current ≡ exhausted
unfolding clear_pass
clear_pass_end zero b count margin current h end = absurd (omega arith)
clear_pass_end (suc f) b count margin current h end =
    rw (not_lt→ltb (add32 current count) margin (omega arith))

retry-exhausted :
    (pass : ℕ → ℕ → Pass) (size count hint : ℕ)
    → pass size hint ≡ exhausted
    → pass (min (add32 hint count) size) 0 ≡ exhausted
    → retry pass size count hint ≡ exhausted
unfolding retry
retry-exhausted pass size count hint e f = rw (e, retry) (split (hint == 0))
  where
    split : (t : Bool) → (if t then exhausted else pass (min (add32 hint count) size) 0) ≡ exhausted
    split true = refl
    split false = f

-- Asked for as many clear bits as the bitmap has, the search returns MAXINDEX whatever the bits
-- are: the loop condition leaves out a range that ends at the end of the bitmap.
pub find_clear_bits-whole :
    (b : Bitmap) (hint : ℕ)
    → IsSmall b
    → 0 < b.size
    → position (find_clear_bits b b.size hint) ≡ max_index
unfolding find_clear_bits
find_clear_bits-whole b hint small pos =
    rw
      (
        not_lt→ltb b.size b.size (omega arith),
        pos→not_zero b.size pos,
        retry-exhausted (clear_pass (b.size + 1) b b.size) b.size b.size (used_hint b.size hint)
            (clear_pass_end (b.size + 1) b b.size b.size (used_hint b.size hint) (omega arith)
              (ground arith))
            (clear_pass_end (b.size + 1) b b.size
              (min (add32 (used_hint b.size hint) b.size) b.size) 0 (omega arith) (omega arith)),
      )
      refl
