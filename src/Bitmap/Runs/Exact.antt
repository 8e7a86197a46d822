-- ===== src/Bitmap/Runs/Exact.antt =====
-- The two run lengths of core/bitmap.cpp measure runs of equal bits exactly, up to the limit asked.
use ntreg.Base.{
  ℕ, zero, suc, ◌+◌, ◌-◌, ◌*◌, ◌/◌, ◌%◌, ◌≤◌, ◌<◌, ◌≡◌, refl, ap, ◌⊎◌, inl, inr, Bool, true, false,
  not, ◌&&◌, ltb, leb, if◌then◌else◌, add32, sub32, arith, Bool-cases, lt→ltb, not_lt→ltb,
  lt→not_leb, le→leb,
}
use native.Mathlib.Decide.{dec_lt}
use ntreg.Base.Word.{Word, shl, shr, inv, is_zero, is_zero-clear, zero_or_Least, Least}
use ntreg.Rtl.Scan.Laws.{bit_scan_forward-Least}
use ntreg.Bitmap.State.{Bitmap, test_bit}
use ntreg.Bitmap.Runs.{
  skip_clear, skip_set, run_length, run_limit, run_last, length_of_run_clear, length_of_run_set,
}

-- Bitmaps of less than half of the 32-bit range, where no index arithmetic wraps.
abbrev pub IsSmall : Bitmap → Type 0
IsSmall b = b.size < 0x8000_0000

-- Of the bits from `start` on, `r` are equal to `v`: they lie in the bitmap, and the run ends there
-- unless `max` bits or the rest of the bitmap were counted.
pub record IsRun (b : Bitmap) (v : Bool) (start max r : ℕ) : Type 0 where
  pub within : start + r ≤ b.size
  pub same : (n : ℕ) → start ≤ n → n < start + r → test_bit b n ≡ v
  pub stop : r < run_limit b start max → test_bit b (start + r) ≡ not v

-- The word before `suc prev` is held in `value`, without its bits before `start`; all earlier bits
-- of the run are clear.
record Scans (b : Bitmap) (start : ℕ) (value : Word) (prev : ℕ) : Type 0 where
  reaches : start < 32 * (prev + 1)
  holds : (i : ℕ) → i < 32 → start ≤ 32 * prev + i → value i ≡ b.buffer prev i
  masked : (i : ℕ) → i < 32 → 32 * prev + i < start → value i ≡ false
  clear : (n : ℕ) → start ≤ n → n < 32 * prev → test_bit b n ≡ false

Scans-next :
    (b : Bitmap) (start prev : ℕ) (value : Word)
    → Scans b start value prev
    → is_zero value ≡ true
    → Scans b start (b.buffer (prev + 1)) (prev + 1)
Scans-next b start prev value s z = record {
  reaches = omega (arith, s.reaches);
  holds = λ i h p. refl;
  masked = λ i h p. absurd (omega (arith, s.reaches));
  clear = λ n p q. elim (dec_lt n (32 * prev)) [
    | yes before ↦ s.clear n p before
    | no after ↦
        ground (arith, s.holds (n % 32) (omega arith) (omega arith), is_zero-clear value (n % 32) z)
  ];
}

-- Where the loop stops: in a word that is not zero, or behind the last word.
record Stopped (b : Bitmap) (start last : ℕ) (found : Word × ℕ) : Type 0 where
  prev : ℕ
  next_is : found.1 ≡ prev + 1
  bound : prev ≤ last
  scans : Scans b start found.0 prev
  ended : is_zero found.0 ≡ true → last ≤ found.1

skip_clear-Stopped :
    (f : ℕ) (b : Bitmap) (start prev last : ℕ) (value : Word)
    → Scans b start value prev
    → prev ≤ last
    → last ≤ f + (prev + 1)
    → Stopped b start last (skip_clear f b.buffer value (prev + 1) last)
unfolding skip_clear
skip_clear-Stopped zero b start prev last value s reach enough = record {
  prev = prev;
  next_is = refl;
  bound = reach;
  scans = s;
  ended = λ z. omega arith;
}
skip_clear-Stopped (suc f) b start prev last value s reach enough =
    elim (Bool-cases (is_zero value && ltb (prev + 1) last)) [
      | inl more ↦ rw more (
          skip_clear-Stopped f b start (prev + 1) last (b.buffer (prev + 1))
            (Scans-next b start prev value s (ground arith)) (ground arith) (omega arith))
      | inr stop ↦ rw stop (record {
        prev = prev;
        next_is = refl;
        bound = reach;
        scans = s;
        ended = λ z. ground arith;
      })
    ]

Scans-first :
    (b : Bitmap) (start : ℕ)
    → Scans b start (shl (shr (b.buffer (start / 32)) (start % 32)) (start % 32)) (start / 32)
Scans-first b start = record {
  reaches = omega arith;
  holds = λ i h p. ground arith;
  masked = λ i h p. ground arith;
  clear = λ n p q. absurd (omega arith);
}

module _ (b : Bitmap) (start max : ℕ) (small : IsSmall b) (inside : start < b.size) where
  -- The loop ran through the last word: every bit up to the limit is clear.
  run_length-zero :
      (value : Word) (prev : ℕ)
      → Scans b start value prev
      → is_zero value ≡ true
      → run_last b start max ≤ prev + 1
      → IsRun b false start max (run_length b.size start (run_limit b start max) (value, prev + 1))
  unfolding run_length
  run_length-zero value prev s z ended = rw z (record {
    within = omega arith;
    same = λ n p q. (Scans-next b start prev value s z).clear n p (omega arith);
    stop = λ h. absurd (omega arith);
  })

  -- The index computed from the scan is that of the set bit.
  run_length_wraps_not :
      (prev k : ℕ)
      → k < 32
      → prev ≤ run_last b start max
      → start ≤ 32 * prev + k
      → start < 32 * (prev + 1)
      → add32 (sub32 ((prev + 1) * 32) start) (sub32 k 32) ≡ 32 * prev + k - start
  run_length_wraps_not prev k h p q r = omega arith

  run_length-Least :
      (value : Word) (prev k : ℕ)
      → Scans b start value prev
      → prev ≤ run_last b start max
      → is_zero value ≡ false
      → Least value 32 k
      → IsRun b false start max (run_length b.size start (run_limit b start max) (value, prev + 1))
  unfolding run_length
  run_length-Least value prev k s reach z l =
      rw
        (
          z,
          bit_scan_forward-Least value k l,
          run_length_wraps_not prev k l.below reach after s.reaches,
        )
        (elim (dec_lt (b.size - start) (32 * prev + k - start)) [
          | yes long ↦ rw (lt→ltb _ _ long) (record {
            within = omega arith;
            same = λ n p q. clear n p (omega arith);
            stop = λ h. absurd (omega arith);
          })
          | no short ↦ rw (not_lt→ltb _ _ short) (record {
            within = omega arith;
            same = λ n p q. clear n p (omega arith);
            stop = λ h. set;
          })
        ])
    where
      after : start ≤ 32 * prev + k
      after = elim (dec_lt (32 * prev + k) start) [
        | yes before ↦ ground (arith, s.masked k l.below before, l.holds)
        | no h ↦ omega arith
      ]

      clear : (n : ℕ) → start ≤ n → n < 32 * prev + k → test_bit b n ≡ false
      clear n p q = elim (dec_lt n (32 * prev)) [
        | yes before ↦ s.clear n p before
        | no h ↦ ground (arith, s.holds (n % 32) (omega arith) (omega arith), l.first (n % 32))
      ]

      set : test_bit b (start + (32 * prev + k - start)) ≡ true
      set = ground (arith, after, s.holds k l.below after, l.holds)

  Stopped-IsRun :
      (found : Word × ℕ)
      → Stopped b start (run_last b start max) found
      → IsRun b false start max (run_length b.size start (run_limit b start max) found)
  Stopped-IsRun (value, next) s = rw s.next_is (cases (zero_or_Least value))
    where
      cases :
          (is_zero value ≡ true) ⊎ ((k : ℕ) × Least value 32 k × (is_zero value ≡ false))
          → IsRun b false start max
              (run_length b.size start (run_limit b start max) (value, s.prev + 1))
      cases (inl z) = run_length-zero value s.prev s.scans z (omega (arith, s.ended z, s.next_is))
      cases (inr (k, l, z)) = run_length-Least value s.prev k s.scans s.bound z l

  -- Inside the bitmap the length of a clear run is exact, up to the limit.
  pub length_of_run_clear-IsRun : IsRun b false start max (length_of_run_clear b start max)
  unfolding length_of_run_clear
  length_of_run_clear-IsRun = rw (lt→not_leb _ _ inside) (
      Stopped-IsRun _ (
        skip_clear-Stopped (run_last b start max) b start (start / 32) (run_last b start max) _
          (Scans-first b start) (omega arith) (omega arith)))

-- The bitmap with every bit inverted.
inverse : Bitmap → Bitmap
inverse b = record b { buffer = λ n. inv (b.buffer n) }

skip_set-inverse :
    (f : ℕ) (b : Bitmap) (value : Word) (next last : ℕ)
    → skip_set f b.buffer value next last ≡ skip_clear f (inverse b).buffer value next last
unfolding skip_set skip_clear inverse
skip_set-inverse zero b value next last = refl
skip_set-inverse (suc f) b value next last =
    rw (skip_set-inverse f b (inv (b.buffer next)) (next + 1) last)

length_of_run_set-inverse :
    (b : Bitmap) (start max : ℕ)
    → length_of_run_set b start max ≡ length_of_run_clear (inverse b) start max
unfolding length_of_run_set length_of_run_clear inverse
length_of_run_set-inverse b start max =
    ap
      (λ found.
        if leb b.size start then 0 else run_length b.size start (run_limit b start max) found)
      (skip_set-inverse (run_last b start max) b _ (start / 32 + 1) (run_last b start max))

-- Inside the bitmap the length of a set run is exact, up to the limit.
pub length_of_run_set-IsRun :
    (b : Bitmap) (start max : ℕ)
    → IsSmall b
    → start < b.size
    → IsRun b true start max (length_of_run_set b start max)
unfolding inverse
length_of_run_set-IsRun b start max small inside =
    let run = length_of_run_clear-IsRun (inverse b) start max small inside in
    rw length_of_run_set-inverse (record {
      within = run.within;
      same = λ n p q. ground (arith, run.same n p q);
      stop = λ h. ground (arith, run.stop h);
    })

-- At the end of the bitmap, and past it, both lengths are 0.
pub length_of_run-outside :
    (b : Bitmap) (start max : ℕ)
    → b.size ≤ start
    → (length_of_run_clear b start max ≡ 0) × (length_of_run_set b start max ≡ 0)
unfolding length_of_run_clear length_of_run_set
length_of_run-outside b start max h = (rw (le→leb _ _ h), rw (le→leb _ _ h))
