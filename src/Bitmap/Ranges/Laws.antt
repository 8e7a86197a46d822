-- ===== src/Bitmap/Ranges/Laws.antt =====
-- `RtlSetBits` and `RtlClearBits` of core/bitmap.cpp change exactly the bits of their range.
use ntreg.Base.{
  ℕ, ◌+◌, ◌-◌, ◌*◌, ◌/◌, ◌%◌, ◌<◌, ◌≡◌, Bool, true, false, ◌&&◌, arith, ltb, leb, if◌then◌else◌,
}
use ntreg.Base.Word.{shl, inv, and, or, ones}
use ntreg.Bitmap.State.{Buffer, Bitmap, write, test_bit}
use ntreg.Bitmap.Ranges.{clear_words, set_words, clear_bits, set_bits}

-- Bit n lies in the `count` bits from `start` on.
abbrev pub in_range : (start count n : ℕ) → Bool
in_range start count n = leb start n && ltb n (start + count)

set_words_lem :
    (buffer : Buffer) (word count m i : ℕ)
    → i < 32
    → set_words buffer word count m i
      ≡ (if in_range (32 * word) count (32 * m + i) then true else buffer m i)
unfolding set_words
set_words_lem buffer word count m i h = ground arith

clear_words_lem :
    (buffer : Buffer) (word count m i : ℕ)
    → i < 32
    → clear_words buffer word count m i
      ≡ (if in_range (32 * word) count (32 * m + i) then false else buffer m i)
unfolding clear_words
clear_words_lem buffer word count m i h = ground arith

-- Setting a range turns on the bits of the range and leaves every other bit of memory as it was.
pub test_bit-set_bits :
    (b : Bitmap) (start count n : ℕ)
    → test_bit (set_bits b start count) n ≡ (if in_range start count n then true else test_bit b n)
unfolding set_bits
test_bit-set_bits b start count n = ground (
  arith,
  set_words_lem b.buffer (start / 32) count (n / 32) (n % 32) (omega arith),
  set_words_lem (write b.buffer (start / 32) (or (b.buffer (start / 32)) (shl ones (start % 32))))
      (start / 32 + 1) (count - (32 - start % 32)) (n / 32) (n % 32) (omega arith),
)

-- Clearing a range turns off the bits of the range and leaves every other bit of memory as it was.
pub test_bit-clear_bits :
    (b : Bitmap) (start count n : ℕ)
    → test_bit (clear_bits b start count) n
      ≡ (if in_range start count n then false else test_bit b n)
unfolding clear_bits
test_bit-clear_bits b start count n = ground (
  arith,
  clear_words_lem b.buffer (start / 32) count (n / 32) (n % 32) (omega arith),
  clear_words_lem
      (write b.buffer (start / 32) (and (b.buffer (start / 32)) (inv (shl ones (start % 32)))))
      (start / 32 + 1) (count - (32 - start % 32)) (n / 32) (n % 32) (omega arith),
)
