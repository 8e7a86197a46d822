-- ===== src/Bitmap/Ranges.antt =====
-- core/bitmap.cpp, `RtlSetBits` and `RtlClearBits`: a mask for the first word, whole bytes by
-- `memset`, and a mask for the last word.
pub mod Laws
use ntreg.Base.{ℕ, ◌+◌, ◌-◌, ◌/◌, ◌%◌, Bool, true, false, ltb, ◌==◌, if◌then◌else◌}
use ntreg.Base.Word.{shl, shr, inv, and, or, ones}
use ntreg.Bitmap.State.{Buffer, Bitmap, write, fill}

-- From a word boundary on: full words, then what is left.
unfoldable pub clear_words : Buffer → (word count : ℕ) → Buffer
clear_words buffer word count =
    let filled = fill buffer word (count / 8) false in
    let last = word + count / 32 in
    let left = count % 32 in
    if left == 0 then filled else write filled last (and (filled last) (shl ones left))

unfoldable pub set_words : Buffer → (word count : ℕ) → Buffer
set_words buffer word count =
    let filled = fill buffer word (count / 8) true in
    let last = word + count / 32 in
    let left = count % 32 in
    if left == 0 then filled else write filled last (or (filled last) (inv (shl ones left)))

unfoldable pub clear_bits : Bitmap → (start count : ℕ) → Bitmap
clear_bits b start count =
    let word = start / 32 in
    let bits = start % 32 in
    let mask = shl ones bits in
    let room = 32 - bits in
    let extra = room - count in
    record b {
      buffer =
          if bits == 0
          then clear_words b.buffer word count
          else if ltb count room
          then write b.buffer word (and (b.buffer word) (inv (shr (shl mask extra) extra)))
          else clear_words (write b.buffer word (and (b.buffer word) (inv mask))) (word + 1)
              (count - room);
    }

unfoldable pub set_bits : Bitmap → (start count : ℕ) → Bitmap
set_bits b start count =
    let word = start / 32 in
    let bits = start % 32 in
    let mask = shl ones bits in
    let room = 32 - bits in
    let extra = room - count in
    record b {
      buffer =
          if bits == 0
          then set_words b.buffer word count
          else if ltb count room
          then write b.buffer word (or (b.buffer word) (shr (shl mask extra) extra))
          else set_words (write b.buffer word (or (b.buffer word) mask)) (word + 1) (count - room);
    }
