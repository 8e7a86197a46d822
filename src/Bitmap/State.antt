-- ===== src/Bitmap/State.antt =====
-- core/bitmap.cpp: the bitmap header, initialisation, and the operations on one bit. The buffer is
-- the memory from `Buffer` on, word by word; only the words that hold the first `size` bits belong
-- to the bitmap. An `ASSERT` of this program prints and goes on, so it has no part here.
pub mod Laws
use ntreg.Base.{
  ℕ, ◌+◌, ◌-◌, ◌*◌, ◌/◌, ◌%◌, ◌≤◌, ◌<◌, Bool, true, false, not, ◌&&◌, ◌||◌, ltb, leb, ◌==◌,
  if◌then◌else◌,
}
use ntreg.Base.Word.{Word, shl, inv, and, or}

abbrev pub Buffer : Type 0
Buffer = ℕ → Word

pub record Bitmap : Type 0 where
  pub size : ℕ
  pub buffer : Buffer

unfoldable pub initialize_bitmap : Buffer → ℕ → Bitmap
initialize_bitmap buffer size = record { size = size; buffer = buffer }

-- *word = value
abbrev pub write : Buffer → ℕ → Word → Buffer
write buffer n w m = if m == n then w else buffer m

-- `RtlFillMemoryUlong` is `memset`: `count` bytes from word `start` on get the byte all of whose
-- bits are `b`. Bit i of word m lies in byte 4 * m + i / 8.
abbrev pub fill : Buffer → (start count : ℕ) → Bool → Buffer
fill buffer start count b m i =
    if leb (4 * start) (4 * m + i / 8) && ltb (4 * m + i / 8) (4 * start + count)
    then b
    else buffer m i

-- The single bit 1 << n.
abbrev pub bit : ℕ → Word
bit n i = i == n

unfoldable pub clear_all_bits : Bitmap → Bitmap
clear_all_bits b = record b { buffer = fill b.buffer 0 ((b.size + 31) / 32 * 4) false }

unfoldable pub set_all_bits : Bitmap → Bitmap
set_all_bits b = record b { buffer = fill b.buffer 0 ((b.size + 31) / 32 * 4) true }

unfoldable pub clear_bit : Bitmap → ℕ → Bitmap
clear_bit b n = record b {
  buffer = write b.buffer (n / 32) (and (b.buffer (n / 32)) (inv (bit (n % 32))));
}

unfoldable pub set_bit : Bitmap → ℕ → Bitmap
set_bit b n = record b { buffer = write b.buffer (n / 32) (or (b.buffer (n / 32)) (bit (n % 32))) }

-- (Buffer[n / 32] >> (n & 31)) & 1, also the macro `RtlCheckBit` of include/cmlib.hpp.
abbrev pub test_bit : Bitmap → ℕ → Bool
test_bit b n = b.buffer (n / 32) (n % 32)
