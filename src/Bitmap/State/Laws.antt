-- ===== src/Bitmap/State/Laws.antt =====
-- The operations of core/bitmap.cpp on one bit and on all bits, seen through `RtlTestBit`.
use ntreg.Base.{ℕ, ◌<◌, ◌≡◌, true, false, arith, ◌==◌, if◌then◌else◌}
use ntreg.Bitmap.State.{Bitmap, set_bit, clear_bit, set_all_bits, clear_all_bits, test_bit}

-- Setting bit n turns on bit n and leaves every other bit as it was.
pub test_bit-set_bit :
    (b : Bitmap) (n m : ℕ) → test_bit (set_bit b n) m ≡ (if m == n then true else test_bit b m)
unfolding set_bit
test_bit-set_bit b n m = ground arith

-- Clearing bit n turns off bit n and leaves every other bit as it was.
pub test_bit-clear_bit :
    (b : Bitmap) (n m : ℕ) → test_bit (clear_bit b n) m ≡ (if m == n then false else test_bit b m)
unfolding clear_bit
test_bit-clear_bit b n m = ground arith

pub test_bit-set_all : (b : Bitmap) (m : ℕ) → m < b.size → test_bit (set_all_bits b) m ≡ true
unfolding set_all_bits
test_bit-set_all b m h = ground arith

pub test_bit-clear_all : (b : Bitmap) (m : ℕ) → m < b.size → test_bit (clear_all_bits b) m ≡ false
unfolding clear_all_bits
test_bit-clear_all b m h = ground arith
