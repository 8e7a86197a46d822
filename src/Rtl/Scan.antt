-- ===== src/Rtl/Scan.antt =====
-- core/rtl.cpp, `BitScanForward` and `BitScanReverse`; core/bitmap.cpp,
-- `RtlFindMostSignificantBit` and `RtlFindLeastSignificantBit`. A mask is a `ULONG`. A scan returns
-- `*Index` and whether it found a bit. The loops run on fuel: 32 shifts empty a mask.
pub mod Laws
use ntreg.Base.{
  ℕ, zero, suc, ◌+◌, ◌-◌, Bool, true, false, not, ◌&&◌, Option, none, some, if◌then◌else◌,
}
use ntreg.Base.Word.{Word, shl, shr, is_zero}

-- while (Mask && ((Mask & 1) == 0)) { Mask >>= 1; ++(*Index); }
forward_loop : ℕ → Word → ℕ → ℕ × Bool
forward_loop zero w i = (i, not (is_zero w))
forward_loop (suc f) w i =
    let rest = forward_loop f (shr w 1) (i + 1) in
    if not (is_zero w) && not (w 0) then rest else (i, not (is_zero w))

unfoldable pub bit_scan_forward : Word → ℕ × Bool
unfolding forward_loop is_zero
bit_scan_forward w = forward_loop 32 w 0

-- while (Mask && ((Mask & (1 << 31)) == 0)) { Mask <<= 1; ++(*Index); }
reverse_loop : ℕ → Word → ℕ → ℕ × Bool
reverse_loop zero w i = (i, not (is_zero w))
reverse_loop (suc f) w i =
    let rest = reverse_loop f (shl w 1) (i + 1) in
    if not (is_zero w) && not (w 31) then rest else (i, not (is_zero w))

unfoldable pub bit_scan_reverse : Word → ℕ × Bool
unfolding reverse_loop is_zero
bit_scan_reverse w = reverse_loop 32 w 0

-- A `ULONGLONG` by its 64 bits: `(ULONG)Value` keeps the low word, `Value >> 32` is the high one.
abbrev pub low_word : Word → Word
low_word v = v

abbrev pub high_word : Word → Word
high_word v i = v (i + 32)

-- `none` stands for the result -1.
unfoldable pub find_most_significant_bit : Word → Option ℕ
find_most_significant_bit v =
    let (high, in_high) = bit_scan_reverse (high_word v) in
    let (low, in_low) = bit_scan_reverse (low_word v) in
    if in_high then some (high + 32) else if in_low then some low else none

unfoldable pub find_least_significant_bit : Word → Option ℕ
find_least_significant_bit v =
    let (low, in_low) = bit_scan_forward (low_word v) in
    let (high, in_high) = bit_scan_forward (high_word v) in
    if in_low then some low else if in_high then some (high + 32) else none
