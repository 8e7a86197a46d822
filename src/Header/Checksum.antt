-- ===== src/Header/Checksum.antt =====
-- core/hivesum.cpp, `HvpHiveHeaderChecksum`. A word of the header is its bits.
pub mod Laws
use ntreg.Base.{ℕ, zero, suc, ◌+◌, Bool, true, false, not, ◌==◌, if◌then◌else◌}
use ntreg.Base.Word.{Word, inv, is_zero}

abbrev pub differ : Bool → Bool → Bool
differ true b = not b
differ false b = b

-- `a ^ b`
abbrev pub xor : Word → Word → Word
xor a b i = differ (a i) (b i)

abbrev pub zero_word : Word
zero_word i = false

-- 1 and (ULONG)-2
abbrev pub one_word : Word
one_word i = i == 0

abbrev pub minus_two : Word
minus_two i = not (i == 0)

-- for (i = 0; i < 127; i++), over the words left.
unfoldable pub sum_loop : (left : ℕ) → (ℕ → Word) → (sum : Word) → (i : ℕ) → Word
sum_loop zero buffer sum i = sum
sum_loop (suc left) buffer sum i = sum_loop left buffer (xor sum (buffer i)) (i + 1)

-- Neither 0 nor (ULONG)-1 is a checksum; the sum is all ones where its inverse is zero.
unfoldable pub adjust : Word → Word
adjust sum =
    let first = if is_zero (inv sum) then minus_two else sum in
    if is_zero first then one_word else first

unfoldable pub hive_header_checksum : (ℕ → Word) → Word
hive_header_checksum buffer = adjust (sum_loop 127 buffer zero_word 0)
