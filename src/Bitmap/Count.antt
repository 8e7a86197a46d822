-- ===== src/Bitmap/Count.antt =====
-- core/bitmap.cpp, `RtlNumberOfSetBits` and `RtlNumberOfClearBits`: bits counted byte by byte with
-- a table. The memory is read as bytes, the least significant first.
pub mod Exact
use ntreg.Base.{
  ℕ, zero, suc, ◌+◌, ◌-◌, ◌*◌, ◌/◌, ◌%◌, ◌^◌, Bool, true, false, List, [], ◌∷◌, ◌++◌, ◌==◌,
  if◌then◌else◌, get_or, add32, sub32,
}
use ntreg.Bitmap.State.{Bitmap, test_bit}

-- The table's rows by their first entry: a row is the counts of four bits plus the row's own.
abbrev bit_count_row : ℕ → List ℕ
bit_count_row k =
    k
    ∷ (k + 1)
    ∷ (k + 1)
    ∷ (k + 2)
    ∷ (k + 1)
    ∷ (k + 2)
    ∷ (k + 2)
    ∷ (k + 3)
    ∷ (k + 1)
    ∷ (k + 2)
    ∷ (k + 2)
    ∷ (k + 3)
    ∷ (k + 2)
    ∷ (k + 3)
    ∷ (k + 3)
    ∷ (k + 4)
    ∷ []

-- Number of set bits per byte value.
unfoldable pub bit_count_table : List ℕ
bit_count_table =
    bit_count_row 0
    ++ (bit_count_row 1
        ++ (bit_count_row 1
            ++ (bit_count_row 2
                ++ (bit_count_row 1
                    ++ (bit_count_row 2
                        ++ (bit_count_row 2
                            ++ (bit_count_row 3
                                ++ (bit_count_row 1
                                    ++ (bit_count_row 2
                                        ++ (bit_count_row 2
                                            ++ (bit_count_row 3
                                                ++ (bit_count_row 2
                                                    ++ (bit_count_row 3
                                                        ++ (bit_count_row 3
                                                            ++ bit_count_row 4))))))))))))))

abbrev pub bit_value : Bool → ℕ
bit_value true = 1
bit_value false = 0

-- The byte at an index, a number below 256.
abbrev pub byte : Bitmap → ℕ → ℕ
byte b j =
    bit_value (test_bit b (8 * j + 0))
    + 2 * bit_value (test_bit b (8 * j + 1))
    + 4 * bit_value (test_bit b (8 * j + 2))
    + 8 * bit_value (test_bit b (8 * j + 3))
    + 16 * bit_value (test_bit b (8 * j + 4))
    + 32 * bit_value (test_bit b (8 * j + 5))
    + 64 * bit_value (test_bit b (8 * j + 6))
    + 128 * bit_value (test_bit b (8 * j + 7))

-- while (Byte < MaxByte) BitCount += BitCountTable[*Byte++]; over the bytes left.
unfoldable pub count_bytes : (left : ℕ) → Bitmap → (at count : ℕ) → ℕ
count_bytes zero b at count = count
count_bytes (suc left) b at count =
    count_bytes left b (at + 1) (add32 count (get_or bit_count_table (byte b at) 0))

unfoldable pub number_of_set_bits : Bitmap → ℕ
number_of_set_bits b =
    let whole = b.size / 8 in
    let count = count_bytes whole b 0 0 in
    let left = b.size % 8 in
    let shift = 8 - left in
    if left == 0
    then count
    else add32 count (get_or bit_count_table (byte b whole * 2 ^ shift % 256) 0)

unfoldable pub number_of_clear_bits : Bitmap → ℕ
number_of_clear_bits b = sub32 b.size (number_of_set_bits b)
