-- ===== src/Bitmap/Count/Exact.antt =====
-- The counts of core/bitmap.cpp are the numbers of set and of clear bits.
use mathlib.Core.Path.{ap}
use ntreg.Base.{
  ℕ, zero, suc, ◌+◌, ◌-◌, ◌*◌, ◌/◌, ◌%◌, ◌^◌, ◌≤◌, ◌<◌, ◌≡◌, refl, Bool, true, false, not, ◌==◌,
  get_or, add32, ulong, arith, passes, passes_at, ==_iff, Bool-cases, inl, inr, ◌∙◌,
}
use native.Mathlib.Nat.{add-zero, add-suc, add_assoc}
use ntreg.Bitmap.State.{Bitmap, test_bit}
use ntreg.Bitmap.Count.{
  bit_count_table, bit_value, byte, count_bytes, number_of_set_bits, number_of_clear_bits,
}

-- How many of the `n` bits from `start` on are set, and how many are clear.
unfoldable pub count_set : Bitmap → (start n : ℕ) → ℕ
count_set b start zero = 0
count_set b start (suc n) = bit_value (test_bit b (start + n)) + count_set b start n

unfoldable pub count_clear : Bitmap → (start n : ℕ) → ℕ
count_clear b start zero = 0
count_clear b start (suc n) = bit_value (not (test_bit b (start + n))) + count_clear b start n

popcount : ℕ → ℕ
popcount x =
    x % 2 + x / 2 % 2 + x / 4 % 2 + x / 8 % 2 + x / 16 % 2 + x / 32 % 2 + x / 64 % 2 + x / 128 % 2

table_check : passes (λ x. get_or bit_count_table x 0 == popcount x) 256 ≡ true
unfolding passes bit_count_table popcount
table_check = refl

table_lem : (x : ℕ) → x < 256 → get_or bit_count_table x 0 ≡ popcount x
table_lem x h = (==_iff _ _).0 (passes_at _ 256 table_check x h)

-- The sums of bits that a byte, or the low part of it, holds.
module _ (a b c d e f g h : ℕ) (pa : a ≤ 1) (pb : b ≤ 1) (pc : c ≤ 1) (pd : d ≤ 1) (pe : e ≤ 1)
    (pf : f ≤ 1) (pg : g ≤ 1) (ph : h ≤ 1) where
  popcount_byte :
      popcount (a + 2 * b + 4 * c + 8 * d + 16 * e + 32 * f + 64 * g + 128 * h)
      ≡ a + b + c + d + e + f + g + h
  unfolding popcount
  popcount_byte = omega arith

bit_value-le : (b : Bool) → bit_value b ≤ 1
bit_value-le true = omega arith
bit_value-le false = omega arith

count_set-add :
    (b : Bitmap) (start m n : ℕ)
    → count_set b start (m + n) ≡ count_set b start m + count_set b (start + m) n
unfolding count_set
count_set-add b start m zero = rw (add-zero m) (omega arith)
count_set-add b start m (suc n) =
    rw (add-suc m n) (ground (arith, count_set-add b start m n, add_assoc start m n))

module _ (b : Bitmap) (j : ℕ) where
  bits : (i : ℕ) → bit_value (test_bit b (8 * j + i)) ≤ 1
  bits i = bit_value-le (test_bit b (8 * j + i))

  byte-lt : byte b j < 256
  byte-lt = omega (arith, bits 0, bits 1, bits 2, bits 3, bits 4, bits 5, bits 6, bits 7)

  table-byte : get_or bit_count_table (byte b j) 0 ≡ count_set b (8 * j) 8
  unfolding count_set
  table-byte =
      table_lem (byte b j) byte-lt
      ∙ popcount_byte _ _ _ _ _ _ _ _ (bits 0) (bits 1) (bits 2) (bits 3) (bits 4) (bits 5) (bits 6)
          (bits 7)
      ∙ omega arith

  shifted :
      (k : ℕ)
      → get_or bit_count_table (byte b j * 2 ^ k % 256) 0 ≡ popcount (byte b j * 2 ^ k % 256)
  shifted k = table_lem _ (omega arith)

  -- The low `r` bits of a byte, shifted to its top.
  table_part :
      (r : ℕ)
      → 0 < r
      → r < 8
      → get_or bit_count_table (byte b j * 2 ^ (8 - r) % 256) 0 ≡ count_set b (8 * j) r
  unfolding count_set popcount
  table_part zero lo hi = absurd (omega arith)
  table_part (suc zero) lo hi =
      shifted 7 ∙ omega (arith, bits 0, bits 1, bits 2, bits 3, bits 4, bits 5, bits 6, bits 7)
  table_part (suc (suc zero)) lo hi =
      shifted 6 ∙ omega (arith, bits 0, bits 1, bits 2, bits 3, bits 4, bits 5, bits 6, bits 7)
  table_part (suc (suc (suc zero))) lo hi =
      shifted 5 ∙ omega (arith, bits 0, bits 1, bits 2, bits 3, bits 4, bits 5, bits 6, bits 7)
  table_part (suc (suc (suc (suc zero)))) lo hi =
      shifted 4 ∙ omega (arith, bits 0, bits 1, bits 2, bits 3, bits 4, bits 5, bits 6, bits 7)
  table_part (suc (suc (suc (suc (suc zero))))) lo hi =
      shifted 3 ∙ omega (arith, bits 0, bits 1, bits 2, bits 3, bits 4, bits 5, bits 6, bits 7)
  table_part (suc (suc (suc (suc (suc (suc zero)))))) lo hi =
      shifted 2 ∙ omega (arith, bits 0, bits 1, bits 2, bits 3, bits 4, bits 5, bits 6, bits 7)
  table_part (suc (suc (suc (suc (suc (suc (suc zero))))))) lo hi =
      shifted 1 ∙ omega (arith, bits 0, bits 1, bits 2, bits 3, bits 4, bits 5, bits 6, bits 7)
  table_part (suc (suc (suc (suc (suc (suc (suc (suc r)))))))) lo hi = absurd (omega arith)

count_set-le : (b : Bitmap) (start n : ℕ) → count_set b start n ≤ n
unfolding count_set
count_set-le b start zero = omega arith
count_set-le b start (suc n) =
    omega (arith, count_set-le b start n, bit_value-le (test_bit b (start + n)))

count_bytes-count_set :
    (left : ℕ) (b : Bitmap) (at count : ℕ)
    → count + 8 * left < ulong
    → count_bytes left b at count ≡ count + count_set b (8 * at) (8 * left)
unfolding count_bytes count_set
count_bytes-count_set zero b at count h = omega arith
count_bytes-count_set (suc left) b at count h =
    let more : 8 * suc left ≡ 8 + 8 * left = omega arith in
    let next : 8 * (at + 1) ≡ 8 * at + 8 = omega arith in
    let sum : add32 count (count_set b (8 * at) 8) ≡ count + count_set b (8 * at) 8 =
      omega (arith, count_set-le b (8 * at) 8) in
    rw (table-byte b at, sum, more, count_set-add b (8 * at) 8 (8 * left))
      (count_bytes-count_set left b (at + 1) (count + count_set b (8 * at) 8)
          (omega (arith, count_set-le b (8 * at) 8))
        ∙ rw next (omega arith))

count_set-split :
    (b : Bitmap) (q r : ℕ)
    → count_set b 0 (8 * q + r) ≡ count_set b 0 (8 * q) + count_set b (8 * q) r
count_set-split b q r =
    rw (count_set-add b 0 (8 * q) r)
      (ap (λ s. count_set b 0 (8 * q) + count_set b s r) (omega arith))

-- The table counts exactly the set bits of the bitmap, the last byte by its part.
pub number_of_set_bits-count_set :
    (b : Bitmap) → b.size < ulong → number_of_set_bits b ≡ count_set b 0 b.size
unfolding number_of_set_bits
number_of_set_bits-count_set b small =
    let q = b.size / 8 in
    let r = b.size % 8 in
    let size : b.size ≡ 8 * q + r = omega arith in
    let whole : count_bytes q b 0 0 ≡ 0 + count_set b 0 (8 * q) =
      count_bytes-count_set q b 0 0 (omega arith) in
    let total : count_set b 0 b.size ≡ count_set b 0 (8 * q) + count_set b (8 * q) r =
      ap (count_set b 0) size ∙ count_set-split b q r in
    elim (Bool-cases (r == 0)) [
      | inl even ↦ rw (even, total, whole) (ground (arith, count_set-le b (8 * q) r))
      | inr odd ↦
          rw (odd, total, whole, table_part b q r (ground arith) (omega arith))
            (omega (arith, count_set-le b (8 * q) r, count_set-le b 0 (8 * q)))
    ]

count_set_clear : (b : Bitmap) (start n : ℕ) → count_set b start n + count_clear b start n ≡ n
unfolding count_set count_clear
count_set_clear b start zero = refl
count_set_clear b start (suc n) = ground (arith, count_set_clear b start n)

-- What is left of the size is the number of clear bits.
pub number_of_clear_bits-count_clear :
    (b : Bitmap) → b.size < ulong → number_of_clear_bits b ≡ count_clear b 0 b.size
unfolding number_of_clear_bits
number_of_clear_bits-count_clear b small =
    rw (number_of_set_bits-count_set b small) (omega (arith, count_set_clear b 0 b.size))
