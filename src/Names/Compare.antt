-- ===== src/Names/Compare.antt =====
-- core/cmname.cpp, `CmpCompareCompressedName`, and core/rtl.cpp, `RtlCompareUnicodeString`.
pub mod Laws
use ntreg.Base.{
  ℕ, zero, suc, ◌+◌, ◌-◌, ◌/◌, min, Bool, true, false, ltb, ◌==◌, if◌then◌else◌, sub32,
}
use ntreg.Base.Int.{ℤ, pos, negsuc, sub_ℕ, to_long}
use ntreg.Names.Text.{UnicodeString, count, Bytes, upcase}

abbrev pub is_zero : ℤ → Bool
is_zero (pos zero) = true
is_zero _ = false

-- The loop over what is left of both names, from index `i` on.
unfoldable pub compressed_loop : (search_left name_left : ℕ) → UnicodeString → Bytes → (i : ℕ) → ℤ
compressed_loop zero n s name i = to_long (sub32 0 n)
compressed_loop (suc m) zero s name i = to_long (sub32 (suc m) 0)
compressed_loop (suc m) (suc n) s name i =
    let result = sub_ℕ (upcase (s.buffer i)) (upcase (name i)) in
    let rest = compressed_loop m n s name (i + 1) in
    if s.buffer i == name i then rest else if is_zero result then rest else result

unfoldable pub compare_compressed_name : UnicodeString → Bytes → (name_length : ℕ) → ℤ
compare_compressed_name s name n = compressed_loop (count s) n s name 0

-- c1 < c2 ? -1 : c1 > c2 ? 1 : what the rest of the loop returns.
abbrev pub compare_chars : ℕ → ℕ → ℤ → ℤ
compare_chars a b rest = if ltb a b then negsuc 0 else if ltb b a then pos 1 else rest

abbrev pub fold_case : Bool → ℕ → ℕ
fold_case true c = upcase c
fold_case false c = c

-- for (i = 0; i <= Length1 / 2 && i <= Length2 / 2; i++), over the rounds left.
unfoldable pub unicode_loop : (left : ℕ) → Bool → (s t : UnicodeString) → (i : ℕ) → ℤ
unicode_loop zero insensitive s t i = pos 0
unicode_loop (suc left) insensitive s t i =
    compare_chars (fold_case insensitive (s.buffer i)) (fold_case insensitive (t.buffer i))
      (unicode_loop left insensitive s t (i + 1))

unfoldable pub compare_unicode_string : (s t : UnicodeString) → (insensitive : Bool) → ℤ
compare_unicode_string s t insensitive =
    unicode_loop (min (count s) (count t) + 1) insensitive s t 0
