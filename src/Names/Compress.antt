-- ===== src/Names/Compress.antt =====
-- core/cmname.cpp: `CmpCopyName`, `CmpNameSize`, `CmpCopyCompressedName` and
-- `CmpCompressedNameSize`. A name whose characters all fit a byte is stored with a byte for each,
-- except in a hive of version 1.
pub mod Laws
use ntreg.Base.{ℕ, zero, suc, ◌+◌, ◌*◌, ◌/◌, ◌%◌, min, Bool, ltb, ◌==◌, if◌then◌else◌}
use ntreg.Names.Text.{UnicodeString, count, Bytes, copy_memory}

-- ((char*)Destination)[i] = c
abbrev pub set_byte : Bytes → ℕ → ℕ → Bytes
set_byte dest i c j = if j == i then c % 256 else dest j

-- The loop over the characters left; `i` is the index of the next one. The result is the
-- destination and the length returned.
unfoldable pub copy_loop : (left : ℕ) → UnicodeString → Bytes → (i : ℕ) → Bytes × ℕ
copy_loop zero s dest i = (dest, s.length / 2)
copy_loop (suc left) s dest i =
    let rest = copy_loop left s (set_byte dest i (s.buffer i)) (i + 1) in
    if ltb 0xFF (s.buffer i) then (copy_memory dest s.buffer s.length, s.length) else rest

unfoldable pub copy_name : (version : ℕ) → Bytes → UnicodeString → Bytes × ℕ
copy_name version dest s =
    if version == 1
    then (copy_memory dest s.buffer s.length, s.length)
    else copy_loop (count s) s dest 0

unfoldable pub size_loop : (left : ℕ) → UnicodeString → (i : ℕ) → ℕ
size_loop zero s i = s.length / 2
size_loop (suc left) s i =
    let rest = size_loop left s (i + 1) in if ltb 0xFF (s.buffer i) then s.length else rest

unfoldable pub name_size : (version : ℕ) → UnicodeString → ℕ
name_size version s = if version == 1 then s.length else size_loop (count s) s 0

-- The loop of `CmpCopyCompressedName` over the characters left.
unfoldable pub expand_loop : (left : ℕ) → Bytes → (dest : ℕ → ℕ) → (i : ℕ) → ℕ → ℕ
expand_loop zero source dest i = dest
expand_loop (suc left) source dest i =
    expand_loop left source (λ j. if j == i then source i else dest j) (i + 1)

-- Destination characters after the copy.
unfoldable pub copy_compressed_name :
    (ℕ → ℕ) → (destination_length : ℕ) → Bytes → (source_length : ℕ) → ℕ → ℕ
copy_compressed_name dest destination_length source source_length =
    expand_loop (min (destination_length / 2) source_length) source dest 0

-- (USHORT)Length * sizeof(WCHAR), returned as a USHORT.
unfoldable pub compressed_name_size : ℕ → ℕ
compressed_name_size length = length % 0x1_0000 * 2 % 0x1_0000
