-- ===== src/Names/Text.antt =====
-- `UNICODE_STRING` (include/typedefs.hpp), names as bytes in a cell, and `RtlUpcaseUnicodeChar` of
-- core/rtl.cpp. A buffer is the memory from its address on; a `WCHAR` is a number below 65536.
use ntreg.Base.{ℕ, ◌+◌, ◌-◌, ◌*◌, ◌/◌, ◌%◌, ◌<◌, ltb, leb, ◌==◌, if◌then◌else◌}

pub record UnicodeString : Type 0 where
  -- in bytes
  pub length : ℕ
  pub buffer : ℕ → ℕ

-- The number of characters.
abbrev pub count : UnicodeString → ℕ
count s = s.length / 2

-- Memory as bytes.
abbrev pub Bytes : Type 0
Bytes = ℕ → ℕ

-- Every character is a `WCHAR`.
abbrev pub IsWide : UnicodeString → Type 0
IsWide s = (i : ℕ) → s.buffer i < 0x1_0000

unfoldable pub upcase : ℕ → ℕ
upcase c = if ltb c b'a' then c else if leb c b'z' then c - 32 else c

-- The bytes of a character buffer, the low byte of a `WCHAR` first, and a character read back.
abbrev pub byte_of : (ℕ → ℕ) → Bytes
byte_of buffer j = if j % 2 == 0 then buffer (j / 2) % 256 else buffer (j / 2) / 256 % 256

abbrev pub char_of : Bytes → ℕ → ℕ
char_of bytes i = bytes (2 * i) + 256 * bytes (2 * i + 1)

-- `RtlCopyMemory(Destination, Source->Buffer, n)`
abbrev pub copy_memory : Bytes → (ℕ → ℕ) → ℕ → Bytes
copy_memory dest buffer n j = if ltb j n then byte_of buffer j else dest j
