-- ===== src/Names/Compress/Laws.antt =====
-- A stored name reads back as the name that was stored.
use ntreg.Base.{
  ℕ, zero, suc, ◌+◌, ◌*◌, ◌/◌, ◌≤◌, ◌<◌, min, ◌≡◌, refl, ◌⊎◌, inl, inr, Bool, true, false, ltb,
  ◌==◌, if◌then◌else◌, arith, Bool-cases, lt→ltb, not_lt→ltb, ◌∙◌,
}
use native.Mathlib.Decide.{dec_lt}
use ntreg.Names.Text.{UnicodeString, count, Bytes, IsWide, char_of, copy_memory}
use ntreg.Names.Compress.{
  set_byte, copy_loop, copy_name, size_loop, name_size, expand_loop, copy_compressed_name,
}

expand_loop_lem :
    (left : ℕ) (source : Bytes) (dest : ℕ → ℕ) (i j : ℕ)
    → expand_loop left source dest i j
      ≡ (if ltb j i then dest j else if ltb j (i + left) then source j else dest j)
unfolding expand_loop
expand_loop_lem zero source dest i j = ground arith
expand_loop_lem (suc left) source dest i j =
    ground (arith, expand_loop_lem left source (λ j. if j == i then source i else dest j) (i + 1) j)

-- The expanded characters are the bytes, within both lengths.
pub copy_compressed_name_lem :
    (dest : ℕ → ℕ) (source : Bytes) (destination_length source_length i : ℕ)
    → i < min (destination_length / 2) source_length
    → copy_compressed_name dest destination_length source source_length i ≡ source i
unfolding copy_compressed_name
copy_compressed_name_lem dest source destination_length source_length i h =
    ground (arith, expand_loop_lem (min (destination_length / 2) source_length) source dest 0 i)

-- A copied character reads back, if it is a WCHAR.
copy_memory_char :
    (dest : Bytes) (s : UnicodeString) (n i : ℕ)
    → s.buffer i < 0x1_0000
    → 2 * i + 1 < n
    → char_of (copy_memory dest s.buffer n) i ≡ s.buffer i
copy_memory_char dest s n i wide h = ground arith

-- A name as it lies in a cell, read back: through `CmpCopyCompressedName` if it is stored
-- compressed, and as it is otherwise.
abbrev pub stored_char : Bool → (destination_length : ℕ) → Bytes × ℕ → ℕ → ℕ
stored_char true length (bytes, n) i = copy_compressed_name (λ j. 0) length bytes n i
stored_char false length (bytes, n) i = char_of bytes i

-- What the loop of the copy leaves from index `i` on.
abbrev Copied : UnicodeString → Bytes → (i left : ℕ) → Bytes × ℕ → Type 0
Copied s dest i left (bytes, n) =
    ((n ≡ s.length) × (old : Bytes) × (bytes ≡ copy_memory old s.buffer s.length))
    ⊎ ((n ≡ s.length / 2)
        × ((j : ℕ) → i ≤ j → j < i + left → (bytes j ≡ s.buffer j) × (s.buffer j ≤ 0xFF))
        × ((j : ℕ) → j < i → bytes j ≡ dest j))

copy_loop-Copied :
    (left : ℕ) (s : UnicodeString) (dest : Bytes) (i : ℕ)
    → Copied s dest i left (copy_loop left s dest i)
unfolding copy_loop
copy_loop-Copied zero s dest i = inr (refl, λ j p q. absurd (omega arith), λ j p. refl)
copy_loop-Copied (suc left) s dest i = elim (Bool-cases (ltb 0xFF (s.buffer i))) [
  | inl wide ↦ rw wide (inl (refl, dest, refl))
  | inr narrow ↦ rw narrow (
      extend (copy_loop left s (set_byte dest i (s.buffer i)) (i + 1))
        (copy_loop-Copied left s (set_byte dest i (s.buffer i)) (i + 1)) (ground arith))
]
  where
    extend :
        (r : Bytes × ℕ)
        → Copied s (set_byte dest i (s.buffer i)) (i + 1) left r
        → s.buffer i ≤ 0xFF
        → Copied s dest i (suc left) r
    extend (bytes, n) (inl w) fits = inl w
    extend (bytes, n) (inr (e, new, old)) fits = inr (
      e,
      λ j p q. elim (dec_lt i j) [
        | yes after ↦ new j (omega arith) (omega arith)
        | no at ↦ let same : j ≡ i = omega arith in rw same (ground (arith, old i), fits)
      ],
      λ j p. ground (arith, old j),
    )

module _ (version : ℕ) (dest : Bytes) (s : UnicodeString) where
  copy_name-Copied : Copied s dest 0 (count s) (copy_name version dest s)
  unfolding copy_name
  copy_name-Copied = elim (Bool-cases (version == 1)) [
    | inl old ↦ rw old (inl (refl, dest, refl))
    | inr new ↦ rw new (copy_loop-Copied (count s) s dest 0)
  ]

  -- A name that was stored reads back character by character, if its characters are WCHARs: as
  -- compressed exactly when the length returned is below the length of the name.
  pub copy_name-roundtrip :
      IsWide s
      → (i : ℕ) → i < count s
      → stored_char
          (ltb (copy_name version dest s).1 s.length)
          s.length
          (copy_name version dest s)
          i
        ≡ s.buffer i
  copy_name-roundtrip wide i h = read (copy_name version dest s) copy_name-Copied
    where
      read :
          (r : Bytes × ℕ)
          → Copied s dest 0 (count s) r
          → stored_char (ltb r.1 s.length) s.length r i ≡ s.buffer i
      read (bytes, n) (inl (e, old, same)) =
          rw (e, not_lt→ltb s.length s.length (omega arith), same)
            (copy_memory_char old s s.length i (wide i) (omega arith))
      read (bytes, n) (inr (e, new, _)) =
          rw (e, lt→ltb (s.length / 2) s.length (omega arith))
            (copy_compressed_name_lem (λ j. 0) bytes s.length (s.length / 2) i (omega arith)
              ∙ (new i (omega arith) (omega arith)).0)

size_loop-copy_loop :
    (left : ℕ) (s : UnicodeString) (dest : Bytes) (i : ℕ)
    → (copy_loop left s dest i).1 ≡ size_loop left s i
unfolding copy_loop size_loop
size_loop-copy_loop zero s dest i = refl
size_loop-copy_loop (suc left) s dest i =
    ground (arith, size_loop-copy_loop left s (set_byte dest i (s.buffer i)) (i + 1))

-- The size that is computed for a name before it is stored is the length that storing it returns.
pub copy_name-name_size :
    (version : ℕ) (dest : Bytes) (s : UnicodeString)
    → (copy_name version dest s).1 ≡ name_size version s
unfolding copy_name name_size
copy_name-name_size version dest s = ground (arith, size_loop-copy_loop (count s) s dest 0)
