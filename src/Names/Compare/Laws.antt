-- ===== src/Names/Compare/Laws.antt =====
-- When two names compare as equal.
use ntreg.Base.{ℕ, zero, suc, ◌+◌, ◌≤◌, ◌<◌, min, ◌≡◌, refl, ◌≢◌, ◌↔◌, Bool, true, ulong, arith}
use native.Mathlib.Decide.{dec_lt}
use ntreg.Base.Int.{pos}
use ntreg.Names.Text.{UnicodeString, count, Bytes, upcase}
use ntreg.Names.Compare.{
  compressed_loop, compare_compressed_name, unicode_loop, compare_unicode_string, fold_case,
}

-- The characters from `i` on, `n` of them, are the same in upper case.
abbrev pub SameLetters : (ℕ → ℕ) → (ℕ → ℕ) → (i n : ℕ) → Type 0
SameLetters a b i n = (j : ℕ) → i ≤ j → j < i + n → upcase (a j) ≡ upcase (b j)

compressed_loop_step :
    (m n : ℕ) (s : UnicodeString) (name : Bytes) (i : ℕ)
    → compressed_loop (suc m) (suc n) s name i ≡ pos 0
    → (upcase (s.buffer i) ≡ upcase (name i)) × (compressed_loop m n s name (i + 1) ≡ pos 0)
unfolding compressed_loop
compressed_loop_step m n s name i e = ground arith

compressed_loop-zero :
    (m n : ℕ) (s : UnicodeString) (name : Bytes) (i : ℕ)
    → m < ulong
    → n < ulong
    → compressed_loop m n s name i ≡ pos 0
    → (m ≡ n) × SameLetters s.buffer name i m
unfolding compressed_loop
compressed_loop-zero zero n s name i hm hn e = (ground arith, λ j p q. absurd (omega arith))
compressed_loop-zero (suc m) zero s name i hm hn e = absurd (ground arith)
compressed_loop-zero (suc m) (suc n) s name i hm hn e =
    let step = compressed_loop_step m n s name i e in
    let rest = compressed_loop-zero m n s name (i + 1) (omega arith) (omega arith) step.1 in
    (
      omega (arith, rest.0),
      λ j p q. elim (dec_lt i j) [
        | yes after ↦ rest.1 j (omega arith) (omega arith)
        | no at ↦ let same : j ≡ i = omega arith in rw same step.0
      ],
    )

zero-compressed_loop :
    (m : ℕ) (s : UnicodeString) (name : Bytes) (i : ℕ)
    → SameLetters s.buffer name i m
    → compressed_loop m m s name i ≡ pos 0
unfolding compressed_loop
zero-compressed_loop zero s name i h = refl
zero-compressed_loop (suc m) s name i h = ground (
  arith,
  h i (omega arith) (omega arith),
  zero-compressed_loop m s name (i + 1) (λ j p q. h j (omega arith) (omega arith)),
)

-- A name compares as equal to a compressed one exactly when it has as many characters and these
-- are the same in upper case.
pub compare_compressed_name_iff :
    (s : UnicodeString) (name : Bytes) (n : ℕ)
    → s.length < 0x1_0000
    → n < ulong
    → (compare_compressed_name s name n ≡ pos 0)
      ↔ ((count s ≡ n) × SameLetters s.buffer name 0 (count s))
unfolding compare_compressed_name
compare_compressed_name_iff s name n hs hn = (
  λ e. compressed_loop-zero (count s) n s name 0 (omega arith) hn e,
  λ h. rw (← h.0) (zero-compressed_loop (count s) s name 0 h.1),
)

unicode_loop-zero :
    (left : ℕ) (insensitive : Bool) (s t : UnicodeString) (i : ℕ)
    → unicode_loop left insensitive s t i ≡ pos 0
    → (j : ℕ) → i ≤ j
    → j < i + left
    → fold_case insensitive (s.buffer j) ≡ fold_case insensitive (t.buffer j)
unfolding unicode_loop
unicode_loop-zero zero insensitive s t i e j p q = absurd (omega arith)
unicode_loop-zero (suc left) insensitive s t i e j p q = elim (dec_lt i j) [
  | yes after ↦
      unicode_loop-zero left insensitive s t (i + 1) (ground arith) j (omega arith) (omega arith)
  | no at ↦ let same : j ≡ i = omega arith in rw same (ground arith)
]

zero-unicode_loop :
    (left : ℕ) (insensitive : Bool) (s t : UnicodeString) (i : ℕ)
    → ((j : ℕ)
        → i ≤ j
        → j < i + left
        → fold_case insensitive (s.buffer j) ≡ fold_case insensitive (t.buffer j))
    → unicode_loop left insensitive s t i ≡ pos 0
unfolding unicode_loop
zero-unicode_loop zero insensitive s t i h = refl
zero-unicode_loop (suc left) insensitive s t i h = ground (
  arith,
  h i (omega arith) (omega arith),
  zero-unicode_loop left insensitive s t (i + 1) (λ j p q. h j (omega arith) (omega arith)),
)

-- Two strings compare as equal exactly when their memory is the same, up to case if asked, over the
-- length of the shorter one and one character more. The lengths themselves are not compared.
pub compare_unicode_string_iff :
    (s t : UnicodeString) (insensitive : Bool)
    → (compare_unicode_string s t insensitive ≡ pos 0) ↔ (
        (j : ℕ)
        → j ≤ min (count s) (count t)
        → fold_case insensitive (s.buffer j) ≡ fold_case insensitive (t.buffer j))
unfolding compare_unicode_string
compare_unicode_string_iff s t insensitive = (
  λ e j p.
      unicode_loop-zero (min (count s) (count t) + 1) insensitive s t 0 e j (omega arith)
        (omega arith),
  λ h.
      zero-unicode_loop (min (count s) (count t) + 1) insensitive s t 0
        (λ j p q. h j (omega arith)),
)

-- Strings of one length whose memory differs, in upper case, behind their last character compare
-- as different, whatever their characters are: the loop reads one character too many.
pub compare_unicode_string-behind :
    (s t : UnicodeString)
    → count s ≡ count t
    → upcase (s.buffer (count s)) ≢ upcase (t.buffer (count s))
    → compare_unicode_string s t true ≢ pos 0
compare_unicode_string-behind s t same differ e =
    differ ((compare_unicode_string_iff s t true).0 e (count s) (omega arith))
