-- ===== src/Bitmap/Runs.antt =====
-- core/bitmap.cpp, `RtlpGetLengthOfRunClear` and `RtlpGetLengthOfRunSet`: the length of the run of
-- equal bits that begins at an index, word by word. Positions of words stand for pointers into the
-- buffer; each loop recurs on a count of words that is at least the number of those left.
pub mod Exact
use ntreg.Base.{
  ℕ, zero, suc, ◌+◌, ◌-◌, ◌*◌, ◌/◌, ◌%◌, min, Bool, true, false, not, ◌&&◌, ltb, leb, if◌then◌else◌,
  ulong, add32, sub32,
}
use ntreg.Base.Word.{Word, shl, shr, inv, is_zero}
use ntreg.Rtl.Scan.{bit_scan_forward}
use ntreg.Bitmap.State.{Buffer, Bitmap}

-- while (Value == 0 && Buffer < MaxBuffer) Value = *Buffer++;
unfoldable pub skip_clear : ℕ → Buffer → Word → (next last : ℕ) → Word × ℕ
skip_clear zero buffer value next last = (value, next)
skip_clear (suc f) buffer value next last =
    let rest = skip_clear f buffer (buffer next) (next + 1) last in
    if is_zero value && ltb next last then rest else (value, next)

-- while (InvValue == 0 && Buffer < MaxBuffer) InvValue = ~(*Buffer++);
unfoldable pub skip_set : ℕ → Buffer → Word → (next last : ℕ) → Word × ℕ
skip_set zero buffer value next last = (value, next)
skip_set (suc f) buffer value next last =
    let rest = skip_set f buffer (inv (buffer next)) (next + 1) last in
    if is_zero value && ltb next last then rest else (value, next)

-- From the word where the run ended, with the position behind it, to the length of the run.
unfoldable pub run_length : (size start limit : ℕ) → Word × ℕ → ℕ
run_length size start limit (value, next) =
    let length = add32 (sub32 (next * 32) start) (sub32 (bit_scan_forward value).0 32) in
    if is_zero value then limit else if ltb (size - start) length then size - start else length

-- Never past the end of the bitmap.
abbrev pub run_limit : Bitmap → (start max : ℕ) → ℕ
run_limit b start max = min max (b.size - start)

abbrev pub run_last : Bitmap → (start max : ℕ) → ℕ
run_last b start max = start / 32 + (start % 32 + run_limit b start max + 31) % ulong / 32

unfoldable pub length_of_run_clear : Bitmap → (start max : ℕ) → ℕ
length_of_run_clear b start max =
    let pos = start % 32 in
    let first = shl (shr (b.buffer (start / 32)) pos) pos in
    let last = run_last b start max in
    let found = skip_clear last b.buffer first (start / 32 + 1) last in
    if leb b.size start then 0 else run_length b.size start (run_limit b start max) found

unfoldable pub length_of_run_set : Bitmap → (start max : ℕ) → ℕ
length_of_run_set b start max =
    let pos = start % 32 in
    let first = shl (shr (inv (b.buffer (start / 32))) pos) pos in
    let last = run_last b start max in
    let found = skip_set last b.buffer first (start / 32 + 1) last in
    if leb b.size start then 0 else run_length b.size start (run_limit b start max) found
