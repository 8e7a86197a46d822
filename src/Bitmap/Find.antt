-- ===== src/Bitmap/Find.antt =====
-- core/bitmap.cpp: tests of ranges and searches for runs of a wanted length. `ULONG` sums wrap. A
-- loop that moves `CurrentBit` runs on fuel; the first pass is given `size + 1` rounds.
pub mod Areas
pub mod Complete
pub mod Rounds
use ntreg.Base.{
  ℕ, zero, suc, ◌+◌, ◌-◌, ◌/◌, ◌*◌, min, Bool, true, false, ◌||◌, ltb, leb, ◌==◌, not,
  if◌then◌else◌, add32,
}
use ntreg.Bitmap.State.{Bitmap}
use ntreg.Bitmap.Ranges.{set_bits, clear_bits}
use ntreg.Bitmap.Runs.{length_of_run_clear, length_of_run_set}

-- (ULONG)-1, "not found".
abbrev pub max_index : ℕ
max_index = 0xFFFF_FFFF

unfoldable pub are_bits_clear : Bitmap → (start count : ℕ) → Bool
are_bits_clear b start count =
    if ltb b.size (add32 start count) || leb (add32 start count) start
    then false
    else leb count (length_of_run_clear b start count)

unfoldable pub are_bits_set : Bitmap → (start count : ℕ) → Bool
are_bits_set b start count =
    if ltb b.size (add32 start count) || leb (add32 start count) start
    then false
    else leb count (length_of_run_set b start count)

-- A pass ends with an index, or with none when the margin is reached; `stuck` is a pass that did
-- not end on its fuel.
pub data Pass : Type 0 where
  found : ℕ → Pass
  exhausted : Pass
  stuck : Pass

-- while (CurrentBit + NumberToFind < Margin) ...
unfoldable pub clear_pass : ℕ → Bitmap → (count margin current : ℕ) → Pass
clear_pass zero b count margin current = stuck
clear_pass (suc f) b count margin current =
    let at = add32 current (length_of_run_set b current max_index) in
    let length = length_of_run_clear b at count in
    let rest = clear_pass f b count margin (add32 at length) in
    if ltb (add32 current count) margin
    then (if leb count length then found at else rest)
    else exhausted

-- while (CurrentBit + NumberToFind <= Margin) ...
unfoldable pub set_pass : ℕ → Bitmap → (count margin current : ℕ) → Pass
set_pass zero b count margin current = stuck
set_pass (suc f) b count margin current =
    let at = add32 current (length_of_run_clear b current max_index) in
    let length = length_of_run_set b at count in
    let rest = set_pass f b count margin (add32 at length) in
    if leb (add32 current count) margin
    then (if leb count length then found at else rest)
    else exhausted

-- From the hint to the end of the bitmap; then, if there was a hint, from the start up to it.
unfoldable pub retry : (ℕ → ℕ → Pass) → (size count hint : ℕ) → Pass
retry pass size count hint = elim (pass size hint) [
  | found at ↦ found at
  | exhausted ↦ if hint == 0 then exhausted else pass (min (add32 hint count) size) 0
  | stuck ↦ stuck
]

-- A hint outside the bitmap counts as 0.
abbrev pub used_hint : (size hint : ℕ) → ℕ
used_hint size hint = if leb size hint then 0 else hint

unfoldable pub find_clear_bits : Bitmap → (count hint : ℕ) → Pass
find_clear_bits b count hint =
    if ltb b.size count
    then exhausted
    else if count == 0
    then found (used_hint b.size hint / 8 * 8)
    else retry (clear_pass (b.size + 1) b count) b.size count (used_hint b.size hint)

unfoldable pub find_set_bits : Bitmap → (count hint : ℕ) → Pass
find_set_bits b count hint =
    if ltb b.size count
    then exhausted
    else if count == 0
    then found (used_hint b.size hint / 8 * 8)
    else retry (set_pass (b.size + 1) b count) b.size count (used_hint b.size hint)

-- The index that a search returns. It is compared with MAXINDEX by its callers.
abbrev pub position : Pass → ℕ
position (found at) = at
position exhausted = max_index
position stuck = max_index

unfoldable pub find_clear_bits_and_set : Bitmap → (count hint : ℕ) → Bitmap × ℕ
find_clear_bits_and_set b count hint =
    let at = position (find_clear_bits b count hint) in
    (if at == max_index then b else set_bits b at count, at)

unfoldable pub find_set_bits_and_clear : Bitmap → (count hint : ℕ) → Bitmap × ℕ
find_set_bits_and_clear b count hint =
    let at = position (find_set_bits b count hint) in
    (if at == max_index then b else clear_bits b at count, at)
