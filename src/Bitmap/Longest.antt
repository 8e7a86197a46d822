-- ===== src/Bitmap/Longest.antt =====
-- core/bitmap.cpp: the next run behind an index, and the longest run. `*StartingIndex` is returned
-- beside the length. The loops run on fuel; they are given `size + 1` rounds.
pub mod Forward
pub mod Maximal
use ntreg.Base.{
  ℕ, zero, suc, ◌+◌, Option, none, some, Bool, true, false, ltb, leb, ◌==◌, if◌then◌else◌, add32,
}
use ntreg.Bitmap.State.{Bitmap}
use ntreg.Bitmap.Runs.{length_of_run_clear, length_of_run_set}
use ntreg.Bitmap.Find.{max_index}

-- A run: its first index and its number of bits.
pub record Run : Type 0 where
  pub starting_index : ℕ
  pub number_of_bits : ℕ

abbrev pub run : ℕ → ℕ → Run
run i n = record { starting_index = i; number_of_bits = n }

unfoldable pub find_next_forward_run_clear : Bitmap → ℕ → Run
find_next_forward_run_clear b from =
    let at = add32 from (length_of_run_set b from max_index) in
    if leb b.size from then run from 0 else run at (length_of_run_clear b at max_index)

unfoldable pub find_next_forward_run_set : Bitmap → ℕ → Run
find_next_forward_run_set b from =
    let at = add32 from (length_of_run_clear b from max_index) in
    if leb b.size from then run from 0 else run at (length_of_run_set b at max_index)

unfoldable pub find_first_run_clear : Bitmap → Run
find_first_run_clear b = find_next_forward_run_clear b 0

-- while (1) ..., where `best` holds `*StartingIndex` and MaxNumberOfBits. `none` means that the
-- fuel ran out.
unfoldable pub longest_loop : ℕ → (ℕ → Run) → (from : ℕ) → Run → Option Run
longest_loop zero next from best = none
longest_loop (suc f) next from best =
    let found = next from in
    let best' = if ltb best.number_of_bits found.number_of_bits then found else best in
    let rest = longest_loop f next (add32 from found.number_of_bits) best' in
    if found.number_of_bits == 0 then some best else rest

-- `index` is what `*StartingIndex` holds before the call.
unfoldable pub find_longest_run_clear : Bitmap → (index : ℕ) → Option Run
find_longest_run_clear b index =
    longest_loop (b.size + 1) (find_next_forward_run_clear b) 0 (run index 0)

unfoldable pub find_longest_run_set : Bitmap → (index : ℕ) → Option Run
find_longest_run_set b index =
    longest_loop (b.size + 1) (find_next_forward_run_set b) 0 (run index 0)
