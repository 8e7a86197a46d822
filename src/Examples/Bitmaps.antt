-- ===== src/Examples/Bitmaps.antt =====
-- core/bitmap.cpp and the scans of core/rtl.cpp at a bitmap of 40 bits, with bits 3 to 9 and the
-- last five set.
use ntreg.Base.{
  ℕ, ◌+◌, ◌*◌, ◌≤◌, ◌<◌, ◌≡◌, refl, Bool, true, false, ltb, leb, ◌&&◌, ◌||◌, some, arith, ◌==◌,
}
use ntreg.Base.Word.{Word, Least, is_zero}
use ntreg.Rtl.Scan.{bit_scan_forward, bit_scan_reverse}
use ntreg.Rtl.Scan.Laws.{Greatest, bit_scan_forward-Least, bit_scan_reverse-Greatest}
use ntreg.Bitmap.State.{Bitmap}
use ntreg.Bitmap.Runs.{length_of_run_clear, length_of_run_set, skip_clear, skip_set, run_length}
use ntreg.Bitmap.Runs.Exact.{IsRun, length_of_run_clear-IsRun}
use ntreg.Bitmap.Find.{position, max_index, find_clear_bits, find_set_bits, find_clear_bits_and_set}
use ntreg.Bitmap.Find.Complete.{
  Answer, Written, find_set_bits-Answer, find_clear_bits-Answer, find_clear_bits_and_set-Written,
  find_clear_bits-whole,
}
use ntreg.Bitmap.ClearRuns.{find_clear_runs}
use ntreg.Bitmap.ClearRuns.Laws.{RunsOutcome, find_clear_runs-RunsOutcome}
use ntreg.Bitmap.Longest.{run, longest_loop, find_next_forward_run_clear, find_longest_run_clear}
use ntreg.Bitmap.Longest.Maximal.{IsLongest, find_longest_run_clear-IsLongest}
use ntreg.Bitmap.Count.{count_bytes, bit_count_table, number_of_set_bits, number_of_clear_bits}
use ntreg.Bitmap.Count.Exact.{
  count_set, count_clear, number_of_set_bits-count_set, number_of_clear_bits-count_clear,
}

abbrev sample_bit : ℕ → Bool
sample_bit k = (leb 3 k && ltb k 10) || leb 35 k

abbrev sample : Bitmap
sample = record { size = 40; buffer = λ n i. sample_bit (32 * n + i) }

-- The scans at the word 12.
abbrev twelve : Word
twelve i = i == 2 || i == 3

twelve-Least : Least twelve 32 2
twelve-Least = record { below = omega arith; holds = refl; first = λ j h. ground arith }

twelve-Greatest : Greatest twelve 3
twelve-Greatest = record { below = omega arith; holds = refl; last = λ j h p. ground arith }

bit_scan_forward-Least_example : bit_scan_forward twelve ≡ (2, true)
bit_scan_forward-Least_example = bit_scan_forward-Least twelve 2 twelve-Least

bit_scan_reverse-Greatest_example : bit_scan_reverse twelve ≡ (28, true)
bit_scan_reverse-Greatest_example = bit_scan_reverse-Greatest twelve 3 twelve-Greatest

length_of_run_clear-IsRun_example :
    IsRun sample false 10 max_index (length_of_run_clear sample 10 max_index)
length_of_run_clear-IsRun_example =
    length_of_run_clear-IsRun sample 10 max_index (omega arith) (omega arith)

run_of_25 : length_of_run_clear sample 10 max_index ≡ 25
unfolding length_of_run_clear skip_clear run_length bit_scan_forward is_zero
run_of_25 = refl

find_set_bits-Answer_example : Answer sample true 6 12 (λ p. p + 6 ≤ 40) (find_set_bits sample 6 12)
find_set_bits-Answer_example =
    find_set_bits-Answer sample 6 12 (omega arith) (omega arith) (omega arith)

find_clear_bits-Answer_example :
    Answer sample false 6 5 (λ p. p + 6 < 40) (find_clear_bits sample 6 5)
find_clear_bits-Answer_example =
    find_clear_bits-Answer sample 6 5 (omega arith) (omega arith) (omega arith)

find_clear_bits_and_set-Written_example :
    Written sample 6 false (λ p. p + 6 < 40) (find_clear_bits_and_set sample 6 5)
find_clear_bits_and_set-Written_example =
    find_clear_bits_and_set-Written sample 6 5 (omega arith) (omega arith) (omega arith)

abbrev all_clear : Bitmap
all_clear = record { size = 40; buffer = λ n i. false }

find_clear_bits-whole_example : position (find_clear_bits all_clear 40 0) ≡ max_index
find_clear_bits-whole_example = find_clear_bits-whole all_clear 0 (omega arith) (omega arith)

find_longest_run_clear-IsLongest_example : IsLongest sample false (find_longest_run_clear sample 0)
find_longest_run_clear-IsLongest_example = find_longest_run_clear-IsLongest sample 0 (omega arith)

longest_is_25 : find_longest_run_clear sample 0 ≡ some (run 10 25)
unfolding find_longest_run_clear longest_loop find_next_forward_run_clear length_of_run_clear
    length_of_run_set skip_clear skip_set run_length bit_scan_forward is_zero
longest_is_25 = refl

number_of_set_bits-count_set_example : number_of_set_bits sample ≡ count_set sample 0 40
number_of_set_bits-count_set_example = number_of_set_bits-count_set sample (omega arith)

number_of_clear_bits-count_clear_example : number_of_clear_bits sample ≡ count_clear sample 0 40
number_of_clear_bits-count_clear_example = number_of_clear_bits-count_clear sample (omega arith)

twelve_are_set : number_of_set_bits sample ≡ 12
unfolding number_of_set_bits count_bytes bit_count_table
twelve_are_set = refl

find_clear_runs-RunsOutcome_example :
    RunsOutcome sample (omega arith) 2 true (find_clear_runs sample (λ i. run 0 0) 2 true)
find_clear_runs-RunsOutcome_example =
    find_clear_runs-RunsOutcome sample (omega arith) (λ i. run 0 0) 2 true
