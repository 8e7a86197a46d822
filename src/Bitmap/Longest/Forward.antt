-- ===== src/Bitmap/Longest/Forward.antt =====
-- `RtlFindNextForwardRunClear` and `RtlFindNextForwardRunSet` of core/bitmap.cpp return the first
-- run behind an index, whole.
use ntreg.Base.{ℕ, ◌+◌, ◌≤◌, ◌<◌, ◌≡◌, Bool, true, false, not, add32, arith, lt→not_leb, le→leb}
use native.Mathlib.Decide.{dec_lt}
use ntreg.Bitmap.State.{Bitmap, test_bit}
use ntreg.Bitmap.Runs.{length_of_run_clear, length_of_run_set}
use ntreg.Bitmap.Runs.Exact.{
  IsSmall, IsRun, length_of_run_clear-IsRun, length_of_run_set-IsRun, length_of_run-outside,
}
use ntreg.Bitmap.Find.{max_index}
use ntreg.Bitmap.Longest.{Run, run, find_next_forward_run_clear, find_next_forward_run_set}

-- From `from` on the first bit of value `v` is at the start of the run; the run is not empty unless
-- there is no such bit, and it is followed by the end of the bitmap or by a bit of the other value.
pub record IsNext (b : Bitmap) (v : Bool) (from : ℕ) (r : Run) : Type 0 where
  pub ahead : from ≤ r.starting_index
  pub within : from ≤ b.size → r.starting_index + r.number_of_bits ≤ b.size
  pub before : (n : ℕ) → from ≤ n → n < r.starting_index → test_bit b n ≡ not v
  pub same :
      (n : ℕ) → r.starting_index ≤ n → n < r.starting_index + r.number_of_bits → test_bit b n ≡ v
  pub stop :
      r.starting_index + r.number_of_bits < b.size
      → test_bit b (r.starting_index + r.number_of_bits) ≡ not v
  pub none_left : r.number_of_bits ≡ 0 → b.size ≤ r.starting_index

module _ (b : Bitmap) (v : Bool) (from g l : ℕ) (small : IsSmall b) (here : from < b.size)
    (gap : IsRun b (not v) from max_index g) (at_end : b.size ≤ from + g → l ≡ 0)
    (body : from + g < b.size → IsRun b v (from + g) max_index l) where
  two_runs-IsNext : IsNext b v from (run (from + g) l)
  two_runs-IsNext = elim (dec_lt (from + g) b.size) [
    | yes inside ↦ record {
      ahead = omega arith;
      within = λ h. (body inside).within;
      before = gap.same;
      same = (body inside).same;
      stop = λ h. (body inside).stop (omega arith);
      none_left = λ e. ground (arith, (body inside).stop, gap.stop);
    }
    | no end ↦
        let e : l ≡ 0 = at_end (omega arith) in
        let size : from + g ≡ b.size = omega (arith, gap.within) in
        record {
          ahead = omega arith;
          within = λ h. omega arith;
          before = gap.same;
          same = λ n p q. absurd (omega arith);
          stop = λ h. absurd (omega arith);
          none_left = λ h. omega arith;
        }
  ]

outside-IsNext : (b : Bitmap) (v : Bool) (from : ℕ) → b.size ≤ from → IsNext b v from (run from 0)
outside-IsNext b v from h = record {
  ahead = omega arith;
  within = λ p. omega arith;
  before = λ n p q. absurd (omega arith);
  same = λ n p q. absurd (omega arith);
  stop = λ p. absurd (omega arith);
  none_left = λ e. h;
}

module _ (b : Bitmap) (from : ℕ) (small : IsSmall b) where
  -- The next clear run behind any index is found whole.
  pub find_next_forward_run_clear-IsNext : IsNext b false from (find_next_forward_run_clear b from)
  unfolding find_next_forward_run_clear
  find_next_forward_run_clear-IsNext = elim (dec_lt from b.size) [
    | no outside ↦ rw (le→leb b.size from (omega arith)) (outside-IsNext b false from (omega arith))
    | yes inside ↦
        let gap = length_of_run_set-IsRun b from max_index small inside in
        let g = length_of_run_set b from max_index in
        let at : add32 from g ≡ from + g = omega (arith, gap.within) in
        rw (lt→not_leb from b.size inside, at)
          (two_runs-IsNext b false from g _ small inside gap
            (λ h. (length_of_run-outside b (from + g) max_index h).0)
            (length_of_run_clear-IsRun b (from + g) max_index small))
  ]

  -- The next set run behind any index is found whole.
  pub find_next_forward_run_set-IsNext : IsNext b true from (find_next_forward_run_set b from)
  unfolding find_next_forward_run_set
  find_next_forward_run_set-IsNext = elim (dec_lt from b.size) [
    | no outside ↦ rw (le→leb b.size from (omega arith)) (outside-IsNext b true from (omega arith))
    | yes inside ↦
        let gap = length_of_run_clear-IsRun b from max_index small inside in
        let g = length_of_run_clear b from max_index in
        let at : add32 from g ≡ from + g = omega (arith, gap.within) in
        rw (lt→not_leb from b.size inside, at)
          (two_runs-IsNext b true from g _ small inside gap
            (λ h. (length_of_run-outside b (from + g) max_index h).1)
            (length_of_run_set-IsRun b (from + g) max_index small))
  ]
