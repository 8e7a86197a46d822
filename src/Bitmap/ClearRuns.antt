-- ===== src/Bitmap/ClearRuns.antt =====
-- core/bitmap.cpp, `RtlFindClearRuns`: the first clear runs, or the longest. The array of runs is a
-- function, as it is left. The search for longer runs has `size + 1` rounds.
pub mod Laws
use ntreg.Base.{
  ℕ, zero, suc, ◌+◌, Option, none, some, Bool, not, ◌||◌, ltb, ◌==◌, if◌then◌else◌, add32,
}
use ntreg.Bitmap.State.{Bitmap}
use ntreg.Bitmap.Longest.{Run, find_next_forward_run_clear}

abbrev pub set_run : (ℕ → Run) → ℕ → Run → ℕ → Run
set_run runs i r j = if j == i then r else runs j

-- The local variables once the array is filled, or no run is left.
pub record FirstRuns : Type 0 where
  pub runs : ℕ → Run
  pub count : ℕ
  pub smallest : ℕ
  pub from : ℕ

abbrev pub first : (ℕ → Run) → (count smallest from : ℕ) → FirstRuns
first runs count smallest from = record {
  runs = runs;
  count = count;
  smallest = smallest;
  from = from;
}

-- for (Run = 0; Run < SizeOfRunArray; Run++), over the places left.
unfoldable pub first_runs :
    (left : ℕ) → (next : ℕ → Run) → (ℕ → Run) → (count smallest from : ℕ) → FirstRuns
first_runs zero next runs count smallest from = first runs count smallest from
first_runs (suc left) next runs count smallest from =
    let found = next from in
    let runs' = set_run runs count found in
    let smallest' =
      if ltb found.number_of_bits (runs' smallest).number_of_bits then count else smallest in
    let rest =
      first_runs left next runs' (count + 1) smallest'
        (add32 found.starting_index found.number_of_bits) in
    if found.number_of_bits == 0 then first runs count smallest from else rest

-- The loop over all runs. It compares with the smallest run, and not with the one that it is at.
unfoldable pub new_smallest : (left bits : ℕ) → (ℕ → Run) → (index smallest : ℕ) → ℕ
new_smallest zero bits runs index smallest = smallest
new_smallest (suc left) bits runs index smallest =
    new_smallest left bits runs (index + 1)
      (if ltb bits (runs smallest).number_of_bits then index else smallest)

unfoldable pub longer_runs :
    (fuel size : ℕ) → (next : ℕ → Run) → (ℕ → Run) → (smallest from : ℕ) → Option (ℕ → Run)
longer_runs zero size next runs smallest from = none
longer_runs (suc f) size next runs smallest from =
    let found = next from in
    let longer = ltb (runs smallest).number_of_bits found.number_of_bits in
    let runs' = if longer then set_run runs smallest found else runs in
    let smallest' =
      if longer then new_smallest size found.number_of_bits runs' 0 smallest else smallest in
    let rest = longer_runs f size next runs' smallest' (add32 from found.number_of_bits) in
    if found.number_of_bits == 0 then some runs else rest

-- The number of runs, and the array. `none` means that the fuel ran out.
unfoldable pub find_clear_runs :
    Bitmap → (runs : ℕ → Run) → (size : ℕ) → (locate_longest_runs : Bool) → Option (ℕ × (ℕ → Run))
find_clear_runs b runs size longest =
    let next = find_next_forward_run_clear b in
    let found = first_runs size next runs 0 0 0 in
    if ltb found.count size || not longest
    then some (found.count, found.runs)
    else elim (longer_runs (b.size + 1) size next found.runs found.smallest found.from) [
      | none ↦ none
      | some longer ↦ some (size, longer)
    ]
