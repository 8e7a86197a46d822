-- ===== src/Bitmap/Longest/Maximal.antt =====
-- `RtlFindLongestRunClear` and `RtlFindLongestRunSet` of core/bitmap.cpp return a longest run,
-- although they advance by its length only and so measure some runs again in part.
use ntreg.Base.{
  ℕ, zero, suc, ◌+◌, ◌-◌, ◌≤◌, ◌<◌, ◌≡◌, inl, inr, Bool, true, false, ltb, ◌==◌, if◌then◌else◌,
  Option, none, some, add32, arith, Bool-cases,
}
use native.Mathlib.Decide.{dec_lt}
use ntreg.Bitmap.State.{Bitmap}
use ntreg.Bitmap.Runs.Exact.{IsSmall}
use ntreg.Bitmap.Find.Areas.{Area}
use ntreg.Bitmap.Longest.{
  Run, run, longest_loop, find_next_forward_run_clear, find_next_forward_run_set,
  find_longest_run_clear, find_longest_run_set,
}
use ntreg.Bitmap.Longest.Forward.{
  IsNext, find_next_forward_run_clear-IsNext, find_next_forward_run_set-IsNext,
}

-- `r` is an area of value `v`, or empty, and no area is longer.
abbrev pub IsLongest : Bitmap → Bool → Option Run → Type 0
IsLongest b v none = ⊥
IsLongest b v (some r) =
    (0 < r.number_of_bits → Area b v r.starting_index r.number_of_bits)
    × ((p count : ℕ) → Area b v p count → count ≤ r.number_of_bits)

-- The best so far, over the areas that start before `from`.
record Best (b : Bitmap) (v : Bool) (from : ℕ) (best : Run) : Type 0 where
  attained : 0 < best.number_of_bits → Area b v best.starting_index best.number_of_bits
  longest : (p count : ℕ) → p < from → Area b v p count → count ≤ best.number_of_bits

module _ (b : Bitmap) (v : Bool) (from : ℕ) (found best : Run) (here : from ≤ b.size)
    (n : IsNext b v from found) (h : Best b v from best) where
  -- An area from here on, up to the next start, is no longer than the run found.
  Area-le :
      (p count : ℕ)
      → from ≤ p
      → p < from + found.number_of_bits
      → Area b v p count
      → count ≤ found.number_of_bits
  Area-le p count le lt a = elim (dec_lt p found.starting_index) [
    | yes before ↦ ground (arith, n.before p le before, a.same p)
    | no after ↦ ground (
      arith,
      a.within,
      n.stop,
      n.within here,
      n.ahead,
      a.same (found.starting_index + found.number_of_bits),
    )
  ]

  found-Area : Area b v found.starting_index found.number_of_bits
  found-Area = record { within = n.within here; same = n.same }

  Best-next :
      Best b v
        (from + found.number_of_bits)
        (if ltb best.number_of_bits found.number_of_bits then found else best)
  Best-next = elim (Bool-cases (ltb best.number_of_bits found.number_of_bits)) [
    | inl longer ↦ rw longer (record {
      attained = λ p. found-Area;
      longest = λ p count lt a. elim (dec_lt p from) [
        | yes old ↦ ground (arith, h.longest p count old a)
        | no new ↦ Area-le p count (omega arith) lt a
      ];
    })
    | inr shorter ↦ rw shorter (record {
      attained = h.attained;
      longest = λ p count lt a. elim (dec_lt p from) [
        | yes old ↦ h.longest p count old a
        | no new ↦ ground (arith, Area-le p count (omega arith) lt a)
      ];
    })
  ]

  Best-last : found.number_of_bits ≡ 0 → IsLongest b v (some best)
  Best-last e = (
    h.attained,
    λ p count a. elim (dec_lt p from) [
      | yes old ↦ h.longest p count old a
      | no new ↦ ground (arith, a.within, n.none_left e, n.before p, a.same p)
    ],
  )

module _ (b : Bitmap) (v : Bool) (small : IsSmall b) (next : ℕ → Run)
    (next-IsNext : (from : ℕ) → IsNext b v from (next from)) where
  longest_loop-IsLongest :
      (f from : ℕ) (best : Run)
      → from ≤ b.size
      → b.size - from < f
      → Best b v from best
      → IsLongest b v (longest_loop f next from best)
  unfolding longest_loop
  longest_loop-IsLongest zero from best here fuel h = absurd (omega arith)
  longest_loop-IsLongest (suc f) from best here fuel h =
      let found = next from in
      let n = next-IsNext from in
      elim (Bool-cases (found.number_of_bits == 0)) [
        | inl last ↦ rw last (Best-last b v from found best here n h (ground arith))
        | inr more ↦
            let at : add32 from found.number_of_bits ≡ from + found.number_of_bits =
              omega (arith, n.within here, n.ahead) in
            rw (more, at)
              (longest_loop-IsLongest f (from + found.number_of_bits) _
                (omega (arith, n.within here, n.ahead)) (ground arith)
                (Best-next b v from found best here n h))
      ]

Best-first : (b : Bitmap) (v : Bool) (index : ℕ) → Best b v 0 (run index 0)
Best-first b v index = record {
  attained = λ p. absurd (omega arith);
  longest = λ p count lt. absurd (omega arith);
}

module _ (b : Bitmap) (index : ℕ) (small : IsSmall b) where
  -- The search for the longest clear run ends, and no range of clear bits is longer than its run.
  pub find_longest_run_clear-IsLongest : IsLongest b false (find_longest_run_clear b index)
  unfolding find_longest_run_clear
  find_longest_run_clear-IsLongest =
      longest_loop-IsLongest b false small (find_next_forward_run_clear b)
        (λ from. find_next_forward_run_clear-IsNext b from small) (b.size + 1) 0 (run index 0)
        (omega arith) (omega arith) (Best-first b false index)

  -- The search for the longest set run ends, and no range of set bits is longer than its run.
  pub find_longest_run_set-IsLongest : IsLongest b true (find_longest_run_set b index)
  unfolding find_longest_run_set
  find_longest_run_set-IsLongest =
      longest_loop-IsLongest b true small (find_next_forward_run_set b)
        (λ from. find_next_forward_run_set-IsNext b from small) (b.size + 1) 0 (run index 0)
        (omega arith) (omega arith) (Best-first b true index)
