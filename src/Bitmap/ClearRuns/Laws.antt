-- ===== src/Bitmap/ClearRuns/Laws.antt =====
-- Which runs `RtlFindClearRuns` of core/bitmap.cpp finds.
use ntreg.Base.{
  ℕ, zero, suc, ◌+◌, ◌≤◌, ◌<◌, ◌≡◌, ◌≢◌, ◌⊎◌, refl, sym, inl, inr, Bool, true, false, not, ◌||◌,
  ltb, ◌==◌, if◌then◌else◌, Option, none, some, add32, arith, Bool-cases,
}
use mathlib.Core.Path.{subst}
use native.Mathlib.Decide.{dec_lt}
use ntreg.Bitmap.State.{Bitmap, test_bit}
use ntreg.Bitmap.Runs.Exact.{IsSmall}
use ntreg.Bitmap.Longest.{Run, find_next_forward_run_clear}
use ntreg.Bitmap.Longest.Forward.{IsNext, find_next_forward_run_clear-IsNext}
use ntreg.Bitmap.ClearRuns.{set_run, FirstRuns, first_runs, longer_runs, find_clear_runs}

-- Where the search for a run begins: behind the run before it.
abbrev pub end_of : (ℕ → Run) → ℕ → ℕ
end_of runs zero = 0
end_of runs (suc j) = (runs j).starting_index + (runs j).number_of_bits

end_of-set_run :
    (runs : ℕ → Run) (k : ℕ) (r : Run) (j : ℕ) → j ≤ k → end_of (set_run runs k r) j ≡ end_of runs j
end_of-set_run runs k r zero h = refl
end_of-set_run runs k r (suc j) h = let other : (j == k) ≡ false = ground arith in rw other refl

-- The first runs of the array are clear runs of the bitmap, each the next one behind the one before.
pub record AreRuns (b : Bitmap) (runs : ℕ → Run) (k : ℕ) : Type 0 where
  pub next : (j : ℕ) → j < k → IsNext b false (end_of runs j) (runs j)
  pub some_bits : (j : ℕ) → j < k → 0 < (runs j).number_of_bits
  pub within : end_of runs k ≤ b.size

-- The array is full, or no bit behind the last run is clear.
pub record AreFirst (b : Bitmap) (size count : ℕ) (runs : ℕ → Run) : Type 0 where
  pub are_runs : AreRuns b runs count
  pub fits : count ≤ size
  pub all : count < size → (n : ℕ) → end_of runs count ≤ n → n < b.size → test_bit b n ≡ true

module _ (b : Bitmap) (small : IsSmall b) where
  set_run-AreRuns :
      (runs : ℕ → Run) (k : ℕ)
      → AreRuns b runs k
      → 0 < (find_next_forward_run_clear b (end_of runs k)).number_of_bits
      → AreRuns b (set_run runs k (find_next_forward_run_clear b (end_of runs k))) (k + 1)
  set_run-AreRuns runs k a more =
      let found = find_next_forward_run_clear b (end_of runs k) in
      let n = find_next_forward_run_clear-IsNext b (end_of runs k) small in
      let itself : (k == k) ≡ true = ground arith in
      record {
        next = λ j h. elim (dec_lt j k) [
          | yes old ↦
              let other : (j == k) ≡ false = ground arith in
              rw (other, end_of-set_run runs k found j (omega arith)) (a.next j old)
          | no here ↦
              let same : j ≡ k = omega arith in
              rw (same, itself, end_of-set_run runs k found k (omega arith)) n
        ];
        some_bits = λ j h. elim (dec_lt j k) [
          | yes old ↦ let other : (j == k) ≡ false = ground arith in rw other (a.some_bits j old)
          | no here ↦ let same : j ≡ k = omega arith in rw (same, itself) more
        ];
        within =
            let e : k + 1 ≡ suc k = omega arith in
            subst (λ m. end_of (set_run runs k found) m ≤ b.size) (sym e)
              (rw itself (n.within a.within));
      }

  first_runs-AreFirst :
      (left size : ℕ) (runs : ℕ → Run) (k smallest : ℕ)
      → k + left ≡ size
      → AreRuns b runs k
      → let r = first_runs left (find_next_forward_run_clear b) runs k smallest (end_of runs k) in
        AreFirst b size r.count r.runs × (r.from ≡ end_of r.runs r.count)
  unfolding first_runs
  first_runs-AreFirst zero size runs k smallest e a =
      (record { are_runs = a; fits = omega arith; all = λ h. absurd (omega arith) }, refl)
  first_runs-AreFirst (suc left) size runs k smallest e a =
      let found = find_next_forward_run_clear b (end_of runs k) in
      let n = find_next_forward_run_clear-IsNext b (end_of runs k) small in
      elim (Bool-cases (found.number_of_bits == 0)) [
        | inl none_left ↦ rw none_left (
          record {
            are_runs = a;
            fits = omega arith;
            all = λ h m p q. n.before m p (ground (arith, none_left, n.none_left));
          },
          refl,
        )
        | inr more ↦
            let ends : add32 found.starting_index found.number_of_bits
                ≡ end_of (set_run runs k found) (k + 1) =
              end_lem runs k found (n.within a.within) in
            rw (more, ends)
              (first_runs-AreFirst left size (set_run runs k found) (k + 1) _ (omega (arith, e))
                (set_run-AreRuns runs k a (ground (arith, more))))
      ]
    where
      end_lem :
          (runs : ℕ → Run) (k : ℕ) (r : Run)
          → r.starting_index + r.number_of_bits ≤ b.size
          → add32 r.starting_index r.number_of_bits ≡ end_of (set_run runs k r) (k + 1)
      end_lem runs k r h =
          let e : k + 1 ≡ suc k = omega arith in
          let itself : (k == k) ≡ true = ground arith in
          subst (λ m. add32 r.starting_index r.number_of_bits ≡ end_of (set_run runs k r) m) (sym e)
            (rw itself (omega (arith, small)))

  -- A range of clear bits, not empty and within the bitmap.
  pub record IsClear (r : Run) : Type 0 where
    pub within : r.starting_index + r.number_of_bits ≤ b.size
    pub some_bits : 0 < r.number_of_bits
    pub same :
        (n : ℕ)
        → r.starting_index ≤ n
        → n < r.starting_index + r.number_of_bits
        → test_bit b n ≡ false

  AreRuns-IsClear : (runs : ℕ → Run) (k : ℕ) → AreRuns b runs k → (j : ℕ) → j < k → IsClear (runs j)
  AreRuns-IsClear runs k a j h = record {
    within = (a.next j h).within (before j h);
    some_bits = a.some_bits j h;
    same = (a.next j h).same;
  }
    where
      before : (j : ℕ) → j < k → end_of runs j ≤ b.size
      before zero h = omega arith
      before (suc j) h = (a.next j (omega arith)).within (before j (omega arith))

  abbrev LongerOutcome : (size : ℕ) → Option (ℕ → Run) → Type 0
  LongerOutcome size none = ⊥
  LongerOutcome size (some runs) = (j : ℕ) → j < size → IsClear (runs j)

  longer_runs-IsClear :
      (f size : ℕ) (runs : ℕ → Run) (smallest from : ℕ)
      → b.size < f + from
      → from ≤ b.size
      → ((j : ℕ) → j < size → IsClear (runs j))
      → LongerOutcome size (longer_runs f size (find_next_forward_run_clear b) runs smallest from)
  unfolding longer_runs
  longer_runs-IsClear zero size runs smallest from enough inside clear = absurd (omega arith)
  longer_runs-IsClear (suc f) size runs smallest from enough inside clear =
      let found = find_next_forward_run_clear b from in
      let n = find_next_forward_run_clear-IsNext b from small in
      elim (Bool-cases (found.number_of_bits == 0)) [
        | inl none_left ↦ rw none_left clear
        | inr more ↦
            let step : add32 from found.number_of_bits ≡ from + found.number_of_bits =
              omega (arith, n.within inside, n.ahead, small) in
            let is_clear : IsClear found = record {
              within = n.within inside;
              some_bits = ground (arith, more);
              same = n.same;
            } in
            rw (more, step)
              (longer_runs-IsClear f size _ _ (from + found.number_of_bits)
                (omega (arith, is_clear.some_bits)) (omega (arith, n.within inside, n.ahead))
                (λ j h.
                  elim (Bool-cases (ltb (runs smallest).number_of_bits found.number_of_bits)) [
                    | inr same ↦ rw same (clear j h)
                    | inl longer ↦ elim (Bool-cases (j == smallest)) [
                      | inl here ↦ rw (longer, here) is_clear
                      | inr other ↦ rw (longer, other) (clear j h)
                    ]
                  ]))
      ]

  abbrev pub RunsOutcome : (size : ℕ) (longest : Bool) → Option (ℕ × (ℕ → Run)) → Type 0
  RunsOutcome size longest none = ⊥
  RunsOutcome size longest (some (count, runs)) =
      (count ≤ size)
      × ((j : ℕ) → j < count → IsClear (runs j))
      × ((longest ≡ false) ⊎ (count < size) → AreFirst b size count runs)

  -- The search for clear runs ends. No more runs are returned than there is room for, and each is a
  -- range of clear bits, not empty. If the longest are not asked for, or there was room for more,
  -- they are the first runs of the bitmap, whole and in order; with room left, they are all.
  pub find_clear_runs-RunsOutcome :
      (runs : ℕ → Run) (size : ℕ) (longest : Bool)
      → RunsOutcome size longest (find_clear_runs b runs size longest)
  unfolding find_clear_runs
  find_clear_runs-RunsOutcome runs size longest =
      let start : AreRuns b runs 0 = record {
        next = λ j h. absurd (omega arith);
        some_bits = λ j h. absurd (omega arith);
        within = omega arith;
      } in
      let f = first_runs-AreFirst size size runs 0 0 (omega arith) start in finish _ f.0 f.1
    where
      finish :
          (r : FirstRuns)
          → AreFirst b size r.count r.runs
          → r.from ≡ end_of r.runs r.count
          → RunsOutcome size longest (
              if ltb r.count size || not longest
              then some (r.count, r.runs)
              else elim (longer_runs
                  (b.size + 1)
                  size
                  (find_next_forward_run_clear b)
                  r.runs
                  r.smallest
                  r.from) [ none ↦ none | some longer ↦ some (size, longer) ])
      finish r a e =
          let clear = AreRuns-IsClear r.runs r.count a.are_runs in
          elim (Bool-cases (ltb r.count size || not longest)) [
            | inl done ↦ rw done (a.fits, clear, λ h. a)
            | inr more ↦
                let full : r.count ≡ size = ground (arith, more, a.fits) in
                let asked : longest ≢ false = λ h. ground (arith, more) in
                rw more (
                  searched asked _ (
                    longer_runs-IsClear (b.size + 1) size r.runs r.smallest r.from (omega arith)
                      (rw e a.are_runs.within) (λ j h. clear j (omega (arith, full)))))
          ]
        where
          searched :
              longest ≢ false
              → (o : Option (ℕ → Run)) → LongerOutcome size o
              → RunsOutcome size longest
                  (elim o [ none ↦ none | some longer ↦ some (size, longer) ])
          searched asked none o = o
          searched asked (some longer) o = (
            omega arith,
            o,
            λ h. elim h [
              | inl not_asked ↦ absurd (asked not_asked)
              | inr less ↦ absurd (omega arith)
            ],
          )
