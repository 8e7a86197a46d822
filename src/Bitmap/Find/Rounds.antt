-- ===== src/Bitmap/Find/Rounds.antt =====
-- One pass of the searches of core/bitmap.cpp: it ends on the fuel given, and an index that it
-- returns or passes over is one that has, or has not, the wanted bits.
use ntreg.Base.{
  ℕ, zero, suc, ◌+◌, ◌-◌, ◌≤◌, ◌<◌, ◌≡◌, inl, inr, Bool, true, false, not, ltb, leb, if◌then◌else◌,
  add32, arith, Bool-cases, leb→le, ltb→lt, add32_small,
}
use native.Mathlib.Decide.{dec_lt}
use ntreg.Bitmap.State.{Bitmap}
use ntreg.Bitmap.Runs.{length_of_run_clear, length_of_run_set}
use ntreg.Bitmap.Runs.Exact.{
  IsSmall, IsRun, length_of_run_clear-IsRun, length_of_run_set-IsRun, length_of_run-outside,
}
use ntreg.Bitmap.Find.{Pass, found, exhausted, stuck, max_index, clear_pass, set_pass}
use ntreg.Bitmap.Find.Areas.{Area}

-- What a pass from `current` on may say, where it looks at the starts that satisfy `Wanted`: the
-- first start that has the bits, or that no wanted start has them.
abbrev pub Outcome : Bitmap → Bool → (count current : ℕ) → (ℕ → Type 0) → Pass → Type 0
Outcome b v count current Wanted (found at) =
    (current ≤ at) × Area b v at count × ((p : ℕ) → current ≤ p → p < at → ¬ Area b v p count)
Outcome b v count current Wanted exhausted = (p : ℕ) → current ≤ p → Wanted p → ¬ Area b v p count
Outcome b v count current Wanted stuck = ⊥

-- The length of a run, where the index may be the end of the bitmap.
record Measured (b : Bitmap) (v : Bool) (at count l : ℕ) : Type 0 where
  inside : at < b.size → IsRun b v at count l
  outside : b.size ≤ at → l ≡ 0

-- One round: `g` bits of the other value are passed over, then `l` bits of the wanted one.
module _ (b : Bitmap) (v : Bool) (count current g l : ℕ) (small : IsSmall b) (pos : 0 < count)
    (here : current < b.size) (gap : IsRun b (not v) current max_index g)
    (run : Measured b v (current + g) count l) where
  reach : current + g + l ≤ b.size
  reach = elim (dec_lt (current + g) b.size) [
    | yes inside ↦ (run.inside inside).within
    | no end ↦ omega (arith, run.outside (omega arith), gap.within)
  ]

  round-Area : count ≤ l → Area b v (current + g) count
  round-Area enough = elim (dec_lt (current + g) b.size) [
    | yes inside ↦ record {
      within = omega (arith, reach);
      same = λ n p q. (run.inside inside).same n p (omega arith);
    }
    | no end ↦ absurd (omega (arith, run.outside (omega arith)))
  ]

  gap-Area : (p : ℕ) → current ≤ p → p < current + g → ¬ Area b v p count
  gap-Area p h q a = ground (arith, gap.same p h q, a.same p)

  round_moves : l < count → current < current + g + l
  round_moves short = elim (dec_lt (current + g) b.size) [
    | yes inside ↦ ground (arith, (run.inside inside).stop, gap.stop)
    | no end ↦ omega arith
  ]

  round_skips : l < count → (p : ℕ) → current ≤ p → p < current + g + l → ¬ Area b v p count
  round_skips short p h q a = elim (dec_lt p (current + g)) [
    | yes before ↦ ground (arith, gap.same p h before, a.same p)
    | no after ↦ elim (dec_lt (current + g) b.size) [
      | yes inside ↦
          ground (arith, reach, a.within, (run.inside inside).stop, a.same (current + g + l))
      | no end ↦ omega (arith, run.outside (omega arith))
    ]
  ]

clear-Measured :
    (b : Bitmap) (at count : ℕ)
    → IsSmall b
    → Measured b false at count (length_of_run_clear b at count)
clear-Measured b at count small = record {
  inside = length_of_run_clear-IsRun b at count small;
  outside = λ h. (length_of_run-outside b at count h).0;
}

set-Measured :
    (b : Bitmap) (at count : ℕ)
    → IsSmall b
    → Measured b true at count (length_of_run_set b at count)
set-Measured b at count small = record {
  inside = length_of_run_set-IsRun b at count small;
  outside = λ h. (length_of_run-outside b at count h).1;
}

-- A later pass, past starts that are ruled out, speaks for the earlier start too.
Outcome-earlier :
    (b : Bitmap) (v : Bool) (count current next : ℕ) (Wanted : ℕ → Type 0) (pass : Pass)
    → current ≤ next
    → ((p : ℕ) → current ≤ p → p < next → ¬ Area b v p count)
    → Outcome b v count next Wanted pass
    → Outcome b v count current Wanted pass
Outcome-earlier b v count current next Wanted (found at) le skip (h, a, first) = (
  omega arith,
  a,
  λ p q below. elim (dec_lt p next) [
    | yes before ↦ skip p q before
    | no after ↦ first p (omega arith) below
  ],
)
Outcome-earlier b v count current next Wanted exhausted le skip h =
    λ p q w. elim (dec_lt p next) [ yes before ↦ skip p q before | no after ↦ h p (omega arith) w ]
Outcome-earlier b v count current next Wanted stuck le skip h = h

-- One round of a pass, for either value: `g` and `l` are the lengths measured, `rest` is the pass
-- that goes on behind them.
module _ (b : Bitmap) (v : Bool) (count margin current g l : ℕ) (small : IsSmall b)
    (pos : 0 < count) (margin_le : margin ≤ b.size) (here : current < b.size)
    (gap : IsRun b (not v) current max_index g) (run : Measured b v (current + g) count l) where
  round-Outcome :
      (Wanted : ℕ → Type 0) (rest : Pass)
      → (current + g + l ≤ b.size
          → current < current + g + l
          → Outcome b v count (current + g + l) Wanted rest)
      → Outcome b v count current Wanted (if leb count l then found (current + g) else rest)
  round-Outcome Wanted rest later = elim (Bool-cases (leb count l)) [
    | inl enough ↦ rw enough (
      omega arith,
      round-Area b v count current g l small pos here gap run (leb→le _ _ enough),
      gap-Area b v count current g l small pos here gap run,
    )
    | inr short ↦
        let less : l < count = ground arith in
        rw short (
          Outcome-earlier b v count current (current + g + l) Wanted rest (omega arith)
            (round_skips b v count current g l small pos here gap run less)
            (later (reach b v count current g l small pos here gap run)
              (round_moves b v count current g l small pos here gap run less)))
  ]

module _ (b : Bitmap) (count margin : ℕ) (small : IsSmall b) (pos : 0 < count)
    (margin_le : margin ≤ b.size) (fits : count ≤ b.size) where
  pub set_pass-Outcome :
      (f current : ℕ)
      → current ≤ b.size
      → b.size - current < f
      → Outcome b true count current (λ p. p + count ≤ margin) (set_pass f b count margin current)
  unfolding set_pass
  set_pass-Outcome zero current h fuel = absurd (omega arith)
  set_pass-Outcome (suc f) current h fuel = elim (Bool-cases (leb (add32 current count) margin)) [
    | inl more ↦
        let inside : current < b.size = omega (arith, leb→le _ _ more, add32_small current count) in
        let gap = length_of_run_clear-IsRun b current max_index small inside in
        let g = length_of_run_clear b current max_index in
        let at : add32 current g ≡ current + g = omega (arith, gap.within) in
        let run = set-Measured b (current + g) count small in
        let l = length_of_run_set b (current + g) count in
        let next : add32 (current + g) l ≡ current + g + l =
          omega (arith, reach b true count current g l small pos inside gap run) in
        rw (more, at, next)
          (round-Outcome b true count margin current g l small pos margin_le inside gap run _ _
            (λ p q. set_pass-Outcome f (current + g + l) p (omega arith)))
    | inr end ↦ rw end (λ p q w a. ground (arith, a.within))
  ]

  pub clear_pass-Outcome :
      (f current : ℕ)
      → current ≤ b.size
      → b.size - current < f
      → Outcome b false count current
          (λ p. p + count < margin)
          (clear_pass f b count margin current)
  unfolding clear_pass
  clear_pass-Outcome zero current h fuel = absurd (omega arith)
  clear_pass-Outcome (suc f) current h fuel = elim (Bool-cases (ltb (add32 current count) margin)) [
    | inl more ↦
        let inside : current < b.size = omega (arith, ltb→lt _ _ more, add32_small current count) in
        let gap = length_of_run_set-IsRun b current max_index small inside in
        let g = length_of_run_set b current max_index in
        let at : add32 current g ≡ current + g = omega (arith, gap.within) in
        let run = clear-Measured b (current + g) count small in
        let l = length_of_run_clear b (current + g) count in
        let next : add32 (current + g) l ≡ current + g + l =
          omega (arith, reach b false count current g l small pos inside gap run) in
        rw (more, at, next)
          (round-Outcome b false count margin current g l small pos margin_le inside gap run _ _
            (λ p q. clear_pass-Outcome f (current + g + l) p (omega arith)))
    | inr end ↦ rw end (λ p q w a. ground (arith, a.within))
  ]
