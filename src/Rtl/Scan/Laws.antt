-- ===== src/Rtl/Scan/Laws.antt =====
-- What the two scans of core/rtl.cpp return.
use ntreg.Base.{
  ℕ, zero, suc, ◌+◌, ◌-◌, ◌≤◌, ◌<◌, ◌≡◌, ◌≢◌, ◌⊎◌, inl, inr, true, false, Option, none, some, arith,
}
use native.Mathlib.Decide.{dec_lt}
use ntreg.Base.Word.{Word, shl, shr, is_zero, is_zero-clear, zero_or_Least, Least}
use ntreg.Rtl.Scan.{
  forward_loop, bit_scan_forward, reverse_loop, bit_scan_reverse, find_most_significant_bit,
  find_least_significant_bit, low_word, high_word,
}

not_zero : (w : Word) (k : ℕ) → w k ≡ true → k < 32 → is_zero w ≡ false
not_zero w k e h = ground (arith, is_zero-clear w k)

forward_loop_lem :
    (f k i : ℕ) (w : Word) → k ≤ f → Least w 32 k → forward_loop f w i ≡ (i + k, true)
unfolding forward_loop
forward_loop_lem zero zero i w h l = ground (arith, not_zero w zero l.holds)
forward_loop_lem zero (suc k) i w h l = absurd (omega arith)
forward_loop_lem (suc f) zero i w h l = ground (arith, not_zero w zero l.holds)
forward_loop_lem (suc f) (suc k) i w h l = ground (
  arith,
  not_zero w (suc k) l.holds,
  l.first 0,
  forward_loop_lem f k (i + 1) (shr w 1) (omega arith) next,
)
  where
    next : Least (shr w 1) 32 k
    next = record {
      below = omega (arith, l.below);
      holds = ground (arith, l.holds, l.below);
      first = λ j p. ground (arith, l.first (suc j));
    }

-- The scan from below returns the index of the least set bit.
pub bit_scan_forward-Least : (w : Word) (k : ℕ) → Least w 32 k → bit_scan_forward w ≡ (k, true)
unfolding bit_scan_forward
bit_scan_forward-Least w k l = ground (arith, forward_loop_lem 32 k 0 w)

forward_loop-zero : (f i : ℕ) (w : Word) → is_zero w ≡ true → forward_loop f w i ≡ (i, false)
unfolding forward_loop
forward_loop-zero zero i w z = ground arith
forward_loop-zero (suc f) i w z = ground arith

pub bit_scan_forward-zero : (w : Word) → is_zero w ≡ true → bit_scan_forward w ≡ (0, false)
unfolding bit_scan_forward
bit_scan_forward-zero w z = forward_loop-zero 32 0 w z

-- The greatest set bit of a word.
pub record Greatest (w : Word) (k : ℕ) : Type 0 where
  pub below : k < 32
  pub holds : w k ≡ true
  pub last : (j : ℕ) → k < j → j < 32 → w j ≡ false

-- `d` is the distance of the bit from bit 31.
reverse_loop_lem :
    (f d k i : ℕ) (w : Word)
    → d ≤ f
    → k + d ≡ 31
    → Greatest w k
    → reverse_loop f w i ≡ (i + d, true)
unfolding reverse_loop
reverse_loop_lem zero zero k i w h e g = ground (arith, not_zero w k g.holds)
reverse_loop_lem zero (suc d) k i w h e g = absurd (omega arith)
reverse_loop_lem (suc f) zero k i w h e g = ground (arith, not_zero w k g.holds g.below, top)
  where
    top : w 31 ≡ true
    top = let same : k ≡ 31 = omega arith in rw same at g.holds
reverse_loop_lem (suc f) (suc d) k i w h e g = ground (
  arith,
  not_zero w k g.holds g.below,
  g.last 31,
  reverse_loop_lem f d (suc k) (i + 1) (shl w 1) (omega arith) (omega arith) next,
)
  where
    next : Greatest (shl w 1) (suc k)
    next = record {
      below = omega arith;
      holds = ground (arith, g.holds);
      last = λ j p q. ground (arith, g.last (j - 1));
    }

-- The scan from above returns the distance of the greatest set bit from bit 31, not its index.
pub bit_scan_reverse-Greatest :
    (w : Word) (k : ℕ) → Greatest w k → bit_scan_reverse w ≡ (31 - k, true)
unfolding bit_scan_reverse
bit_scan_reverse-Greatest w k g =
    ground (arith, reverse_loop_lem 32 (31 - k) k 0 w (omega arith) (omega (arith, g.below)) g)

reverse_loop-zero : (f i : ℕ) (w : Word) → is_zero w ≡ true → reverse_loop f w i ≡ (i, false)
unfolding reverse_loop
reverse_loop-zero zero i w z = ground arith
reverse_loop-zero (suc f) i w z = ground arith

bit_scan_reverse-zero : (w : Word) → is_zero w ≡ true → bit_scan_reverse w ≡ (0, false)
unfolding bit_scan_reverse
bit_scan_reverse-zero w z = reverse_loop-zero 32 0 w z

-- The index of the least of 64 bits that is set, or that there is none.
pub LeastOf : Word → Option ℕ → Type 0
LeastOf v (some k) = Least v 64 k
LeastOf v none = (k : ℕ) → k < 64 → v k ≡ false

-- The search for the least significant bit returns its index, and -1 only if no bit is set.
pub find_least_significant_bit_lem : (v : Word) → LeastOf v (find_least_significant_bit v)
unfolding find_least_significant_bit LeastOf
find_least_significant_bit_lem v = cases (zero_or_Least (low_word v)) (zero_or_Least (high_word v))
  where
    cases :
        (is_zero v ≡ true) ⊎ ((k : ℕ) × Least v 32 k × (is_zero v ≡ false))
        → (is_zero (high_word v) ≡ true)
          ⊎ ((k : ℕ) × Least (high_word v) 32 k × (is_zero (high_word v) ≡ false))
        → LeastOf v (find_least_significant_bit v)
    cases (inr (k, l, _)) _ =
        rw (bit_scan_forward-Least v k l)
          (record { below = omega (arith, l.below); holds = l.holds; first = l.first })
    cases (inl z) (inr (k, l, _)) =
        rw (bit_scan_forward-zero v z, bit_scan_forward-Least (high_word v) k l)
          (record {
            below = omega (arith, l.below);
            holds = l.holds;
            first = λ j h. elim (dec_lt j 32) [
              | yes low ↦ is_zero-clear v j z low
              | no high ↦ ground (arith, l.first (j - 32))
            ];
          })
    cases (inl z) (inl z') =
        rw (bit_scan_forward-zero v z, bit_scan_forward-zero (high_word v) z')
          λ j h. elim (dec_lt j 32) [
            | yes low ↦ is_zero-clear v j z low
            | no high ↦ ground (arith, is_zero-clear (high_word v) (j - 32) z')
          ]

-- For a value of 32 bits the search for the most significant bit returns the distance of that bit
-- from bit 31, which is never its index.
pub find_most_significant_bit-mirrored :
    (v : Word) (k : ℕ)
    → Greatest (low_word v) k
    → is_zero (high_word v) ≡ true
    → (find_most_significant_bit v ≡ some (31 - k)) × (find_most_significant_bit v ≢ some k)
unfolding find_most_significant_bit
find_most_significant_bit-mirrored v k g z =
    rw (bit_scan_reverse-zero (high_word v) z, bit_scan_reverse-Greatest v k g)
      (ground arith, ground (arith, g.below))
