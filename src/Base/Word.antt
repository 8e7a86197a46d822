-- ===== src/Base/Word.antt =====
-- A `ULONG` in the code that treats it as 32 bits: the value of each bit, counted from the least
-- significant. Positions from 32 on carry no meaning, and no operation or test looks at them.
use Prim.Native.Nat.{ℕ, zero, suc, ◌+◌, ◌-◌, ◌<◌}
use mathlib.Core.Path.{◌≡◌, refl}
use mathlib.Core.Logic.{◌⊎◌, inl, inr}
use mathlib.Core.Bool.{Bool, true, false, not, ◌&&◌, ◌||◌}
use native.Mathlib.Omega.{arith}
use ntreg.Base.Tests.{ltb, leb, passes, passes_at, passes_everywhere}

abbrev pub Word : Type 0
Word = ℕ → Bool

-- `w << k`
abbrev pub shl : Word → ℕ → Word
shl w k i = leb k i && w (i - k)

-- `w >> k`
abbrev pub shr : Word → ℕ → Word
shr w k i = ltb (i + k) 32 && w (i + k)

-- `~w`
abbrev pub inv : Word → Word
inv w i = not (w i)

-- `a & b` and `a | b`
abbrev pub and : Word → Word → Word
and a b i = a i && b i

abbrev pub or : Word → Word → Word
or a b i = a i || b i

-- `MAXINDEX`, 0xFFFFFFFF
abbrev pub ones : Word
ones i = true

-- `w == 0`
unfoldable pub is_zero : Word → Bool
unfolding passes
is_zero w = passes (λ i. not (w i)) 32

pub is_zero-clear : (w : Word) (i : ℕ) → is_zero w ≡ true → i < 32 → w i ≡ false
unfolding is_zero
is_zero-clear w i z h = ground (arith, passes_at (λ i. not (w i)) 32 z i h)

-- The least set bit below a bound, if there is one.
pub record Least (w : Word) (n k : ℕ) : Type 0 where
  pub below : k < n
  pub holds : w k ≡ true
  pub first : (j : ℕ) → j < k → w j ≡ false

pub find-Least : (w : Word) (n : ℕ) → ((k : ℕ) × Least w n k) ⊎ ((j : ℕ) → j < n → w j ≡ false)
find-Least w zero = inr (λ j h. absurd (omega arith))
find-Least w (suc n) = extend w n (find-Least w n) (w n) refl
  where
    extend :
        (w : Word) (n : ℕ)
        → ((k : ℕ) × Least w n k) ⊎ ((j : ℕ) → j < n → w j ≡ false)
        → (b : Bool) → w n ≡ b
        → ((k : ℕ) × Least w (suc n) k) ⊎ ((j : ℕ) → j < suc n → w j ≡ false)
    extend w n (inl (k, l)) b e =
        inl (k, record { below = omega (arith, l.below); holds = l.holds; first = l.first })
    extend w n (inr none_below) true e =
        inl (n, record { below = omega arith; holds = e; first = none_below })
    extend w n (inr none_below) false e = inr (λ j h. grind arith)

-- A word is zero, or has a least set bit.
pub zero_or_Least : (w : Word) → (is_zero w ≡ true) ⊎ ((k : ℕ) × Least w 32 k × (is_zero w ≡ false))
unfolding is_zero
zero_or_Least w = cases (find-Least w 32) (is_zero w) refl
  where
    cases :
        ((k : ℕ) × Least w 32 k) ⊎ ((j : ℕ) → j < 32 → w j ≡ false)
        → (b : Bool) → is_zero w ≡ b
        → (is_zero w ≡ true) ⊎ ((k : ℕ) × Least w 32 k × (is_zero w ≡ false))
    cases l true e = inl e
    cases (inl (k, l)) false e = inr (k, l, e)
    cases (inr none_below) false e =
        inl (passes_everywhere (λ i. not (w i)) 32 (λ i h. ground (arith, none_below i h)))
