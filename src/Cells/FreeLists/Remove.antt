-- ===== src/Cells/FreeLists/Remove.antt =====
-- Adding to and removing from the lists of free cells of core/hivecell.cpp.
use ntreg.Base.{
  ℕ, zero, suc, ◌<◌, ◌≡◌, ◌≢◌, ◌∙◌, false, List, [], ◌∷◌, ◌==◌, arith, length, inl, inr, Bool-cases,
}
use ntreg.Index.Data.{hcell_nil}
use ntreg.Cells.FreeLists.{
  Links, Place, after, read_at, Removal, removed, missing, stuck, remove_loop,
}
use ntreg.Cells.FreeLists.Chains.{
  IsChain, NotIn, IsDistinct, IsOutside, without, IsChain-write_at, read_at-write_at,
  read_at-write_other, IsOutside-first, IsOutside-rest, not_same,
}

-- The cell is one of the list.
abbrev pub IsIn : ℕ → List ℕ → Type 0
IsIn c cs = ¬ NotIn c cs

-- A cell was removed from a list: what is left is the list without it, and no other place was
-- written to.
abbrev pub IsRemoved : Links → Place → ℕ → List ℕ → Removal → Type 0
IsRemoved s place c cs (removed t) =
    IsChain t.link (read_at t place) (without c cs)
    × ((p : Place) → IsOutside p cs → p ≢ place → read_at t p ≡ read_at s p)
IsRemoved s place c cs missing = ⊥
IsRemoved s place c cs stuck = ⊥

-- Behind a cell that is not the one, a removal is one from the whole list.
IsRemoved-skip :
    (s : Links) (place : Place) (c d : ℕ) (ds : List ℕ) (r : Removal)
    → (d == c) ≡ false
    → d ≢ hcell_nil
    → read_at s place ≡ d
    → IsOutside place (d ∷ ds)
    → IsRemoved s (after d) c ds r
    → IsRemoved s place c (d ∷ ds) r
IsRemoved-skip s place c d ds missing other valid e n l = l
IsRemoved-skip s place c d ds stuck other valid e n l = l
IsRemoved-skip s place c d ds (removed t) other valid e n (chain, frame) = rw other (
  (frame place (IsOutside-rest place d ds n) (IsOutside-first place d ds n) ∙ e, valid, chain),
  λ p m q. frame p (IsOutside-rest p d ds m) (IsOutside-first p d ds m),
)

pub remove_loop-IsRemoved :
    (f : ℕ) (s : Links) (place : Place) (c : ℕ) (cs : List ℕ)
    → IsChain s.link (read_at s place) cs
    → IsDistinct cs
    → IsOutside place cs
    → IsIn c cs
    → length cs < f
    → IsRemoved s place c cs (remove_loop f s place c)
unfolding remove_loop
remove_loop-IsRemoved zero s place c cs h d n m fuel = absurd (omega arith)
remove_loop-IsRemoved (suc f) s place c [] h d n m fuel = absurd (m tt)
remove_loop-IsRemoved (suc f) s place c (x ∷ xs) (e, valid, h) (apart, d) n m fuel =
    elim (Bool-cases (x == c)) [
      | inl same ↦
          rw (e, not_same x hcell_nil valid, same)
            (
              rw (read_at-write_at s place (s.link x), same)
                  (IsChain-write_at s place (s.link x) (s.link x) xs (IsOutside-rest place x xs n)
                    h),
              λ p q r. read_at-write_other s place p (s.link x) r,
            )
      | inr other ↦
          let differs : c ≢ x = λ q. ground arith in
          rw (e, not_same x hcell_nil valid, other)
            (IsRemoved-skip s place c x xs _ other valid e n (
              remove_loop-IsRemoved f s (after x) c xs h d apart (λ k. m (differs, k))
                (omega arith)))
    ]
