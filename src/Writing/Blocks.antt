-- ===== src/Writing/Blocks.antt =====
-- The loops of core/hivewrt.cpp over the dirty vector go through its set bits in order, each once,
-- and end on their fuel.
use ntreg.Base.{
  ℕ, zero, suc, ◌+◌, ◌-◌, ◌≤◌, ◌<◌, ◌≡◌, refl, inl, inr, true, false, ◌||◌, ltb, ◌==◌,
  if◌then◌else◌, Option, none, some, List, [], ◌∷◌, arith, Bool-cases,
}
use mathlib.Core.Path.{subst}
use native.Mathlib.Decide.{dec_lt}
use ntreg.Bitmap.State.{test_bit}
use ntreg.Bitmap.Runs.Exact.{IsSmall}
use ntreg.Bitmap.Find.{Pass, found, exhausted, stuck, position, max_index, used_hint, find_set_bits}
use ntreg.Bitmap.Find.Areas.{Area}
use ntreg.Bitmap.Find.Complete.{Answer, find_set_bits-Answer}
use ntreg.Cells.State.{Hive}
use ntreg.Writing.Primary.{next_block}

-- The dirty vector has a bit for each block, and no other is set.
pub record IsTracked (h : Hive) : Type 0 where
  pub few : h.stable_storage.length + 1 < 0x8_0000
  pub small : IsSmall h.dirty_vector
  pub fits : h.stable_storage.length ≤ h.dirty_vector.size
  pub outside :
      (n : ℕ)
      → h.stable_storage.length ≤ n
      → n < h.dirty_vector.size
      → test_bit h.dirty_vector n ≡ false

-- The blocks among the `left` ones from `i` on that are dirty, in order.
unfoldable pub dirty_from : Hive → (left i : ℕ) → List ℕ
dirty_from h zero i = []
dirty_from h (suc left) i =
    let rest = dirty_from h left (i + 1) in if test_bit h.dirty_vector i then i ∷ rest else rest

unfoldable pub dirty_blocks : Hive → List ℕ
dirty_blocks h = dirty_from h h.stable_storage.length 0

pub dirty_blocks-dirty_from :
    (h : Hive) → dirty_from h (h.stable_storage.length - 0) 0 ≡ dirty_blocks h
unfolding dirty_blocks
dirty_blocks-dirty_from h =
    let all : h.stable_storage.length - 0 ≡ h.stable_storage.length = omega arith in rw all refl

-- The blocks from `i` on and below `j` are clean.
abbrev AreClean : Hive → (i j : ℕ) → Type 0
AreClean h i j = (n : ℕ) → i ≤ n → n < j → test_bit h.dirty_vector n ≡ false

dirty_from-clean : (h : Hive) (left i : ℕ) → AreClean h i (i + left) → dirty_from h left i ≡ []
unfolding dirty_from
dirty_from-clean h zero i c = refl
dirty_from-clean h (suc left) i c =
    rw (c i (omega arith) (omega arith))
      (dirty_from-clean h left (i + 1) (λ n p q. c n (omega arith) (omega arith)))

dirty_from-here :
    (h : Hive) (left at : ℕ)
    → test_bit h.dirty_vector at ≡ true
    → dirty_from h (suc left) at ≡ at ∷ dirty_from h left (at + 1)
unfolding dirty_from
dirty_from-here h left at d = rw d refl

dirty_from-next :
    (h : Hive) (gap left i at n : ℕ)
    → n ≡ gap + suc left
    → i + gap ≡ at
    → AreClean h i at
    → test_bit h.dirty_vector at ≡ true
    → dirty_from h n i ≡ at ∷ dirty_from h left (at + 1)
unfolding dirty_from
dirty_from-next h zero left i at n m e c d =
    let here : i ≡ at = omega arith in
    let many : n ≡ suc left = omega arith in rw (here, many) (dirty_from-here h left at d)
dirty_from-next h (suc gap) left i at n m e c d =
    let many : n ≡ suc (gap + suc left) = omega arith in
    rw (many, c i (omega arith) (omega arith))
      (dirty_from-next h gap left (i + 1) at (gap + suc left) refl (omega arith)
        (λ n p q. c n (omega arith) q) d)

pub no_Area :
    (h : Hive)
    → (n : ℕ) → n + 1 ≤ h.dirty_vector.size
    → ¬ Area h.dirty_vector true n 1
    → test_bit h.dirty_vector n ≡ false
no_Area h n fits none_here = elim (Bool-cases (test_bit h.dirty_vector n)) [
  | inl set ↦ absurd (
      none_here
        (record { within = fits; same = λ m p q. let same : m ≡ n = omega arith in rw same set }))
  | inr clear ↦ clear
]

module _ (h : Hive) (i : ℕ) (tracked : IsTracked h) (inside : i < h.stable_storage.length) where
  abbrev count : ℕ
  count = h.stable_storage.length

  search_Answer :
      Answer h.dirty_vector true 1 i
        (λ p. p + 1 ≤ h.dirty_vector.size)
        (find_set_bits h.dirty_vector 1 i)
  search_Answer =
      let hint : used_hint h.dirty_vector.size i ≡ i = ground (arith, tracked.fits) in
      subst
        (λ u.
          Answer h.dirty_vector true 1 u (λ p. p + 1 ≤ h.dirty_vector.size)
            (find_set_bits h.dirty_vector 1 i))
        hint
        (find_set_bits-Answer h.dirty_vector 1 i tracked.small (omega arith)
          (omega (arith, tracked.fits)))

  -- What the search from a block on says: the next dirty block, or that there is none.
  abbrev pub Next : Option ℕ → Type 0
  Next (some at) =
      (i ≤ at)
      × (at < count)
      × (dirty_from h (count - i) i ≡ at ∷ dirty_from h (count - (at + 1)) (at + 1))
  Next none = dirty_from h (count - i) i ≡ []

  -- A search from a block on stops at the next dirty one, or there is none.
  pub next_block-Next : Next (next_block h i)
  unfolding next_block
  next_block-Next = go (find_set_bits h.dirty_vector 1 i) search_Answer
    where
      clean_to :
          (j : ℕ)
          → j ≤ h.dirty_vector.size
          → ((p : ℕ) → p + 1 ≤ h.dirty_vector.size → i ≤ p → p < j → ¬ Area h.dirty_vector true p 1)
          → AreClean h i j
      clean_to j le f n p q = no_Area h n (omega arith) (f n (omega arith) p q)

      nothing :
          ((p : ℕ) → p + 1 ≤ h.dirty_vector.size → i ≤ p → ¬ Area h.dirty_vector true p 1)
          → dirty_from h (count - i) i ≡ []
      nothing f =
          dirty_from-clean h (count - i) i
            (λ n p q. clean_to count tracked.fits (λ m w le _. f m w le) n p (omega arith))

      go :
          (r : Pass)
          → Answer h.dirty_vector true 1 i (λ p. p + 1 ≤ h.dirty_vector.size) r
          → Next (if position r == max_index || ltb (position r) i then none else some (position r))
      go (found at) (a, first, turned) = elim (dec_lt at i) [
        | yes below ↦
            let stops : (at == max_index || ltb at i) ≡ true = ground arith in
            rw stops (nothing (turned below))
        | no from ↦
            let set : test_bit h.dirty_vector at ≡ true = a.same at (omega arith) (omega arith) in
            let below : at < count = elim (dec_lt at count) [
              | yes lt ↦ lt
              | no ge ↦ ground (arith, tracked.outside at (omega arith) (omega (arith, a.within)))
            ] in
            let goes : (at == max_index || ltb at i) ≡ false =
              ground (arith, tracked.few, tracked.small) in
            rw goes (
              omega arith,
              below,
              dirty_from-next h (at - i) (count - (at + 1)) i at (count - i) (omega arith)
                  (omega arith) (clean_to at (omega (arith, a.within)) first) set,
            )
      ]
      go exhausted f = nothing (λ p w _. f p w)
      go stuck o = absurd o

-- The search from the first block on returns MAXINDEX only if nothing is dirty.
pub none_dirty :
    (h : Hive)
    → IsTracked h
    → (position (find_set_bits h.dirty_vector 1 0) == max_index) ≡ true
    → (n : ℕ) → n < h.dirty_vector.size
    → test_bit h.dirty_vector n ≡ false
none_dirty h tracked e n below =
    go (find_set_bits h.dirty_vector 1 0)
      (find_set_bits-Answer h.dirty_vector 1 0 tracked.small (omega arith) (omega arith)) e
  where
    go :
        (r : Pass)
        → Answer h.dirty_vector true 1
            (used_hint h.dirty_vector.size 0)
            (λ p. p + 1 ≤ h.dirty_vector.size)
            r
        → (position r == max_index) ≡ true
        → test_bit h.dirty_vector n ≡ false
    go (found at) (a, _, _) e = absurd (ground (arith, a.within, tracked.small))
    go exhausted f e = no_Area h n (omega arith) (f n (omega arith))
    go stuck o e = absurd o
