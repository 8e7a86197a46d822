-- ===== src/Header/Checksum/Laws.antt =====
-- What the checksum of core/hivesum.cpp never is, and which changes of a header it shows.
use ntreg.Base.{
  ℕ, zero, suc, ◌+◌, ◌≤◌, ◌<◌, ◌≡◌, refl, ◌≢◌, ◌⊎◌, Bool, true, false, not, ◌==◌, arith, Bool-cases,
  inl, inr, sym, ap, fun_ext,
}
use native.Mathlib.Decide.{dec_lt}
use ntreg.Base.Word.{Word, inv, is_zero, is_zero-clear}
use ntreg.Header.Checksum.{
  differ, zero_word, one_word, minus_two, sum_loop, adjust, hive_header_checksum,
}

constants : (is_zero minus_two ≡ false) × (is_zero one_word ≡ false)
unfolding is_zero
constants = (refl, refl)

inverses : (is_zero (inv minus_two) ≡ false) × (is_zero (inv one_word) ≡ false)
unfolding is_zero
inverses = (refl, refl)

-- What the adjustment is, by the sum.
adjust-cases :
    (w : Word)
    → ((is_zero (inv w) ≡ true) × (adjust w ≡ minus_two))
      ⊎ (((is_zero w ≡ true) × (adjust w ≡ one_word))
          ⊎ ((is_zero (inv w) ≡ false) × (is_zero w ≡ false) × (adjust w ≡ w)))
unfolding adjust
adjust-cases w = elim (Bool-cases (is_zero (inv w))) [
  | inl e ↦ inl (e, rw (e, constants.0) refl)
  | inr e ↦ elim (Bool-cases (is_zero w)) [
    | inl f ↦ inr (inl (f, rw (e, f) refl))
    | inr f ↦ inr (inr (e, f, rw (e, f) refl))
  ]
]

-- The checksum is neither 0 nor all ones.
pub hive_header_checksum-proper :
    (buffer : ℕ → Word)
    → (is_zero (hive_header_checksum buffer) ≡ false)
      × (is_zero (inv (hive_header_checksum buffer)) ≡ false)
unfolding hive_header_checksum
hive_header_checksum-proper buffer = proper (sum_loop 127 buffer zero_word 0)
  where
    proper : (w : Word) → (is_zero (adjust w) ≡ false) × (is_zero (inv (adjust w)) ≡ false)
    proper w = elim (adjust-cases w) [
      | inl (e, f) ↦ rw f (constants.0, inverses.0)
      | inr (inl (e, f)) ↦ rw f (constants.1, inverses.1)
      | inr (inr (e, g, f)) ↦ rw f (g, e)
    ]

-- Above its lowest bit, a sum is the checksum.
adjust-high : (w : Word) (k : ℕ) → 0 < k → k < 32 → adjust w k ≡ w k
adjust-high w k lo hi =
    let high : (k == 0) ≡ false = ground arith in
    elim (adjust-cases w) [
      | inl (e, f) ↦ rw (f, high) (ground (arith, is_zero-clear (inv w) k e hi))
      | inr (inl (e, f)) ↦ rw (f, high) (sym (is_zero-clear w k e hi))
      | inr (inr (e, g, f)) ↦ rw f refl
    ]

differ_left : (a b : Bool) → differ (not a) b ≡ not (differ a b)
differ_left true true = refl
differ_left true false = refl
differ_left false b = refl

differ_right : (a b : Bool) → differ a (not b) ≡ not (differ a b)
differ_right true b = refl
differ_right false b = refl

-- A bit of the sum depends on that bit of the words only.
sum_loop-same :
    (left : ℕ) (b b' : ℕ → Word) (s s' : Word) (i k : ℕ)
    → ((j : ℕ) → i ≤ j → j < i + left → b' j k ≡ b j k)
    → s' k ≡ s k
    → sum_loop left b' s' i k ≡ sum_loop left b s i k
unfolding sum_loop
sum_loop-same zero b b' s s' i k h e = e
sum_loop-same (suc left) b b' s s' i k h e =
    sum_loop-same left b b' _ _ (i + 1) k (λ j p q. h j (omega arith) (omega arith))
      (rw (e, h i (omega arith) (omega arith)) refl)

-- It changes with it.
sum_loop-flipped :
    (left : ℕ) (b b' : ℕ → Word) (s s' : Word) (i k : ℕ)
    → ((j : ℕ) → i ≤ j → j < i + left → b' j k ≡ b j k)
    → s' k ≡ not (s k)
    → sum_loop left b' s' i k ≡ not (sum_loop left b s i k)
unfolding sum_loop
sum_loop-flipped zero b b' s s' i k h e = e
sum_loop-flipped (suc left) b b' s s' i k h e =
    sum_loop-flipped left b b' _ _ (i + 1) k (λ j p q. h j (omega arith) (omega arith))
      (rw (e, h i (omega arith) (omega arith)) (differ_left (s k) (b i k)))

-- One of the words changes it.
sum_loop-changed :
    (left : ℕ) (b b' : ℕ → Word) (s s' : Word) (i j k : ℕ)
    → i ≤ j
    → j < i + left
    → ((l : ℕ) → i ≤ l → l < i + left → l ≢ j → b' l k ≡ b l k)
    → b' j k ≡ not (b j k)
    → s' k ≡ s k
    → sum_loop left b' s' i k ≡ not (sum_loop left b s i k)
unfolding sum_loop
sum_loop-changed zero b b' s s' i j k p q h f e = absurd (omega arith)
sum_loop-changed (suc left) b b' s s' i j k p q h f e = elim (dec_lt i j) [
  | yes before ↦
      sum_loop-changed left b b' _ _ (i + 1) j k (omega arith) (omega arith)
        (λ l u v. h l (omega arith) (omega arith)) f
        (rw (e, h i (omega arith) (omega arith) (λ x. omega arith)) refl)
  | no here ↦
      let same : i ≡ j = omega arith in
      sum_loop-flipped left b b' _ _ (i + 1) k
        (λ l u v. h l (omega arith) (omega arith) (λ x. omega arith))
        (rw (e, same, f) (differ_right (s k) (b j k)))
]

-- A bit that differs in one of the 127 words, and in no other, differs in the checksum, unless it is
-- bit 0.
pub hive_header_checksum-changed :
    (b b' : ℕ → Word) (j k : ℕ)
    → j < 127
    → 0 < k
    → k < 32
    → ((i : ℕ) → i < 127 → i ≢ j → b' i k ≡ b i k)
    → b' j k ≡ not (b j k)
    → hive_header_checksum b' k ≡ not (hive_header_checksum b k)
unfolding hive_header_checksum
hive_header_checksum-changed b b' j k inside lo hi same changed =
    rw
      (
        adjust-high (sum_loop 127 b zero_word 0) k lo hi,
        adjust-high (sum_loop 127 b' zero_word 0) k lo hi,
      )
      (sum_loop-changed 127 b b' zero_word zero_word 0 j k (omega arith) (omega arith)
        (λ l u v. same l (omega arith)) changed refl)

-- The checksum is one of the first 127 words.
pub hive_header_checksum-same :
    (b b' : ℕ → Word)
    → ((j k : ℕ) → j < 127 → b' j k ≡ b j k)
    → hive_header_checksum b' ≡ hive_header_checksum b
unfolding hive_header_checksum
hive_header_checksum-same b b' same = ap adjust (
    fun_ext
      (λ k. sum_loop-same 127 b b' zero_word zero_word 0 k (λ j p q. same j k (omega arith)) refl))
