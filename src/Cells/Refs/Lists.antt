-- ===== src/Cells/Refs/Lists.antt =====
-- The references in an array of core/hivecell.cpp as a list.
use ntreg.Base.{ℕ, zero, suc, ◌+◌, ◌≤◌, ◌<◌, ◌≡◌, refl, ap, true, List, [], ◌∷◌, ◌++◌, ◌==◌, arith}
use ntreg.Cells.Refs.{Pair, store, entries}

pub entries_same :
    (n : ℕ) (f g : ℕ → Pair) (i : ℕ)
    → ((j : ℕ) → i ≤ j → j < i + n → f j ≡ g j)
    → entries n f i ≡ entries n g i
unfolding entries
entries_same zero f g i h = refl
entries_same (suc n) f g i h =
    rw
      (
        h i (omega arith) (omega arith),
        entries_same n f g (i + 1) (λ j p q. h j (omega arith) (omega arith)),
      )
      refl

entries-suc :
    (n : ℕ) (f : ℕ → Pair) (i : ℕ) → entries (suc n) f i ≡ entries n f i ++ (f (i + n) ∷ [])
unfolding entries
entries-suc zero f i = let e : i + 0 ≡ i = omega arith in rw e refl
entries-suc (suc n) f i =
    let e : i + suc n ≡ i + 1 + n = omega arith in
    rw e (ap (λ l. f i ∷ l) (entries-suc n f (i + 1)))

-- Storing behind the entries of an array appends one.
pub entries-store :
    (n : ℕ) (f : ℕ → Pair) (p : Pair) → entries (suc n) (store f n p) 0 ≡ entries n f 0 ++ (p ∷ [])
entries-store n f p =
    let last : (0 + n == n) ≡ true = ground arith in
    let same : entries n (store f n p) 0 ≡ entries n f 0 =
      entries_same n (store f n p) f 0 (λ j q below. ground arith) in
    rw (entries-suc n (store f n p) 0, last, same) refl

pub append_assoc : (xs ys zs : List Pair) → (xs ++ ys) ++ zs ≡ xs ++ (ys ++ zs)
append_assoc [] ys zs = refl
append_assoc (x ∷ xs) ys zs = ap (λ l. x ∷ l) (append_assoc xs ys zs)

pub append_nil : (xs : List Pair) → xs ++ [] ≡ xs
append_nil [] = refl
append_nil (x ∷ xs) = ap (λ l. x ∷ l) (append_nil xs)
