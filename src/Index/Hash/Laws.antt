-- ===== src/Index/Hash/Laws.antt =====
-- The hash of a name does not depend on case, and the search by hash finds what a search through
-- the names finds.
use ntreg.Base.{
  ℕ, zero, suc, ◌+◌, ◌/◌, ◌≤◌, ◌<◌, ◌≡◌, refl, ◌≢◌, ◌⊎◌, inl, inr, true, ◌==◌, if◌then◌else◌, arith,
  Bool-cases,
}
use native.Mathlib.Decide.{dec_lt}
use ntreg.Names.Text.{UnicodeString, upcase}
use ntreg.Names.Compare.Laws.{SameLetters}
use ntreg.Index.Data.{KeyIndex, Cells, hcell_nil}
use ntreg.Index.Compare.{Order, below, equal, above, no_cell, do_compare_key_name}
use ntreg.Index.Hash.{hash_value, hash_loop, compute_hash_key, by_hash_loop, find_sub_key_by_hash}

-- The two ways to upper case agree.
hash_value-upcase : (c : ℕ) → hash_value c ≡ upcase c
unfolding hash_value upcase
hash_value-upcase c = ground arith

hash_loop-SameLetters :
    (left : ℕ) (s t : UnicodeString) (hash i : ℕ)
    → SameLetters s.buffer t.buffer i left
    → hash_loop left s hash i ≡ hash_loop left t hash i
unfolding hash_loop
hash_loop-SameLetters zero s t hash i h = refl
hash_loop-SameLetters (suc left) s t hash i h =
    rw
      (
        hash_value-upcase (s.buffer i),
        hash_value-upcase (t.buffer i),
        h i (omega arith) (omega arith),
      )
      (hash_loop-SameLetters left s t _ (i + 1) (λ j p q. h j (omega arith) (omega arith)))

-- Names of one length with the same letters in upper case have the same hash.
pub compute_hash_key-SameLetters :
    (s t : UnicodeString) (hash : ℕ)
    → s.length ≡ t.length
    → SameLetters s.buffer t.buffer 0 ((s.length + 1) / 2)
    → compute_hash_key hash s ≡ compute_hash_key hash t
unfolding compute_hash_key
compute_hash_key-SameLetters s t hash e h =
    ground (arith, hash_loop-SameLetters ((s.length + 1) / 2) s t hash 0 h)

-- A cell of an entry from `i` on whose name is equal, or none if there is no such entry.
abbrev pub ByHash : Cells → KeyIndex → UnicodeString → (i n cell : ℕ) → Type 0
ByHash h index search i n cell =
    ((k : ℕ) × (i ≤ k)
      × (k < n)
      × (cell ≡ index.cell k)
      × (do_compare_key_name h search (index.cell k) ≡ equal))
    ⊎ ((cell ≡ hcell_nil)
        × ((k : ℕ) → i ≤ k → k < n → do_compare_key_name h search (index.cell k) ≢ equal))

-- The answer for the entries behind `i` is one for those from `i` on, if the entry is another name.
ByHash-skip :
    (h : Cells) (index : KeyIndex) (search : UnicodeString) (i n cell : ℕ)
    → do_compare_key_name h search (index.cell i) ≢ equal
    → ByHash h index search (i + 1) n cell
    → ByHash h index search i n cell
ByHash-skip h index search i n cell other (inl (k, p, q, e, f)) = inl (k, omega arith, q, e, f)
ByHash-skip h index search i n cell other (inr (e, none_behind)) = inr (
  e,
  λ k p q. elim (dec_lt i k) [
    | yes behind ↦ none_behind k (omega arith) q
    | no here ↦ let same : k ≡ i = omega arith in rw same other
  ],
)

module _ (h : Cells) (index : KeyIndex) (search : UnicodeString) (hash : ℕ) (n : ℕ)
    (hashed : (k : ℕ)
      → k < n
      → do_compare_key_name h search (index.cell k) ≡ equal
      → index.hash_key k ≡ hash) where
  by_hash_loop-ByHash :
      (left i : ℕ)
      → i + left ≡ n
      → ByHash h index search i n (by_hash_loop left h index search hash i)
  unfolding by_hash_loop
  by_hash_loop-ByHash zero i e = inr (refl, λ k p q. absurd (omega arith))
  by_hash_loop-ByHash (suc left) i e =
      step (do_compare_key_name h search (index.cell i)) refl
        (by_hash_loop-ByHash left (i + 1) (omega arith))
    where
      rest : ℕ
      rest = by_hash_loop left h index search hash (i + 1)

      pass :
          ByHash h index search i n rest
          → ByHash h index search i n (if index.hash_key i == hash then rest else rest)
      pass b = elim (Bool-cases (index.hash_key i == hash)) [ inl e ↦ rw e b | inr e ↦ rw e b ]

      step :
          (r : Order)
          → do_compare_key_name h search (index.cell i) ≡ r
          → ByHash h index search (i + 1) n rest
          → ByHash h index search i n (
              if index.hash_key i == hash
              then (elim r [ equal ↦ index.cell i | _ ↦ rest ])
              else rest)
      step equal f b =
          let same : (index.hash_key i == hash) ≡ true = ground (arith, hashed i (omega arith) f) in
          rw same (inl (i, omega arith, omega arith, refl, f))
      step below f b = pass (ByHash-skip h index search i n rest (λ g. cc) b)
      step above f b = pass (ByHash-skip h index search i n rest (λ g. cc) b)
      step no_cell f b = pass (ByHash-skip h index search i n rest (λ g. cc) b)

-- Where the hash of each entry with an equal name is that of the name, the search by hash returns the cell of an entry whose name is equal, or HCELL_NIL if no entry's name is.
pub find_sub_key_by_hash-ByHash :
    (h : Cells) (index : KeyIndex) (search : UnicodeString)
    → ((k : ℕ)
        → k < index.count
        → do_compare_key_name h search (index.cell k) ≡ equal
        → index.hash_key k ≡ compute_hash_key 0 search)
    → ByHash h index search 0 index.count (find_sub_key_by_hash h index search)
unfolding find_sub_key_by_hash
find_sub_key_by_hash-ByHash h index search hashed =
    by_hash_loop-ByHash h index search (compute_hash_key 0 search) index.count hashed index.count 0
      (omega arith)
