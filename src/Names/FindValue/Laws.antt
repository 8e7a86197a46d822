-- ===== src/Names/FindValue/Laws.antt =====
-- What the search of core/cmname.cpp for a value by its name comes to.
use ntreg.Base.{
  ℕ, zero, suc, ◌+◌, ◌≤◌, ◌<◌, ◌≡◌, refl, inl, inr, true, false, Option, none, some, arith,
  Bool-cases, pos→not_zero,
}
use native.Mathlib.Decide.{dec_lt}
use ntreg.Names.Text.{UnicodeString}
use ntreg.Index.Data.{hcell_nil}
use ntreg.Names.FindValue.{
  ChildList, KeyValue, ValueCells, Answer, has_name, name_loop, find_name_in_list,
}

-- Entry `j` is a value, under another name.
abbrev pub Differs : ValueCells → (ℕ → ℕ) → UnicodeString → ℕ → Type 0
Differs h cells name j = (v : KeyValue) × (h.value (cells j) ≡ some v) × (has_name name v ≡ false)

-- The answer of a search through the entries from `i` to `n`: the first with the name, the end of
-- the list, or the failure at the first that cannot be read.
pub data IsAnswer (h : ValueCells) (cells : ℕ → ℕ) (name : UnicodeString) (i n : ℕ)
    : Answer → Type 0 where
  found :
      (k : ℕ) (v : KeyValue)
      → i ≤ k
      → k < n
      → ((j : ℕ) → i ≤ j → j < k → Differs h cells name j)
      → h.value (cells k) ≡ some v
      → has_name name v ≡ true
      → IsAnswer h cells name i n
          (record { success = true; child_index = some k; cell_index = cells k })
  absent :
      ((j : ℕ) → i ≤ j → j < n → Differs h cells name j)
      → IsAnswer h cells name i n
          (record { success = true; child_index = some n; cell_index = hcell_nil })
  unreadable :
      (k : ℕ)
      → i ≤ k
      → k < n
      → ((j : ℕ) → i ≤ j → j < k → Differs h cells name j)
      → h.value (cells k) ≡ none
      → IsAnswer h cells name i n
          (record { success = false; child_index = none; cell_index = hcell_nil })

module _ (h : ValueCells) (cells : ℕ → ℕ) (name : UnicodeString) (n : ℕ) where
  Differs-from :
      (i k : ℕ)
      → Differs h cells name i
      → ((j : ℕ) → i + 1 ≤ j → j < k → Differs h cells name j)
      → (j : ℕ) → i ≤ j
      → j < k
      → Differs h cells name j
  Differs-from i k d behind j p q = elim (dec_lt i j) [
    | yes after ↦ behind j (omega arith) q
    | no here ↦ let same : j ≡ i = omega arith in rw same d
  ]

  -- The answer for the entries behind one with another name is that with it.
  IsAnswer-skip :
      (i : ℕ) (a : Answer)
      → Differs h cells name i
      → IsAnswer h cells name (i + 1) n a
      → IsAnswer h cells name i n a
  IsAnswer-skip i _ d (found k v p q before e f) =
      found k v (omega arith) q (Differs-from i k d before) e f
  IsAnswer-skip i _ d (absent before) = absent (Differs-from i n d before)
  IsAnswer-skip i _ d (unreadable k p q before e) =
      unreadable k (omega arith) q (Differs-from i k d before) e

  name_loop-IsAnswer :
      (left i : ℕ) → i + left ≡ n → IsAnswer h cells name i n (name_loop left h cells name i)
  unfolding name_loop
  name_loop-IsAnswer zero i e =
      let end : i ≡ n = omega arith in rw end (absent (λ j p q. absurd (omega arith)))
  name_loop-IsAnswer (suc left) i e =
      step (h.value (cells i)) refl (name_loop-IsAnswer left (i + 1) (omega arith))
    where
      step :
          (o : Option KeyValue)
          → h.value (cells i) ≡ o
          → IsAnswer h cells name (i + 1) n (name_loop left h cells name (i + 1))
          → IsAnswer h cells name i n (name_loop (suc left) h cells name i)
      step none f b =
          rw (f, name_loop)
            (unreadable i (omega arith) (omega arith) (λ j p q. absurd (omega arith)) f)
      step (some v) f b = elim (Bool-cases (has_name name v)) [
        | inl same ↦
            rw (f, name_loop, same)
              (found i v (omega arith) (omega arith) (λ j p q. absurd (omega arith)) f same)
        | inr other ↦
            rw (f, name_loop, other)
              (IsAnswer-skip i (name_loop left h cells name (i + 1)) (v, f, other) b)
      ]

-- In a list that can be read, the search stores the first value with the name, or, without one,
-- the number of values and HCELL_NIL; it fails exactly at a value that it cannot read before that.
pub find_name_in_list-IsAnswer :
    (h : ValueCells) (values : ChildList) (name : UnicodeString) (cells : ℕ → ℕ)
    → h.key_list values.list ≡ some cells
    → IsAnswer h cells name 0 values.count (find_name_in_list h values name)
unfolding find_name_in_list
find_name_in_list-IsAnswer h values name cells e = elim (dec_lt 0 values.count) [
  | yes more ↦
      rw (pos→not_zero values.count more, e)
        (name_loop-IsAnswer h cells name values.count values.count 0 (omega arith))
  | no empty ↦
      let none_here : values.count ≡ 0 = omega arith in
      rw none_here (absent (λ j p q. absurd (omega arith)))
]
