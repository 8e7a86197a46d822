-- ===== src/Index/Compare.antt =====
-- core/cmindex.cpp: `CmpDoCompareKeyName` and `CmpCompareInIndex`.
pub mod Hint
use ntreg.Base.{
  ℕ, zero, suc, ◌+◌, min, Bool, true, false, Option, none, some, ltb, ◌==◌, ◌||◌, if◌then◌else◌,
}
use ntreg.Base.Int.{ℤ, pos, negsuc, sub_ℕ}
use ntreg.Names.Text.{UnicodeString, count, Bytes, char_of, upcase}
use ntreg.Names.Compare.{compare_compressed_name, compare_unicode_string}
use ntreg.Index.Data.{KeyNode, KeyIndex, Cells, hcell_nil, key_fast_leaf, key_hash_leaf}

-- The normalised result of a comparison: -1, 0, 1, or 2 for a cell that cannot be read.
pub data Order : Type 0 where
  below equal above no_cell : Order

abbrev pub normalize : ℤ → Order
normalize (pos zero) = equal
normalize (pos (suc n)) = above
normalize (negsuc n) = below

-- A name that is stored as it is, seen as a string.
abbrev pub stored_string : KeyNode → UnicodeString
stored_string n = record { length = n.name_length; buffer = char_of n.name }

abbrev pub compare_node : UnicodeString → KeyNode → Order
compare_node search n = normalize (
    if n.comp_name
    then compare_compressed_name search n.name n.name_length
    else compare_unicode_string search (stored_string n) true)

unfoldable pub do_compare_key_name : Cells → UnicodeString → (cell : ℕ) → Order
do_compare_key_name h search cell = elim (h.node cell) [
  | none ↦ no_cell
  | some n ↦ compare_node search n
]

-- How much of a name the hint holds: up to its first zero, four characters at most.
abbrev pub hint_length : (ℕ → ℕ) → ℕ
hint_length hint =
    if hint 0 == 0
    then 0
    else if hint 1 == 0
    then 1
    else if hint 2 == 0
    then 2
    else if hint 3 == 0
    then 3
    else 4

-- The loop over the characters of the hint that are left: equal means that all were the same.
unfoldable pub hint_loop : (left : ℕ) → UnicodeString → (ℕ → ℕ) → (i : ℕ) → Order
hint_loop zero search hint i = equal
hint_loop (suc left) search hint i =
    let rest = hint_loop left search hint (i + 1) in
    let result = normalize (sub_ℕ (upcase (search.buffer i)) (upcase (hint i))) in
    elim result [ equal ↦ rest | other ↦ other ]

-- The comparison of a full name, with the cell if it is the one: *SubKey.
unfoldable pub full_compare : Cells → UnicodeString → (cell : ℕ) → Order × ℕ
full_compare h search cell =
    let result = do_compare_key_name h search cell in
    (result, elim result [ equal ↦ cell | _ ↦ hcell_nil ])

unfoldable pub compare_in_index : Cells → UnicodeString → KeyIndex → (i : ℕ) → Order × ℕ
compare_in_index h search index i =
    let hint = index.name_hint i in
    let full = full_compare h search (index.cell i) in
    if index.signature == key_fast_leaf
    then (elim (hint_loop (min (count search) (hint_length hint)) search hint 0) [
      | equal ↦ full
      | result ↦ (result, hcell_nil)
    ])
    else full
