-- ===== src/Index/Leaf.antt =====
-- core/cmindex.cpp, `CmpFindSubKeyInLeaf`: binary search. The comparison of entry `i` is an
-- argument of the loop. `stuck` is a loop that did not end on its fuel; it is given as many rounds
-- as the leaf has entries.
pub mod Search
use ntreg.Base.{ℕ, zero, suc, ◌+◌, ◌-◌, ◌/◌, Bool, leb, ◌==◌, if◌then◌else◌}
use ntreg.Names.Text.{UnicodeString}
use ntreg.Index.Data.{KeyIndex, Cells, hcell_nil, invalid_index}
use ntreg.Index.Compare.{Order, below, equal, above, no_cell, compare_in_index}

-- The index returned, and *SubKey.
pub data Found : Type 0 where
  result : (index sub_key : ℕ) → Found
  stuck : Found

-- The high entry is returned whatever its comparison gives, if it can be read.
unfoldable pub finish_high : (ℕ → Order × ℕ) → (high : ℕ) → Found
finish_high compare high = elim (compare high).0 [
  | no_cell ↦ result invalid_index hcell_nil
  | _ ↦ result high (compare high).1
]

-- What is done once at most two entries are left.
unfoldable pub finish : (ℕ → Order × ℕ) → (low high : ℕ) → Found
finish compare low high = elim (compare low).0 [
  | no_cell ↦ result invalid_index hcell_nil
  | equal ↦ result low (compare low).1
  | below ↦ result low (compare low).1
  | above ↦ finish_high compare high
]

unfoldable pub leaf_loop : ℕ → (ℕ → Order × ℕ) → (low high i : ℕ) → Found
leaf_loop zero compare low high i = stuck
leaf_loop (suc f) compare low high i =
    let lower = leaf_loop f compare low i ((i - low) / 2 + low) in
    let upper = leaf_loop f compare i high ((high - i) / 2 + i) in
    elim (compare i).0 [
      | no_cell ↦ result invalid_index hcell_nil
      | equal ↦ result i (compare i).1
      | below ↦ if leb (i - low) 1 then finish compare low i else lower
      | above ↦ if leb (high - i) 1 then finish compare i high else upper
    ]

unfoldable pub find_sub_key_in_leaf : Cells → KeyIndex → UnicodeString → Found
find_sub_key_in_leaf h index search =
    if index.count == 0
    then result 0 hcell_nil
    else leaf_loop index.count (compare_in_index h search index) 0 (index.count - 1)
        ((index.count - 1) / 2)
