-- ===== src/Index/Root.antt =====
-- core/cmindex.cpp, `CmpFindSubKeyInRoot`: the binary search for the leaf of a root that a name
-- belongs in. `stuck` is a loop that did not end on its fuel; it is given as many rounds as the root
-- has entries. The source asserts that neither the root nor a leaf is empty.
pub mod Search
use ntreg.Base.{ℕ, zero, suc, ◌+◌, ◌-◌, ◌/◌, none, some, leb, if◌then◌else◌, sub32}
use ntreg.Names.Text.{UnicodeString}
use ntreg.Index.Data.{KeyIndex, Cells, hcell_nil, invalid_index}
use ntreg.Index.Compare.{Order, below, equal, above, no_cell, compare_in_index}
use ntreg.Index.Leaf.{Found, result, stuck}

-- The name against the last name of a leaf.
unfoldable pub compare_last : Cells → KeyIndex → UnicodeString → (i : ℕ) → Order
compare_last h root search i = elim (h.index (root.cell i)) [
  | none ↦ no_cell
  | some leaf ↦ (compare_in_index h search leaf (sub32 leaf.count 1)).0
]

-- The name against the range of a leaf: `equal` is within it. Only a name below the last is compared
-- with the first.
unfoldable pub compare_range : Cells → KeyIndex → UnicodeString → (i : ℕ) → Order
compare_range h root search i = elim (h.index (root.cell i)) [
  | none ↦ no_cell
  | some leaf ↦ elim (compare_in_index h search leaf (sub32 leaf.count 1)).0 [
    | no_cell ↦ no_cell
    | equal ↦ equal
    | above ↦ above
    | below ↦ elim (compare_in_index h search leaf 0).0 [
      | no_cell ↦ no_cell
      | equal ↦ equal
      | above ↦ equal
      | below ↦ below
    ]
  ]
]

-- What is done with the high entry, once the name is above the range of the low one.
unfoldable pub root_high : (last : ℕ → Order) → (cell : ℕ → ℕ) → (high : ℕ) → Found
root_high last cell high = elim (last high) [
  | no_cell ↦ result invalid_index hcell_nil
  | equal ↦ result high (cell high)
  | below ↦ result high (cell high)
  | above ↦ result high hcell_nil
]

unfoldable pub root_finish : (range last : ℕ → Order) → (cell : ℕ → ℕ) → (low high : ℕ) → Found
root_finish range last cell low high = elim (range low) [
  | no_cell ↦ result invalid_index hcell_nil
  | equal ↦ result low (cell low)
  | below ↦ result low hcell_nil
  | above ↦ root_high last cell high
]

unfoldable pub root_loop : ℕ → (range last : ℕ → Order) → (cell : ℕ → ℕ) → (low high : ℕ) → Found
root_loop zero range last cell low high = stuck
root_loop (suc f) range last cell low high =
    let i = (high - low) / 2 + low in
    let lower = root_loop f range last cell low i in
    let upper = root_loop f range last cell i high in
    elim (range i) [
      | no_cell ↦ result invalid_index hcell_nil
      | equal ↦ result i (cell i)
      | below ↦ if leb (i - low) 1 then root_finish range last cell low i else lower
      | above ↦ if leb (high - i) 1 then root_finish range last cell i high else upper
    ]

unfoldable pub find_sub_key_in_root : Cells → KeyIndex → UnicodeString → Found
find_sub_key_in_root h root search =
    root_loop root.count (compare_range h root search) (compare_last h root search) root.cell 0
      (sub32 root.count 1)
