-- ===== src/Index/Number.antt =====
-- core/cmindex.cpp: `CmpDoFindSubKeyByNumber` and `CmpFindSubKeyByNumber`.
pub mod Laws
use ntreg.Base.{ℕ, zero, suc, ◌+◌, ◌-◌, none, some, ltb, ◌==◌, if◌then◌else◌}
use ntreg.Index.Data.{KeyNode, KeyIndex, Cells, hcell_nil, key_index_root}

-- for (i = 0; i < Count; i++), over the leaves of a root that are left. Behind the last one the
-- code goes on as if the root were a leaf.
unfoldable pub number_loop : (left : ℕ) → Cells → KeyIndex → (number i : ℕ) → ℕ
number_loop zero h index number i = index.cell number
number_loop (suc left) h index number i = elim (h.index (index.cell i)) [
  | none ↦ hcell_nil
  | some leaf ↦
      let rest = number_loop left h index (number - leaf.count) (i + 1) in
      if ltb number leaf.count then leaf.cell number else rest
]

unfoldable pub do_find_sub_key_by_number : Cells → KeyIndex → (number : ℕ) → ℕ
do_find_sub_key_by_number h index number =
    if index.signature == key_index_root
    then number_loop index.count h index number 0
    else index.cell number

unfoldable pub find_in_list : Cells → (list number : ℕ) → ℕ
find_in_list h list number = elim (h.index list) [
  | none ↦ hcell_nil
  | some index ↦ do_find_sub_key_by_number h index number
]

unfoldable pub find_sub_key_by_number : Cells → KeyNode → (number : ℕ) → ℕ
find_sub_key_by_number h node number =
    if ltb number node.stable_count
    then find_in_list h node.stable_list number
    else if ltb 1 h.storage_type_count
    then (if ltb (number - node.stable_count) node.volatile_count
        then find_in_list h node.volatile_list (number - node.stable_count)
        else hcell_nil)
    else hcell_nil
