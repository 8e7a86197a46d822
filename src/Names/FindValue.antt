-- ===== src/Names/FindValue.antt =====
-- core/cmname.cpp, `CmpFindNameInList`: the search for a value by its name in the list of values of
-- a key. Cells are read through `HvGetCell`, which may return NULL; releasing them does nothing.
pub mod Laws
use ntreg.Base.{ℕ, zero, suc, ◌+◌, Bool, true, false, Option, none, some, ◌==◌, if◌then◌else◌}
use ntreg.Names.Text.{UnicodeString, Bytes, char_of}
use ntreg.Names.Compare.{is_zero, compare_compressed_name, compare_unicode_string}
use ntreg.Index.Data.{hcell_nil}

-- A `CHILD_LIST` of include/cmdata.hpp.
pub record ChildList : Type 0 where
  pub count : ℕ
  pub list : ℕ

-- The fields of a `CM_KEY_VALUE` that the search reads. `comp_name` is the flag VALUE_COMP_NAME.
pub record KeyValue : Type 0 where
  pub comp_name : Bool
  pub name_length : ℕ
  pub name : Bytes

-- The cells: `key_list` reads one as a `KeyList`, `value` as a value.
pub record ValueCells : Type 0 where
  pub key_list : ℕ → Option (ℕ → ℕ)
  pub value : ℕ → Option KeyValue

-- What is returned, what is stored in *ChildIndex if anything is, and *CellIndex.
pub record Answer : Type 0 where
  pub success : Bool
  pub child_index : Option ℕ
  pub cell_index : ℕ

-- Whether the comparison of names gives zero.
unfoldable pub has_name : UnicodeString → KeyValue → Bool
has_name name v = is_zero (
    if v.comp_name
    then compare_compressed_name name v.name v.name_length
    else compare_unicode_string name (record { length = v.name_length; buffer = char_of v.name })
        true)

-- for (i = 0; i < ChildList->Count; i++), over the entries left.
unfoldable pub name_loop : (left : ℕ) → ValueCells → (ℕ → ℕ) → UnicodeString → (i : ℕ) → Answer
name_loop zero h cells name i = record {
  success = true;
  child_index = some i;
  cell_index = hcell_nil;
}
name_loop (suc left) h cells name i =
    let rest = name_loop left h cells name (i + 1) in
    elim (h.value (cells i)) [
      | none ↦ record { success = false; child_index = none; cell_index = hcell_nil }
      | some v ↦
          if has_name name v
          then record { success = true; child_index = some i; cell_index = cells i }
          else rest
    ]

unfoldable pub find_name_in_list : ValueCells → ChildList → UnicodeString → Answer
find_name_in_list h values name =
    if values.count == 0
    then record { success = true; child_index = some 0; cell_index = hcell_nil }
    else elim (h.key_list values.list) [
      | none ↦ record { success = false; child_index = none; cell_index = hcell_nil }
      | some cells ↦ name_loop values.count h cells name 0
    ]
