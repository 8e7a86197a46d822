-- ===== src/Index/ByName.antt =====
-- core/cmindex.cpp, `CmpFindSubKeyByName`: the search for a subkey by its name, through both
-- storages, a root if there is one, and a leaf.
pub mod Entries
pub mod Below
pub mod Search
use ntreg.Base.{ℕ, zero, suc, ◌+◌, Bool, Option, none, some, leb, ◌==◌, if◌then◌else◌}
use ntreg.Names.Text.{UnicodeString}
use ntreg.Index.Data.{
  KeyNode, KeyIndex, Cells, hcell_nil, invalid_index, key_index_root, key_hash_leaf,
}
use ntreg.Index.Leaf.{Found, result, stuck, find_sub_key_in_leaf}
use ntreg.Index.Root.{find_sub_key_in_root}
use ntreg.Index.Hash.{find_sub_key_by_hash}

-- SubKeyCounts[i] and SubKeyLists[i]
abbrev pub sub_key_count : KeyNode → ℕ → ℕ
sub_key_count node i = if i == 0 then node.stable_count else node.volatile_count

abbrev pub sub_key_list : KeyNode → ℕ → ℕ
sub_key_list node i = if i == 0 then node.stable_list else node.volatile_list

-- What follows a search: an invalid index ends the loop over the storages, no cell goes on with
-- it (`next`), and another cell is returned. A search that does not end has no result.
unfoldable pub after_search : Found → (next : Option ℕ) → Option ℕ
after_search stuck next = none
after_search (result found sub_key) next =
    if leb invalid_index found
    then some hcell_nil
    else if sub_key == hcell_nil
    then next
    else some sub_key

unfoldable pub search_leaf : Cells → KeyIndex → UnicodeString → (next : Option ℕ) → Option ℕ
search_leaf h leaf search next =
    if leaf.signature == key_hash_leaf
    then (if find_sub_key_by_hash h leaf search == hcell_nil
        then next
        else some (find_sub_key_by_hash h leaf search))
    else after_search (find_sub_key_in_leaf h leaf search) next

-- The leaf found in a root is read with no test for NULL: without it, there is no result.
unfoldable pub search_root : Cells → KeyIndex → UnicodeString → (next : Option ℕ) → Option ℕ
search_root h root search next = elim (find_sub_key_in_root h root search) [
  | stuck ↦ none
  | result found sub_key ↦
      if leb invalid_index found
      then some hcell_nil
      else if sub_key == hcell_nil
      then next
      else elim (h.index sub_key) [ none ↦ none | some leaf ↦ search_leaf h leaf search next ]
]

unfoldable pub search_list : Cells → (list : ℕ) → UnicodeString → (next : Option ℕ) → Option ℕ
search_list h list search next = elim (h.index list) [
  | none ↦ some hcell_nil
  | some index ↦
      if index.signature == key_index_root
      then search_root h index search next
      else search_leaf h index search next
]

-- for (i = 0; i < StorageTypeCount; i++), over the storages left.
unfoldable pub by_name_loop : (left : ℕ) → Cells → KeyNode → UnicodeString → (i : ℕ) → Option ℕ
by_name_loop zero h node search i = some hcell_nil
by_name_loop (suc left) h node search i =
    let next = by_name_loop left h node search (i + 1) in
    if sub_key_count node i == 0 then next else search_list h (sub_key_list node i) search next

unfoldable pub find_sub_key_by_name : Cells → KeyNode → UnicodeString → Option ℕ
find_sub_key_by_name h node search = by_name_loop h.storage_type_count h node search 0
