-- ===== src/Index/Remove.antt =====
-- core/cmindex.cpp, `CmpRemoveSubKey`.
pub mod Entries
pub mod Laws
pub mod Whole
use ntreg.Base.{
  ℕ, zero, suc, ◌+◌, ◌-◌, ◌*◌, ◌%◌, ◌^◌, Bool, true, false, not, ltb, leb, ◌==◌, ◌&&◌,
  if◌then◌else◌, Option, none, some, sub32,
}
use ntreg.Cells.State.{StorageType, stable, volatile, cell_type}
use ntreg.Names.Text.{UnicodeString}
use ntreg.Names.Compress.{copy_compressed_name, compressed_name_size}
use ntreg.Index.Data.{
  KeyNode, KeyIndex, Cells, hcell_nil, key_index_root, key_index_leaf, invalid_index,
}
use ntreg.Index.Compare.{stored_string}
use ntreg.Index.Leaf.{Found, result, stuck, find_sub_key_in_leaf}
use ntreg.Index.Root.{find_sub_key_in_root}
use ntreg.Index.Insert.{move}
use ntreg.Index.Store.{Store, put_index, Allocator}

-- The name of a key, in a buffer that holds zeros before.
unfoldable pub search_name : KeyNode → UnicodeString
search_name n =
    let size = compressed_name_size n.name_length in
    if n.comp_name
    then record { length = size; buffer = copy_compressed_name (λ i. 0) size n.name n.name_length }
    else stored_string n

-- A compressed name of more than 100 bytes needs memory.
abbrev pub needs_memory : KeyNode → Bool
needs_memory n = n.comp_name && ltb 100 (compressed_name_size n.name_length)

abbrev pub change_node : Store → ℕ → (KeyNode → KeyNode) → Store
change_node s c change = record s {
  cells = record s.cells {
    node = λ d.
        if d == c
        then (elim (s.cells.node d) [ none ↦ none | some n ↦ some (change n) ])
        else s.cells.node d;
  };
}

-- SubKeyCounts[Storage]--, and SubKeyLists[Storage] = HCELL_NIL
unfoldable pub drop_count : StorageType → KeyNode → KeyNode
drop_count stable n = record n { stable_count = sub32 n.stable_count 1 }
drop_count volatile n = record n { volatile_count = sub32 n.volatile_count 1 }

unfoldable pub clear_list : StorageType → KeyNode → KeyNode
clear_list stable n = record n { stable_list = hcell_nil }
clear_list volatile n = record n { volatile_list = hcell_nil }

abbrev pub list_of : StorageType → KeyNode → ℕ
list_of stable n = n.stable_list
list_of volatile n = n.volatile_list

-- --Count, a USHORT
abbrev pub one_less : ℕ → ℕ
one_less count = (count + 0xFFFF) % 2 ^ 16

-- The entries behind the one that goes are brought up by one.
unfoldable pub remove_entry : KeyIndex → ℕ → KeyIndex
remove_entry leaf i =
    let left = one_less leaf.count in
    let cut : KeyIndex = record leaf { count = left } in
    if not (ltb i left)
    then cut
    else if leaf.signature == key_index_leaf
    then record cut { cell = move leaf.cell i (i + 1) (left - i) }
    else record cut {
      cell = move leaf.cell i (i + 1) (left - i);
      name_hint = move leaf.name_hint i (i + 1) (left - i);
      hash_key = move leaf.hash_key i (i + 1) (left - i);
    }

unfoldable pub remove_leaf : KeyIndex → ℕ → KeyIndex
remove_leaf root i =
    let left = one_less root.count in
    let cut : KeyIndex = record root { count = left } in
    if ltb i left then record cut { cell = move root.cell i (i + 1) (left - i) } else cut

-- The root that a leaf is in: its cell, itself, and the index of the leaf.
pub record InRoot : Type 0 where
  pub root_cell : ℕ
  pub root : KeyIndex
  pub root_index : ℕ

-- What is done once the entry of the key is known.
unfoldable pub take_out :
    Allocator
    → Store
    → (parent : ℕ) → StorageType
    → (leaf_cell : ℕ) → KeyIndex
    → (i : ℕ) → Option InRoot
    → Store
take_out a s parent kind leaf_cell leaf i inside =
    let counted = change_node s parent (drop_count kind) in
    let freed = a.free counted leaf_cell in
    if one_less leaf.count == 0
    then (elim inside [
      | none ↦ change_node freed parent (clear_list kind)
      | some r ↦
          if one_less r.root.count == 0
          then change_node (a.free freed r.root_cell) parent (clear_list kind)
          else put_index freed r.root_cell (some (remove_leaf r.root r.root_index))
    ])
    else put_index counted leaf_cell (some (remove_entry leaf i))

-- The BOOLEAN that is returned, with the store.
pub data Removal : Type 0 where
  removed : Store → Removal
  refused : Removal
  out_of_fuel : Removal

unfoldable pub remove_from_leaf :
    Allocator
    → Store
    → (parent : ℕ) → StorageType
    → UnicodeString
    → (leaf_cell : ℕ) → KeyIndex
    → Option InRoot
    → Removal
remove_from_leaf a s parent kind name leaf_cell leaf inside =
    elim (find_sub_key_in_leaf s.cells leaf name) [
      | stuck ↦ out_of_fuel
      | result i child ↦
          if leb invalid_index i
          then refused
          else removed (take_out a s parent kind leaf_cell leaf i inside)
    ]

unfoldable pub remove_from_list :
    Allocator → Store → (parent : ℕ) → StorageType → UnicodeString → (list : ℕ) → Removal
remove_from_list a s parent kind name list = elim (s.cells.index list) [
  | none ↦ refused
  | some leaf ↦
      if leaf.signature == key_index_root
      then (elim (find_sub_key_in_root s.cells leaf name) [
        | stuck ↦ out_of_fuel
        | result i child ↦ if leb invalid_index i then refused else elim (s.cells.index child) [
          | none ↦ refused
          | some inner ↦
              remove_from_leaf a s parent kind name child inner
                (some (record { root_cell = list; root = leaf; root_index = i }))
        ]
      ])
      else remove_from_leaf a s parent kind name list leaf none
]

unfoldable pub remove_sub_key :
    Allocator → (allocates : ℕ → Bool) → Store → (parent target : ℕ) → Removal
remove_sub_key a allocates s parent target = elim (s.cells.node target) [
  | none ↦ refused
  | some key ↦
      if needs_memory key && not (allocates (compressed_name_size key.name_length))
      then refused
      else elim (s.cells.node parent) [
        | none ↦ refused
        | some node ↦
            remove_from_list a s parent (cell_type target) (search_name key)
              (list_of (cell_type target) node)
      ]
]
