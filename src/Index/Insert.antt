-- ===== src/Index/Insert.antt =====
-- core/cmindex.cpp, `CmpAddToLeaf`. A name has at least one character: for an empty one the source
-- reads in front of the buffer.
pub mod Entries
pub mod Place
pub mod Laws
use ntreg.Base.{
  ℕ, zero, suc, ◌+◌, ◌-◌, ◌*◌, ◌/◌, ◌%◌, ◌^◌, Bool, true, false, not, ◌&&◌, ltb, leb, ◌==◌,
  if◌then◌else◌, Option, none, some, add32, sub32,
}
use ntreg.Names.Text.{UnicodeString, count}
use ntreg.Index.Data.{KeyIndex, Cells, key_index_leaf, key_hash_leaf, invalid_index}
use ntreg.Index.Compare.{Order, below, equal, above, no_cell, compare_in_index}
use ntreg.Index.Leaf.{Found, result, stuck, find_sub_key_in_leaf}
use ntreg.Index.Hash.{compute_hash_key}
use ntreg.Index.Store.{Store, put_index, mark_dirty, Allocator, reallocate_cell}

-- RtlMoveMemory(&list[to], &list[from], n * sizeof(entry))
abbrev pub move {ℓ} : {A : Type ℓ} → (ℕ → A) → (to from n : ℕ) → ℕ → A
move list to from n j = if leb to j && ltb j (to + n) then list (j - to + from) else list j

abbrev pub put {ℓ} : {A : Type ℓ} → (ℕ → A) → ℕ → A → ℕ → A
put list i x j = if j == i then x else list j

-- The name hint, from its last character to its first. A character that is no byte ends the loop,
-- and leaves those in front of it 0.
unfoldable pub fill_hint : (j : ℕ) → UnicodeString → (ℕ → ℕ) → ℕ → ℕ
fill_hint zero s hint = hint
fill_hint (suc j) s hint =
    let rest = fill_hint j s (put hint j (s.buffer j)) in
    if ltb 0xFF (s.buffer j) then hint else rest

unfoldable pub name_hint_of : UnicodeString → ℕ → ℕ
name_hint_of s = fill_hint (if ltb (count s) 4 then count s else 4) s (λ j. 0)

-- The entries behind the place are moved up by one, with what a fast leaf has beside the cell.
unfoldable pub make_room : KeyIndex → ℕ → KeyIndex
make_room leaf i =
    let n = leaf.count - i in
    if leaf.signature == key_index_leaf
    then record leaf { cell = move leaf.cell (i + 1) i n }
    else record leaf {
      cell = move leaf.cell (i + 1) i n;
      name_hint = move leaf.name_hint (i + 1) i n;
      hash_key = move leaf.hash_key (i + 1) i n;
    }

unfoldable pub set_entry : KeyIndex → ℕ → (new_key : ℕ) → UnicodeString → KeyIndex
set_entry leaf i new_key name =
    let with_cell : KeyIndex = record leaf { cell = put leaf.cell i new_key } in
    if leaf.signature == key_index_leaf
    then with_cell
    else if leaf.signature == key_hash_leaf
    then record with_cell { hash_key = put leaf.hash_key i (compute_hash_key 0 name) }
    else record with_cell { name_hint = put leaf.name_hint i (name_hint_of name) }

unfoldable pub insert_entry : KeyIndex → ℕ → (new_key : ℕ) → UnicodeString → KeyIndex
insert_entry leaf i new_key name =
    let moved = if i == leaf.count then leaf else make_room leaf i in
    record (set_entry moved i new_key name) { count = (leaf.count + 1) % 2 ^ 16 }

-- Where the new entry goes, from the entry that the search returned.
unfoldable pub insertion_point : Cells → UnicodeString → KeyIndex → ℕ → Option ℕ
insertion_point h name leaf i =
    if i == leaf.count then some i else elim (compare_in_index h name leaf i).0 [
      | no_cell ↦ none
      | above ↦ some (i + 1)
      | _ ↦ some i
    ]

-- The cell of the leaf, or HCELL_NIL, with the store as it is left.
pub data Added : Type 0 where
  added : ℕ → Store → Added
  failed : Store → Added
  out_of_fuel : Added

abbrev pub entry_size : KeyIndex → ℕ
entry_size leaf = if leaf.signature == key_index_leaf then 4 else 8

-- The size that the leaf is given, if there is no room for one more entry.
unfoldable pub grown_size : (old entry used : ℕ) → Option ℕ
grown_size old entry used =
    if sub32 old (add32 (entry * used) 4) / entry == 0
    then (if ltb (add32 old (old / 2)) (add32 old entry)
        then some (add32 old entry)
        else some (add32 old (old / 2)))
    else none

unfoldable pub insert_into : Store → (cell : ℕ) → KeyIndex → (new_key : ℕ) → UnicodeString → Added
insert_into s c leaf new_key name = elim (find_sub_key_in_leaf s.cells leaf name) [
  | stuck ↦ out_of_fuel
  | result i sub_key ↦
      if leb invalid_index i then failed s else elim (insertion_point s.cells name leaf i) [
        | none ↦ failed s
        | some at ↦ added c (put_index s c (some (insert_entry leaf at new_key name)))
      ]
]

unfoldable pub add_to_leaf : Allocator → Store → (leaf_cell new_key : ℕ) → UnicodeString → Added
add_to_leaf a s c new_key name =
    let marked = mark_dirty s c in
    elim (s.cells.index c) [
      | none ↦ failed marked
      | some leaf ↦ elim (grown_size (s.size c) (entry_size leaf) leaf.count) [
        | none ↦ insert_into marked c leaf new_key name
        | some n ↦ elim (reallocate_cell a marked c n) [
          | none ↦ failed marked
          | some (d, t) ↦ elim (t.cells.index d) [
            | none ↦ failed t
            | some moved ↦ insert_into t d moved new_key name
          ]
        ]
      ]
    ]
