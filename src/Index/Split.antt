-- ===== src/Index/Split.antt =====
-- core/cmindex.cpp, `CmpSplitLeaf`. A cell that has just been allocated can be read; what is behind the
-- entries of the new leaf is left at 0.
pub mod Halves
pub mod Laws
use ntreg.Base.{
  ℕ, zero, suc, ◌+◌, ◌-◌, ◌*◌, ◌/◌, ◌%◌, ◌^◌, Bool, true, false, ltb, leb, ◌==◌, if◌then◌else◌,
  Option, none, some, add32, sub32,
}
use ntreg.Cells.State.{StorageType}
use ntreg.Index.Data.{KeyIndex, key_index_leaf, key_hash_leaf}
use ntreg.Index.Insert.{move, put}
use ntreg.Index.Store.{Store, put_index, mark_dirty, Allocator, reallocate_cell}

-- The cell of the root, or HCELL_NIL, with the store as it is left.
pub data SplitResult : Type 0 where
  split : (root_cell : ℕ) → Store → SplitResult
  failed : Store → SplitResult

abbrev pub first_half : KeyIndex → ℕ
first_half leaf = leaf.count / 2

abbrev pub last_half : KeyIndex → ℕ
last_half leaf = leaf.count - leaf.count / 2

-- The signature for the version of the hive, and an entry of its size.
abbrev pub split_signature : (version : ℕ) → ℕ
split_signature version = if leb 5 version then key_hash_leaf else key_index_leaf

abbrev pub split_entry_size : (version : ℕ) → ℕ
split_entry_size version = if leb 5 version then 8 else 4

unfoldable pub blank_leaf : (version : ℕ) → KeyIndex
blank_leaf version = record {
  signature = split_signature version;
  count = 0;
  cell = λ j. 0;
  name_hint = λ j k. 0;
  hash_key = λ j. 0;
}

-- The second half of the entries.
unfoldable pub upper_leaf : (version : ℕ) → KeyIndex → KeyIndex
upper_leaf version leaf =
    let first = first_half leaf in
    let inside = λ (j : ℕ). ltb j (last_half leaf) in
    let with_cells : KeyIndex = record (blank_leaf version) {
      count = last_half leaf;
      cell = λ j. if inside j then leaf.cell (j + first) else 0;
    } in
    if leb 5 version
    then record with_cells {
      name_hint = λ j. if inside j then leaf.name_hint (j + first) else λ k. 0;
      hash_key = λ j. if inside j then leaf.hash_key (j + first) else 0;
    }
    else with_cells

unfoldable pub lower_leaf : KeyIndex → KeyIndex
lower_leaf leaf = record leaf { count = first_half leaf }

-- The new leaf goes behind the one that was split.
unfoldable pub widened_root : KeyIndex → (select new_cell : ℕ) → KeyIndex
widened_root root select new_cell =
    let moved =
      if ltb (select + 1) root.count
      then move root.cell (select + 2) (select + 1) (root.count - (select + 1))
      else root.cell in
    record root { count = (root.count + 1) % 2 ^ 16; cell = put moved (select + 1) new_cell }

unfoldable pub write_halves :
    (version : ℕ)
    → Store
    → (leaf_cell : ℕ) → KeyIndex
    → (new_cell root_cell : ℕ) → KeyIndex
    → (select : ℕ) → Store
write_halves version s leaf_cell leaf new_cell root_cell root select =
    put_index
      (put_index (put_index s new_cell (some (upper_leaf version leaf))) leaf_cell
        (some (lower_leaf leaf)))
      root_cell (some (widened_root root select new_cell))

-- Is there no room in the root for one more entry?
abbrev pub is_root_full : (size count : ℕ) → Bool
is_root_full size count = sub32 (sub32 size (count * 4)) 4 / 4 == 0

unfoldable pub split_leaf :
    Allocator → (version : ℕ) → Store → (root_cell select : ℕ) → StorageType → SplitResult
split_leaf a version s root_cell select kind = elim (s.cells.index root_cell) [
  | none ↦ failed s
  | some root ↦ elim (s.cells.index (root.cell select)) [
    | none ↦ failed s
    | some leaf ↦
        let leaf_cell = root.cell select in
        let marked = mark_dirty s leaf_cell in
        let size = split_entry_size version * last_half leaf + 4 + 1 in
        elim (a.allocate marked size kind) [
          | none ↦ failed marked
          | some (new_cell, t) ↦
              let u = put_index t new_cell (some (blank_leaf version)) in
              if is_root_full (s.size root_cell) root.count
              then (elim (reallocate_cell a u root_cell (add32 (s.size root_cell) 4)) [
                | none ↦ failed (a.free u new_cell)
                | some (moved_cell, v) ↦ elim (v.cells.index moved_cell) [
                  | none ↦ failed v
                  | some moved ↦
                      split moved_cell
                        (write_halves version v leaf_cell leaf new_cell moved_cell moved select)
                ]
              ])
              else split root_cell
                  (write_halves version u leaf_cell leaf new_cell root_cell root select)
        ]
  ]
]
