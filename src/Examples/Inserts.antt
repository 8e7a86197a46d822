-- ===== src/Examples/Inserts.antt =====
-- core/cmindex.cpp: a key D is added to the fast leaf of A, C and E; C is removed from it, where a root
-- lists the leaf; and a hash leaf is split.
use ntreg.Base.{ℕ, ◌<◌, ◌≡◌, ◌==◌, if◌then◌else◌, Option, none, some, [], ◌∷◌, arith}
use ntreg.Names.Text.{UnicodeString}
use ntreg.Index.Data.{KeyNode, KeyIndex, Cells, key_hash_leaf, key_index_root}
use ntreg.Index.Store.{Store, put_index, Allocator}
use ntreg.Index.Insert.{insert_entry}
use ntreg.Index.Insert.Entries.{IsSame}
use ntreg.Index.Remove.{InRoot, remove_entry}
use ntreg.Index.Remove.Entries.{remove_entry-insert_entry}
use ntreg.Examples.NamesAndIndexes.{cells, leaf, key, string}
use ntreg.Examples.HiveCells.{two_blocks}

-- Cell 14 holds the key D.
abbrev with_d : Cells
with_d = record cells { node = λ c. if c == 14 then some (key b'D') else cells.node c }

abbrev store : Store
store = record { cells = with_d; hive = two_blocks; size = λ c. 40 }

abbrev name_d : UnicodeString
name_d = string (b'd' ∷ [])

abbrev allocated : Store → Option KeyIndex → Option (ℕ × Store)
allocated s none = some (99, s)
allocated s (some x) = none

-- Cell 99 is the one that can be allocated.
abbrev one_cell : Allocator
one_cell = record {
  allocate = λ s n k. allocated s (s.cells.index 99);
  free = λ s c. put_index s c none;
}

-- Cell 30 holds a root with one leaf, in cell 20.
abbrev root : KeyIndex
root = record leaf { signature = key_index_root; count = 1; cell = λ i. 20 }

-- Cell 50 holds the parent of A, C and E.
abbrev parent : KeyNode
parent = record (key b'P') { stable_count = 3; stable_list = 30 }

abbrev with_parent : Store
with_parent =
    put_index
      (record store {
        cells = record cells { node = λ c. if c == 50 then some parent else cells.node c };
      })
      30 (some root)

abbrev in_root : InRoot
in_root = record { root_cell = 30; root = root; root_index = 0 }

remove_entry-insert_entry_example :
    ((remove_entry (insert_entry leaf 2 14 name_d) 2).count ≡ 3)
    × ((j : ℕ) → j < 3 → IsSame (remove_entry (insert_entry leaf 2 14 name_d) 2) leaf j j)
remove_entry-insert_entry_example =
    remove_entry-insert_entry leaf 2 14 name_d (omega arith) (omega arith)

-- The leaf in cell 20 has three hashed entries.
abbrev hashed_leaf : KeyIndex
hashed_leaf = record leaf { signature = key_hash_leaf }

abbrev with_root : Store
with_root = put_index (put_index store 20 (some hashed_leaf)) 30 (some root)
