-- ===== src/Index/Remove/Whole.antt =====
-- `CmpRemoveSubKey` of core/cmindex.cpp from the key that goes to the leaf that it is in.
use ntreg.Base.{ℕ, ◌<◌, ◌≡◌, ◌≢◌, Bool, Option, none, some}
use ntreg.Cells.State.{cell_type}
use ntreg.Index.Data.{KeyNode, KeyIndex, key_index_root, invalid_index}
use ntreg.Index.Leaf.{result}
use ntreg.Index.Root.{find_sub_key_in_root}
use ntreg.Index.Store.{Store, Allocator}
use ntreg.Index.Remove.{search_name, list_of, InRoot, Removal}
use ntreg.Index.Remove.Laws.{RemovalOutcome}

module _ (a : Allocator) (allocates : ℕ → Bool) (s : Store) (parent target : ℕ) (n key : KeyNode)
    (leaf_cell : ℕ) (leaf : KeyIndex) (i : ℕ) where
  -- The list of the parent is the leaf, or a root whose search leads to the leaf.
  abbrev pub Leads : Option InRoot → Type 0
  Leads none = (list_of (cell_type target) n ≡ leaf_cell) × (leaf.signature ≢ key_index_root)
  Leads (some r) =
      (list_of (cell_type target) n ≡ r.root_cell)
      × (s.cells.index r.root_cell ≡ some r.root)
      × (r.root.signature ≡ key_index_root)
      × (r.root_index < invalid_index)
      × (find_sub_key_in_root s.cells r.root (search_name key) ≡ result r.root_index leaf_cell)

  abbrev pub Outcome : Option InRoot → Removal → Type 0
  Outcome = RemovalOutcome a s parent (cell_type target) n (search_name key) leaf_cell leaf i
