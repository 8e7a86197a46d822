-- ===== src/Index/Split/Laws.antt =====
-- What `CmpSplitLeaf` of core/cmindex.cpp does to the root, to the leaf and to the other cells.
use ntreg.Base.{ℕ, ◌+◌, ◌*◌, ◌≤◌, ◌<◌, ◌≡◌, ◌≢◌, ◌⊎◌, Option, none, some}
use ntreg.Cells.State.{StorageType}
use ntreg.Index.Data.{KeyIndex}
use ntreg.Index.Split.Halves.{Widened, Halves}
use ntreg.Index.Store.{Store, put_index, mark_dirty, Allocator}
use ntreg.Index.Split.{
  SplitResult, split, failed, last_half, split_signature, split_entry_size, blank_leaf,
}

module _ (a : Allocator) (version : ℕ) (s : Store) (root_cell select : ℕ) (kind : StorageType)
    (root leaf : KeyIndex) (root_there : s.cells.index root_cell ≡ some root)
    (leaf_there : s.cells.index (root.cell select) ≡ some leaf)
    (two_cells : root_cell ≢ root.cell select) (inside : select < root.count)
    (few : root.count + 1 < 0x1_0000) (signed : leaf.signature ≡ split_signature version)
    (small : s.size root_cell < 0x8000_0000) (fits : 4 + 4 * root.count ≤ s.size root_cell) where
  abbrev leaf_cell : ℕ
  leaf_cell = root.cell select

  -- A new cell for the second half.
  abbrev pub Allocation : Type 0
  Allocation = Option (ℕ × Store)

  abbrev pub asked : Allocation
  asked =
      a.allocate (mark_dirty s leaf_cell) (split_entry_size version * last_half leaf + 4 + 1) kind

  -- The cell is neither that of the root nor that of the leaf.
  abbrev pub IsApart : Allocation → Type 0
  IsApart none = Unit
  IsApart (some (new_cell, t)) = (new_cell ≢ root_cell) × (new_cell ≢ leaf_cell)

  abbrev HasRoom : Type 0
  HasRoom = 4 + 4 * (root.count + 1) ≤ s.size root_cell

  -- The store as the allocation left it, and the leaf divided between its cell and the new one, which
  -- the root has behind it.
  pub record Divided (t : Store) : Type 0 where
    pub room : HasRoom
    pub new_cell : ℕ
    pub allocated : Store
    pub answer : asked ≡ some (new_cell, allocated)
    pub new_root : KeyIndex
    pub lower : KeyIndex
    pub upper : KeyIndex
    pub root_in_cell : t.cells.index root_cell ≡ some new_root
    pub lower_in_cell : t.cells.index leaf_cell ≡ some lower
    pub upper_in_cell : t.cells.index new_cell ≡ some upper
    pub widened : Widened root select new_cell new_root
    pub halves : Halves t.cells leaf lower upper
    pub others :
        (e : ℕ)
        → e ≢ root_cell
        → e ≢ leaf_cell
        → e ≢ new_cell
        → t.cells.index e ≡ allocated.cells.index e
    pub node : (e : ℕ) → t.cells.node e ≡ allocated.cells.node e

  -- There was no cell for the leaf, or none for the root, which then was full; the cell that the leaf
  -- had got is freed again.
  abbrev pub Unsplit : Store → Type 0
  Unsplit t =
      ((asked ≡ none) × (t ≡ mark_dirty s leaf_cell))
      ⊎ (¬ HasRoom
          × ((new_cell : ℕ) × (u : Store) × (asked ≡ some (new_cell, u))
              × (t ≡ a.free (put_index u new_cell (some (blank_leaf version))) new_cell)))

  abbrev pub SplitOutcome : SplitResult → Type 0
  SplitOutcome (split r t) = (r ≡ root_cell) × Divided t
  SplitOutcome (failed t) = Unsplit t
