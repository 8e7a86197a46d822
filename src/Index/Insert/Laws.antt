-- ===== src/Index/Insert/Laws.antt =====
-- What `CmpAddToLeaf` of core/cmindex.cpp does to a leaf and to the other cells.
use ntreg.Base.{ℕ, ◌+◌, ◌*◌, ◌≤◌, ◌<◌, ◌≡◌, ◌≢◌, Option, none, some}
use ntreg.Names.Text.{UnicodeString}
use ntreg.Index.Data.{KeyIndex, Cells}
use ntreg.Index.Insert.{insert_entry, Added, added, failed, out_of_fuel, entry_size}
use ntreg.Index.Insert.Place.{IsNew, Holds}
use ntreg.Index.Store.{Store, put_index, mark_dirty, Allocator}

module _ (name : UnicodeString) (leaf : KeyIndex) (new_key : ℕ) (s : Store) (c : ℕ)
    (n : IsNew s.cells name leaf new_key) where
  -- The leaf with the new entry at its place is in its cell.
  abbrev pub IntoOutcome : Added → Type 0
  IntoOutcome (added d t) =
      (d ≡ c)
      × ((at : ℕ) × Holds s.cells name leaf new_key n (insert_entry leaf at new_key name) at
          × (t ≡ put_index s c (some (insert_entry leaf at new_key name))))
  IntoOutcome (failed t) = ⊥
  IntoOutcome out_of_fuel = ⊥

-- A leaf with room for one more entry is not grown; one without is given room.
abbrev IsGrowth : (old entry used : ℕ) → Option ℕ → Type 0
IsGrowth old entry used none = 4 + entry * (used + 1) ≤ old
IsGrowth old entry used (some n) =
    (old < 4 + entry * (used + 1)) × (old < n) × (4 + entry * (used + 1) ≤ n)

module _ (a : Allocator) (s : Store) (c new_key : ℕ) (name : UnicodeString) (leaf : KeyIndex)
    (cell : s.cells.index c ≡ some leaf) (n : IsNew s.cells name leaf new_key) where
  -- The cell has the leaf with the new entry, which a search finds; the keys, and the indexes in
  -- all other cells, are as they were.
  pub record Grown (t : Store) : Type 0 where
    pub at : ℕ
    pub new : KeyIndex
    pub in_cell : t.cells.index c ≡ some new
    pub is_new : IsNew t.cells name leaf new_key
    pub holds : Holds t.cells name leaf new_key is_new new at
    pub others : (e : ℕ) → e ≢ c → t.cells.index e ≡ s.cells.index e
    pub node : (e : ℕ) → t.cells.node e ≡ s.cells.node e

  abbrev HasRoom : Type 0
  HasRoom = 4 + entry_size leaf * (leaf.count + 1) ≤ s.size c

  abbrev pub AddOutcome : Added → Type 0
  AddOutcome (added d t) = HasRoom × (d ≡ c) × Grown t
  AddOutcome (failed t) = ¬ HasRoom × (t ≡ mark_dirty s c)
  AddOutcome out_of_fuel = ⊥
