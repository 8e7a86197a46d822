-- ===== src/Index/Store.antt =====
-- The cells of a hive as core/cmindex.cpp changes them, and `HvReallocateCell` of core/hivecell.cpp.
-- Allocating and freeing cells is an interface, of which nothing is assumed.
use ntreg.Base.{ℕ, ◌/◌, ltb, ◌==◌, if◌then◌else◌, Option, none, some}
use ntreg.Cells.State.{Hive, StorageType, cell_type}
use ntreg.Cells.Dirty.{mark_cell_dirty}
use ntreg.Index.Data.{KeyIndex, Cells}

pub record Store : Type 0 where
  pub cells : Cells
  pub hive : Hive
  -- `HvGetCellSize`, by cell
  pub size : ℕ → ℕ

abbrev pub put_index : Store → ℕ → Option KeyIndex → Store
put_index s c x = record s {
  cells = record s.cells { index = λ d. if d == c then x else s.cells.index d };
}

abbrev pub mark_dirty : Store → ℕ → Store
mark_dirty s c = record s { hive = mark_cell_dirty s.hive c }

-- `HvAllocateCell`, which may return HCELL_NIL, and `HvFreeCell`.
pub record Allocator : Type 0 where
  pub allocate : Store → (size : ℕ) → StorageType → Option (ℕ × Store)
  pub free : Store → ℕ → Store

-- The contents of a cell that is larger than the new one are cut off, which no index that fits
-- shows.
unfoldable pub reallocate_cell : Allocator → Store → (cell size : ℕ) → Option (ℕ × Store)
reallocate_cell a s c n =
    let moved : Option (ℕ × Store) = elim (a.allocate s n (cell_type c)) [
      | none ↦ none
      | some (d, t) ↦ some (d, a.free (put_index t d (s.cells.index c)) c)
    ] in
    if ltb (s.size c) n
    then moved
    else if ltb n (s.size c / 2)
    then (elim moved [ none ↦ some (c, s) | some r ↦ some r ])
    else some (c, s)
