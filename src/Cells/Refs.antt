-- ===== src/Cells/Refs.antt =====
-- core/hivecell.cpp: `HvTrackCellRef` and `HvReleaseFreeCellRefArray`, and their state, an
-- `HV_TRACK_CELL_REF` of include/cmlib.hpp. The releases of cells are a sequence that the operations
-- return; what `CmpAllocate` returns is an argument.
pub mod Laws
pub mod Lists
use ntreg.Base.{
  ℕ, zero, suc, ◌+◌, ◌%◌, ◌^◌, Bool, List, [], ◌∷◌, ◌++◌, Option, none, some, ltb, ◌==◌,
  if◌then◌else◌,
}

-- An `HV_HIVE_CELL_PAIR`; a hive is the address of its structure.
pub record Pair : Type 0 where
  pub hive : ℕ
  pub cell : ℕ

pub record TrackCellRef : Type 0 where
  pub count : ℕ
  pub max : ℕ
  pub cell_array : Option (ℕ → Pair)
  pub static_array : ℕ → Pair
  pub static_count : ℕ

-- STATIC_CELL_PAIR_COUNT and CELL_REF_INCREMENT
abbrev pub static_cell_pair_count : ℕ
static_cell_pair_count = 4

abbrev pub cell_ref_increment : ℕ
cell_ref_increment = 10

-- The sum of two numbers in a `USHORT`.
abbrev pub add16 : ℕ → ℕ → ℕ
add16 a b = (a + b) % 2 ^ 16

abbrev pub store : (ℕ → Pair) → ℕ → Pair → ℕ → Pair
store array i p j = if j == i then p else array j

-- What `HvTrackCellRef` does: TRUE with the new state, FALSE with the cells released, or an access
-- through NULL.
pub data Tracking : Type 0 where
  tracked : TrackCellRef → Tracking
  failed : TrackCellRef → (released : List Pair) → Tracking
  fault : Tracking

-- The reference is added to the dynamic array.
unfoldable pub add_to : Option (ℕ → Pair) → TrackCellRef → Pair → Tracking
add_to none r p = fault
add_to (some array) r p =
    tracked (record r { cell_array = some (store array r.count p); count = add16 r.count 1 })

-- The old table is copied to the new one.
unfoldable pub copy_table : Option (ℕ → Pair) → ℕ → (ℕ → Pair) → ℕ → Pair
copy_table none max fresh i = fresh i
copy_table (some array) max fresh i = if ltb i max then array i else fresh i

unfoldable pub track_cell_ref : (allocation : Option (ℕ → Pair)) → TrackCellRef → Pair → Tracking
track_cell_ref allocation r p =
    if ltb r.static_count static_cell_pair_count
    then tracked (record r {
      static_array = store r.static_array r.static_count p;
      static_count = add16 r.static_count 1;
    })
    else if r.count == r.max
    then (elim allocation [
      | none ↦ failed r (p ∷ [])
      | some fresh ↦
          add_to (some (copy_table r.cell_array r.max fresh))
            (record r { max = add16 r.max cell_ref_increment }) p
    ])
    else add_to r.cell_array r p

-- for (i = 0; i < Count; i++): the references in an array, over those left.
unfoldable pub entries : (left : ℕ) → (ℕ → Pair) → (i : ℕ) → List Pair
entries zero array i = []
entries (suc left) array i = array i ∷ entries left array (i + 1)

-- The state behind, and the references released; none for an access through NULL.
unfoldable pub release_free_cell_ref_array : TrackCellRef → Option (TrackCellRef × List Pair)
release_free_cell_ref_array r =
    let first = entries r.static_count r.static_array 0 in
    let emptied = if ltb 0 r.static_count then record r { static_count = 0 } else r in
    if ltb 0 r.count
    then (elim r.cell_array [
      | none ↦ none
      | some array ↦ some (
        record emptied { cell_array = none; count = 0; max = 0 },
        first ++ entries r.count array 0,
      )
    ])
    else some (emptied, first)
