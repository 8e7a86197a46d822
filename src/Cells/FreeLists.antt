-- ===== src/Cells/FreeLists.antt =====
-- core/hivecell.cpp: the lists of free cells, `HvpAddFree`, `HvpRemoveFree` and `HvpFindFree`. A list
-- starts in an entry of FreeDisplay and goes on in the first word of the data of each free cell;
-- these words are a function from cell indexes. A walk along a list runs on fuel.
pub mod Chains
pub mod Remove
pub mod Find
pub mod Lists
use ntreg.Base.{
  ℕ, zero, suc, ◌+◌, ◌-◌, Bool, true, not, ◌&&◌, Option, none, some, ltb, leb, ◌==◌, if◌then◌else◌,
}
use ntreg.Index.Data.{hcell_nil}
use ntreg.Cells.State.{
  StorageType, stable, volatile, Storage, Hive, storage, cell_type, cell_block, cell_header,
}
use ntreg.Cells.FreeIndex.{compute_free_list_index}

-- One list: its entry of FreeDisplay, and the words of all cells.
pub record Links : Type 0 where
  pub first : ℕ
  pub link : ℕ → ℕ

-- Where `pFreeCellOffset` points: to the entry of FreeDisplay, or to the word of a cell.
pub data Place : Type 0 where
  head : Place
  after : ℕ → Place

abbrev pub read_at : Links → Place → ℕ
read_at s head = s.first
read_at s (after c) = s.link c

abbrev pub write_at : Links → Place → ℕ → Links
write_at s head v = record s { first = v }
write_at s (after c) v = record s { link = λ d. if d == c then v else s.link d }

-- All lists: FreeDisplay of each storage.
pub record FreeLists : Type 0 where
  pub display : StorageType → ℕ → ℕ
  pub word : ℕ → ℕ

abbrev pub same_type : StorageType → StorageType → Bool
same_type stable stable = true
same_type volatile volatile = true
same_type _ _ = not true

-- One list of a storage taken out, and put back.
abbrev pub list_at : FreeLists → StorageType → ℕ → Links
list_at s t i = record { first = s.display t i; link = s.word }

abbrev pub put_list : FreeLists → StorageType → ℕ → Links → FreeLists
put_list s t i l = record {
  display = λ u j. if same_type u t && (j == i) then l.first else s.display u j;
  word = l.link;
}

-- The block of the given size goes to the front of its list.
unfoldable pub add_free : FreeLists → (size cell : ℕ) → FreeLists
add_free s size c =
    let l = list_at s (cell_type c) (compute_free_list_index size) in
    put_list s (cell_type c) (compute_free_list_index size)
      (write_at (write_at l (after c) l.first) head c)

-- A walk has removed the cell, has not met it, or has run out of fuel.
pub data Removal : Type 0 where
  removed : Links → Removal
  missing : Removal
  stuck : Removal

unfoldable pub remove_loop : ℕ → Links → Place → (cell : ℕ) → Removal
remove_loop zero s place c = stuck
remove_loop (suc f) s place c =
    let rest = remove_loop f s (after (read_at s place)) c in
    if read_at s place == hcell_nil
    then missing
    else if read_at s place == c
    then removed (write_at s place (s.link (read_at s place)))
    else rest

-- A cell that is not in its list is a failed assertion, and leaves the lists as they are.
unfoldable pub remove_free : (fuel : ℕ) → FreeLists → (size cell : ℕ) → Option FreeLists
remove_free f s size c =
    let i = compute_free_list_index size in
    elim (remove_loop f (list_at s (cell_type c) i) head c) [
      | removed l ↦ some (put_list s (cell_type c) i l)
      | missing ↦ some s
      | stuck ↦ none
    ]

-- The sizes in the headers of cells, by their index, and of bins, by their address.
pub record Sizes : Type 0 where
  pub cell_size : ℕ → ℕ
  pub bin_size : ℕ → ℕ

-- A cell index names a block of the hive.
unfoldable pub is_offset_valid : Hive → ℕ → Bool
is_offset_valid h c =
    let s = storage h (cell_type c) in
    ltb (cell_block c) s.length && not (s.block_address (cell_block c) == 0)

-- A cell does not reach beyond its bin.
unfoldable pub is_in_bin : Hive → Sizes → ℕ → Bool
is_in_bin h m c =
    let s = storage h (cell_type c) in
    let bin = s.bin_address (cell_block c) in
    if ltb (cell_block c) s.length
    then (if bin == 0 then true else leb (cell_header h c + m.cell_size c) (bin + m.bin_size bin))
    else true

-- A walk along one list takes a cell, goes on to the next list, or has run out of fuel.
pub data Walk : Type 0 where
  taken : (cell : ℕ) → Links → Walk
  next_list : Links → Walk
  exhausted : Walk

-- A cell that reaches beyond its bin is unlinked, and the one behind it is passed over.
unfoldable pub find_walk : ℕ → Hive → Sizes → (size : ℕ) → Links → Place → Walk
find_walk zero h m size s place = exhausted
find_walk (suc f) h m size s place =
    let c = read_at s place in
    let behind = s.link c in
    let unlinked = write_at s place behind in
    let rest = find_walk f h m size s (after c) in
    let over = find_walk f h m size unlinked (after behind) in
    if c == hcell_nil
    then next_list s
    else if not (is_offset_valid h c)
    then next_list (write_at s place hcell_nil)
    else if leb size (m.cell_size c) && ltb 0 (m.cell_size c)
    then (if is_in_bin h m c
        then taken c unlinked
        else if behind == hcell_nil
        then next_list unlinked
        else over)
    else rest

-- for (; Index < 24; Index++), over the lists left: a cell or HCELL_NIL, and the lists behind.
unfoldable pub find_loop :
    (left fuel : ℕ)
    → Hive
    → Sizes
    → FreeLists
    → (size : ℕ) → StorageType
    → (i : ℕ) → Option (ℕ × FreeLists)
find_loop zero f h m s size t i = some (hcell_nil, s)
find_loop (suc left) f h m s size t i = elim (find_walk f h m size (list_at s t i) head) [
  | taken c l ↦ some (c, put_list s t i l)
  | next_list l ↦ find_loop left f h m (put_list s t i l) size t (i + 1)
  | exhausted ↦ none
]

unfoldable pub find_free :
    (fuel : ℕ) → Hive → Sizes → FreeLists → (size : ℕ) → StorageType → Option (ℕ × FreeLists)
find_free f h m s size t =
    let i = compute_free_list_index size in find_loop (24 - i) f h m s size t i
