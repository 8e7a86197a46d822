-- ===== src/Cells/Bin/Growth.antt =====
-- What a new bin of core/hivebin.cpp does to a hive.
use ntreg.Base.{
  add32, ℕ, ◌+◌, ◌*◌, ◌%◌, ◌≤◌, ◌<◌, ◌≡◌, Bool, true, Option, none, some, not, ◌||◌, ◌==◌,
}
use ntreg.Bitmap.State.{Buffer, Bitmap, test_bit}
use ntreg.Cells.State.{Hive}
use ntreg.Cells.Bin.{Bin, Growing, added, refused, fault}

-- The dirty vector has a bit for every stable block.
pub record IsCovered (h : Hive) : Type 0 where
  pub covers : h.stable_storage.length ≤ h.dirty_vector.size
  pub whole : h.dirty_vector.size % 32 ≡ 0

-- The dirty vector for more blocks has a bit for each, and those of before are as they were.
abbrev Extended : Bitmap → ℕ → Option Buffer → Option Bitmap → Type 0
Extended d length memory none = memory ≡ none
Extended d length memory (some d') =
    (length ≤ d'.size) × (d'.size % 32 ≡ 0) × ((n : ℕ) → n < d.size → test_bit d' n ≡ test_bit d n)

-- What adding a bin of so many blocks may come to: NULL without memory, the hive as it was; an access
-- through NULL without memory for the dirty vector; or a hive with the blocks of the bin behind the
-- old ones, one behind the other in the memory of the bin, all of them dirty, the old ones and the
-- volatile storage as they were, and the length of the hive greater by that of the blocks.
abbrev pub Grown :
    Hive → (address : ℕ) → (has_list : Bool) → Option Buffer → (count : ℕ) → Growing → Type 0
Grown h address has_list memory count (refused h') =
    (h' ≡ h) × ((address == 0 || not has_list) ≡ true)
Grown h address has_list memory count fault = memory ≡ none
Grown h address has_list memory count (added h' bin) =
    IsCovered h'
    × (h'.stable_storage.length ≡ h.stable_storage.length + count)
    × (h'.base_length ≡ add32 h.base_length (count * 4096))
    × (h'.volatile_storage ≡ h.volatile_storage)
    × (bin.address ≡ address)
    × ((b : ℕ)
        → b < h.stable_storage.length
        → (test_bit h'.dirty_vector b ≡ test_bit h.dirty_vector b)
          × (h'.stable_storage.block_address b ≡ h.stable_storage.block_address b)
          × (h'.stable_storage.bin_address b ≡ h.stable_storage.bin_address b))
    × ((b : ℕ)
        → b < count
        → (test_bit h'.dirty_vector (h.stable_storage.length + b) ≡ true)
          × (h'.stable_storage.block_address (h.stable_storage.length + b) ≡ address + b * 4096)
          × (h'.stable_storage.bin_address (h.stable_storage.length + b) ≡ address))
