-- ===== src/Cells/FreeIndex.antt =====
-- core/hivecell.cpp, `HvpComputeFreeListIndex`: which of the 24 lists of free cells a size goes to.
pub mod Order
use ntreg.Base.{
  ℕ, ◌-◌, ◌+◌, ◌/◌, List, [], ◌∷◌, ◌++◌, ltb, leb, if◌then◌else◌, get_or, replicate, sub32,
}

-- FindFirstSet: the index of the highest set bit of a number below 128.
unfoldable pub find_first_set : List ℕ
find_first_set =
    replicate 2 0
    ++ (replicate 2 1
        ++ (replicate 4 2
            ++ (replicate 8 3 ++ (replicate 16 4 ++ (replicate 32 5 ++ replicate 64 6)))))

unfoldable pub compute_free_list_index : ℕ → ℕ
compute_free_list_index size =
    let index = sub32 (size / 8) 1 in
    if leb 16 index
    then (if ltb 127 index then 23 else get_or find_first_set index 0 + 16)
    else index
