-- ===== src/Cells/FreeIndex/Order.antt =====
-- The lists of free cells are ordered by size.
use ntreg.Base.{
  ℕ, ◌+◌, ◌-◌, ◌/◌, ◌≤◌, ◌<◌, ◌≡◌, refl, true, ltb, ◌==◌, ◌||◌, if◌then◌else◌, get_or, sub32, ulong,
  arith, passes, passes_at,
}
use ntreg.Cells.FreeIndex.{find_first_set, compute_free_list_index}

-- The bound of each list, from the size in units of eight bytes, less one.
abbrev pub list_of : ℕ → ℕ
list_of i =
    if ltb i 16
    then i
    else if ltb i 32
    then 20
    else if ltb i 64
    then 21
    else if ltb i 128
    then 22
    else 23

table_check : passes (λ i. ltb i 16 || (get_or find_first_set i 0 + 16 == list_of i)) 128 ≡ true
unfolding passes find_first_set
table_check = refl

table_lem : (i : ℕ) → 16 ≤ i → i < 128 → get_or find_first_set i 0 + 16 ≡ list_of i
table_lem i lo hi = ground (arith, passes_at _ 128 table_check i hi)

compute_free_list_index-list_of :
    (size : ℕ) → 8 ≤ size → size < ulong → compute_free_list_index size ≡ list_of (size / 8 - 1)
unfolding compute_free_list_index
compute_free_list_index-list_of size lo hi =
    let index : sub32 (size / 8) 1 ≡ size / 8 - 1 = omega arith in
    rw index (ground (arith, table_lem (size / 8 - 1)))

-- Every size of a cell has one of the 24 lists, and a greater size never has a lower one.
pub compute_free_list_index_ordered :
    (s t : ℕ)
    → 8 ≤ s
    → s ≤ t
    → t < ulong
    → (compute_free_list_index s ≤ compute_free_list_index t) × (compute_free_list_index t < 24)
compute_free_list_index_ordered s t lo le hi =
    rw
      (
        compute_free_list_index-list_of s lo (omega arith),
        compute_free_list_index-list_of t (omega arith) hi,
      )
      (ground arith)
