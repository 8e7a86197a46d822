-- ===== src/Examples/FreeCells.antt =====
-- core/hivecell.cpp at the list of two free cells of 64 bytes.
use ntreg.Base.{ℕ, ◌<◌, ◌≡◌, refl, List, [], ◌∷◌, some, arith, Bool-cases, inl, inr, length}
use ntreg.Index.Data.{hcell_nil}
use ntreg.Cells.State.{StorageType, stable, cell_header}
use ntreg.Cells.FreeIndex.{find_first_set, compute_free_list_index}
use ntreg.Cells.FreeLists.{
  FreeLists, Sizes, add_free, remove_free, find_free, is_offset_valid, is_in_bin,
}
use ntreg.Cells.FreeLists.Chains.{NotIn, without}
use ntreg.Cells.FreeLists.Lists.{
  IsFreeLists, replaced, same_list, add_free-IsFreeLists, remove_free-IsFreeLists,
}
use ntreg.Cells.FreeLists.Find.{AreValid, IsFound, find_free-IsFound}
use ntreg.Examples.HiveCells.{two_blocks}

abbrev no_lists : FreeLists
no_lists = record { display = λ t i. hcell_nil; word = λ c. 0 }

no_lists-IsFreeLists : IsFreeLists no_lists (λ t i. [])
no_lists-IsFreeLists = record {
  chains = λ t i. refl;
  distinct = λ t i. tt;
  apart = λ t u i j c e m. tt;
}

abbrev class : ℕ
class = compute_free_list_index 64

-- With the cell 0x20, and then with 0x60 before it.
abbrev one_list : FreeLists
one_list = add_free no_lists 64 0x20

abbrev one_cell : StorageType → ℕ → List ℕ
one_cell = replaced (λ t i. []) stable class (0x20 ∷ [])

abbrev two_cells : StorageType → ℕ → List ℕ
two_cells = replaced one_cell stable class (0x60 ∷ one_cell stable class)

one_list-IsFreeLists : IsFreeLists one_list one_cell
one_list-IsFreeLists =
    add_free-IsFreeLists no_lists (λ t i. []) 64 0x20 no_lists-IsFreeLists (λ e. omega arith)
      (λ t i. tt)

one_cell-cases :
    (P : List ℕ → Type 0) → P [] → P (0x20 ∷ []) → (t : StorageType) (i : ℕ) → P (one_cell t i)
one_cell-cases P a b t i = elim (Bool-cases (same_list t stable i class)) [
  | inl e ↦ rw e b
  | inr e ↦ rw e a
]

two_cells-cases :
    (P : List ℕ → Type 0)
    → P []
    → P (0x20 ∷ [])
    → P (0x60 ∷ 0x20 ∷ [])
    → (t : StorageType) (i : ℕ) → P (two_cells t i)
unfolding compute_free_list_index find_first_set
two_cells-cases P a b c t i = elim (Bool-cases (same_list t stable i class)) [
  | inl e ↦ rw e c
  | inr e ↦ rw e a
]

add_free-IsFreeLists_example : IsFreeLists (add_free one_list 64 0x60) two_cells
add_free-IsFreeLists_example =
    add_free-IsFreeLists one_list one_cell 64 0x60 one_list-IsFreeLists (λ e. omega arith)
      (one_cell-cases (NotIn 0x60) tt ((λ e. omega arith), tt))

two_lists-IsFreeLists : IsFreeLists (add_free one_list 64 0x60) two_cells
two_lists-IsFreeLists =
    add_free-IsFreeLists one_list one_cell 64 0x60 one_list-IsFreeLists (λ e. omega arith)
      (one_cell-cases (NotIn 0x60) tt ((λ e. omega arith), tt))

remove_free-IsFreeLists_example :
    (s' : FreeLists) × (remove_free 3 (add_free one_list 64 0x60) 64 0x20 ≡ some s')
    × IsFreeLists s' (replaced two_cells stable class (without 0x20 (two_cells stable class)))
unfolding compute_free_list_index find_first_set
remove_free-IsFreeLists_example =
    remove_free-IsFreeLists 3 (add_free one_list 64 0x60) two_cells 64 0x20 two_lists-IsFreeLists
      (λ (p, (q, r)). q refl) (omega arith)

abbrev sizes : Sizes
sizes = record { cell_size = λ c. 64; bin_size = λ b. 8192 }

find_free-IsFound_example :
    IsFound sizes 48 stable two_cells
      (add_free one_list 64 0x60)
      (compute_free_list_index 48)
      24
      (find_free 3 two_blocks sizes (add_free one_list 64 0x60) 48 stable)
unfolding is_offset_valid is_in_bin cell_header
find_free-IsFound_example =
    find_free-IsFound 3 two_blocks sizes 48 stable (add_free one_list 64 0x60) two_cells
      two_lists-IsFreeLists
      (two_cells-cases (AreValid two_blocks sizes) tt (refl, refl, omega arith, tt)
        (refl, refl, omega arith, (refl, refl, omega arith, tt)) stable)
      (two_cells-cases (λ cs. length cs < 3) (omega arith) (omega arith) (omega arith) stable)
      (omega arith) (omega arith)
