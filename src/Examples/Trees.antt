-- ===== src/Examples/Trees.antt =====
-- core/cmindex.cpp and core/cmname.cpp at a root of two leaves, and at a list of two values.
use ntreg.Base.{
  ℕ, zero, suc, ◌+◌, ◌<◌, ◌≡◌, ◌≢◌, refl, true, ◌++◌, some, none, arith, if◌then◌else◌, ◌==◌,
  get_or,
}
use mathlib.Core.Path.{subst}
use ntreg.Names.Compare.{compare_compressed_name, compressed_loop}
use ntreg.Names.Text.{upcase}
use ntreg.Names.FindValue.{ValueCells, find_name_in_list, name_loop, has_name}
use ntreg.Names.FindValue.Laws.{IsAnswer, find_name_in_list-IsAnswer}
use ntreg.Index.Data.{KeyNode, KeyIndex, hcell_nil}
use ntreg.Index.Compare.{
  below, above, no_cell, do_compare_key_name, full_compare, hint_loop, compare_in_index,
}
use ntreg.Index.Leaf.{result, find_sub_key_in_leaf, leaf_loop, finish, finish_high}
use ntreg.Index.Leaf.Search.{IsOrdered}
use ntreg.Index.Root.{
  compare_last, compare_range, root_high, root_finish, root_loop, find_sub_key_in_root,
}
use ntreg.Index.Root.Search.{IsLeafOf, IsRoot, find_sub_key_in_root-IsLeafOf}
use ntreg.Index.Number.{find_sub_key_by_number}
use ntreg.Index.Number.Laws.{sub_keys, IsReadable, find_sub_key_by_number-sub_keys}
use ntreg.Index.ByName.{
  after_search, search_leaf, search_root, search_list, by_name_loop, find_sub_key_by_name,
}
use ntreg.Index.ByName.Entries.{IsLeaf}
use ntreg.Index.ByName.Below.{IsTree}
use ntreg.Index.ByName.Search.{IsIndex, IsChild, find_sub_key_by_name-IsChild}
use ntreg.Examples.NamesAndIndexes.{
  run_name, run_bytes, leaf, last_leaf, root, cells, search_c, leaf-IsOrdered,
}

program : Unit {0}
unfolding compare_in_index full_compare do_compare_key_name compare_compressed_name compressed_loop
    hint_loop upcase compare_range compare_last
program = tt

ranges-IsOrdered : IsOrdered (λ i. (compare_range cells root search_c i, 0)) 2
unfolding program
ranges-IsOrdered = record { readable = readable; ordered = ordered }
  where
    readable : (i : ℕ) → i < 2 → compare_range cells root search_c i ≢ no_cell
    readable zero h = λ e. cc
    readable (suc zero) h = λ e. cc
    readable (suc (suc i)) h = absurd (omega arith)

    ordered :
        (i j : ℕ)
        → i < j
        → j < 2
        → compare_range cells root search_c i ≢ above
        → compare_range cells root search_c j ≡ below
    ordered i (suc zero) p q h = refl
    ordered i zero p q h = absurd (omega arith)
    ordered i (suc (suc j)) p q h = absurd (omega arith)

root-IsRoot : IsRoot cells root search_c
root-IsRoot = record { ranges = ranges-IsOrdered; some_leaf = omega arith; in_ulong = omega arith }

find_sub_key_in_root-IsLeafOf_example :
    IsLeafOf
      (compare_range cells root search_c)
      root.cell
      2
      (find_sub_key_in_root cells root search_c)
find_sub_key_in_root-IsLeafOf_example =
    find_sub_key_in_root-IsLeafOf cells root search_c root-IsRoot

c_is_in_the_first : find_sub_key_in_root cells root search_c ≡ result 0 20
unfolding find_sub_key_in_root root_loop root_finish root_high program
c_is_in_the_first = refl

last_leaf-IsOrdered : IsOrdered (compare_in_index cells search_c last_leaf) 1
unfolding program
last_leaf-IsOrdered = record { readable = readable; ordered = λ i j p q h. absurd (omega arith) }
  where
    readable : (i : ℕ) → i < 1 → (compare_in_index cells search_c last_leaf i).0 ≢ no_cell
    readable zero h = λ e. cc
    readable (suc i) h = absurd (omega arith)

leaf-IsLeaf : IsLeaf cells leaf search_c
leaf-IsLeaf = record {
  small = omega arith;
  cells = λ k p e. omega arith;
  sorted = leaf-IsOrdered;
  hashed = λ e k p f. absurd (omega arith);
}

last_leaf-IsLeaf : IsLeaf cells last_leaf search_c
last_leaf-IsLeaf = record {
  small = omega arith;
  cells = λ k p e. omega arith;
  sorted = last_leaf-IsOrdered;
  hashed = λ e k p f. absurd (omega arith);
}

root-IsTree : IsTree cells root search_c
root-IsTree = record {
  root_lem = root-IsRoot;
  small = omega arith;
  leaves = leaves;
  cells = λ i p e. omega arith;
}
  where
    leaves :
        (i : ℕ)
        → i < 2
        → (leaf : KeyIndex) × (cells.index (20 + i) ≡ some leaf) × IsLeaf cells leaf search_c
    leaves zero h = (leaf, refl, leaf-IsLeaf)
    leaves (suc zero) h = (last_leaf, refl, last_leaf-IsLeaf)
    leaves (suc (suc i)) h = absurd (omega arith)

-- A key with the four subkeys.
abbrev parent : KeyNode
parent = record {
  comp_name = true;
  name_length = 1;
  name = λ i. b'P';
  stable_count = 4;
  volatile_count = 0;
  stable_list = 30;
  volatile_list = 0;
}

root-IsIndex : IsIndex cells 30 search_c
root-IsIndex = record {
  index = root;
  read = refl;
  as_root = λ e. root-IsTree;
  as_leaf = λ e. absurd (cc);
}

find_sub_key_by_name-IsChild_example :
    (c : ℕ) × (find_sub_key_by_name cells parent search_c ≡ some c)
    × IsChild cells parent search_c c
find_sub_key_by_name-IsChild_example = find_sub_key_by_name-IsChild cells parent search_c refl lists
  where
    lists :
        (i : ℕ)
        → i < 2
        → 0 < (if i == 0 then 4 else 0)
        → IsIndex cells (if i == 0 then 30 else 0) search_c
    lists zero h p = root-IsIndex
    lists (suc zero) h p = absurd (omega arith)
    lists (suc (suc i)) h p = absurd (omega arith)

c_is_found : find_sub_key_by_name cells parent search_c ≡ some 11
unfolding find_sub_key_by_name by_name_loop search_list search_root search_leaf after_search
    find_sub_key_in_root root_loop root_finish root_high find_sub_key_in_leaf leaf_loop finish
    finish_high program
c_is_found = refl

root-IsReadable : IsReadable cells 30
root-IsReadable index e root_index =
    subst (λ x. (i : ℕ) → i < x.count → cells.index (x.cell i) ≢ none) same readable
  where
    same : root ≡ index
    same = cc

    readable : (i : ℕ) → i < 2 → cells.index (20 + i) ≢ none
    readable zero h = λ f. cc
    readable (suc zero) h = λ f. cc
    readable (suc (suc i)) h = absurd (omega arith)

find_sub_key_by_number-sub_keys_example :
    find_sub_key_by_number cells parent 3
    ≡ get_or (sub_keys cells 30 ++ sub_keys cells 0) 3 hcell_nil
find_sub_key_by_number-sub_keys_example =
    find_sub_key_by_number-sub_keys cells parent 3 refl refl refl root-IsReadable
      (λ index e. absurd (cc))

g_is_the_fourth : get_or (sub_keys cells 30 ++ sub_keys cells 0) 3 hcell_nil ≡ 13
g_is_the_fourth = refl

-- Cell 5 lists the values in cells 6 and 7, P and RUN.
abbrev values : ValueCells
values = record {
  key_list = λ c. if c == 5 then some (λ i. 6 + i) else none;
  value = λ c.
      if c == 6
      then some (record { comp_name = true; name_length = 1; name = λ i. b'P' })
      else if c == 7
      then some (record { comp_name = true; name_length = 3; name = run_bytes })
      else none;
}

find_name_in_list-IsAnswer_example :
    IsAnswer values
      (λ i. 6 + i)
      run_name
      0
      2
      (find_name_in_list values (record { count = 2; list = 5 }) run_name)
find_name_in_list-IsAnswer_example =
    find_name_in_list-IsAnswer values (record { count = 2; list = 5 }) run_name (λ i. 6 + i) refl

run_is_the_second :
    find_name_in_list values (record { count = 2; list = 5 }) run_name
    ≡ record { success = true; child_index = some 1; cell_index = 7 }
unfolding find_name_in_list name_loop has_name program
run_is_the_second = refl
