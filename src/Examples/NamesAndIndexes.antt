-- ===== src/Examples/NamesAndIndexes.antt =====
-- core/cmname.cpp and core/cmindex.cpp at short names, and at a fast leaf of three keys.
use ntreg.Base.{
  ℕ, zero, suc, ◌+◌, ◌*◌, ◌≤◌, ◌<◌, ◌≡◌, ◌≢◌, ◌↔◌, refl, true, List, [], ◌∷◌, ltb, some, none,
  arith, if◌then◌else◌, ◌==◌, get_or, length, min,
}
use ntreg.Base.Int.{pos}
use ntreg.Names.Text.{UnicodeString, Bytes, count, upcase}
use ntreg.Names.Compress.{copy_name, copy_loop}
use ntreg.Names.Compress.Laws.{stored_char, copy_name-roundtrip}
use ntreg.Names.Compare.{
  compare_compressed_name, compressed_loop, compare_unicode_string, unicode_loop, fold_case,
}
use ntreg.Names.Compare.Laws.{SameLetters, compare_compressed_name_iff, compare_unicode_string_iff}
use ntreg.Index.Data.{KeyNode, KeyIndex, Cells, key_fast_leaf, key_index_root}
use ntreg.Index.Compare.{
  below, equal, above, no_cell, do_compare_key_name, full_compare, hint_loop, compare_in_index,
}
use ntreg.Index.Compare.Hint.{IsHint, compare_in_index-full_compare}
use ntreg.Index.Leaf.{result, find_sub_key_in_leaf, leaf_loop, finish, finish_high}
use ntreg.Index.Leaf.Search.{
  IsOrdered, Located, Finds, find_sub_key_in_leaf-Located, find_sub_key_in_leaf-Finds,
}
use ntreg.Index.Hash.{compute_hash_key, hash_loop, hash_value, find_sub_key_by_hash}
use ntreg.Index.Hash.Laws.{ByHash, find_sub_key_by_hash-ByHash}

-- A string over a list of characters, with a terminator behind.
abbrev pub string : List ℕ → UnicodeString
string cs = record { length = 2 * length cs; buffer = λ i. get_or cs i 0 }

abbrev pub run_name : UnicodeString
run_name = string (b'R' ∷ b'u' ∷ b'n' ∷ [])

abbrev wide_name : UnicodeString
wide_name = string (b'R' ∷ 0x4E2D ∷ [])

wide-IsWide : (i : ℕ) → wide_name.buffer i < 0x1_0000
wide-IsWide zero = omega arith
wide-IsWide (suc zero) = omega arith
wide-IsWide (suc (suc i)) = omega arith

copy_name-roundtrip_example :
    stored_char (ltb (copy_name 5 (λ j. 0) wide_name).1 4) 4 (copy_name 5 (λ j. 0) wide_name) 1
    ≡ 0x4E2D
copy_name-roundtrip_example = copy_name-roundtrip 5 (λ j. 0) wide_name wide-IsWide 1 (omega arith)

run_is_compressed : (copy_name 5 (λ j. 0) run_name).1 ≡ 3
unfolding copy_name copy_loop
run_is_compressed = refl

-- The same name in capitals, as bytes.
abbrev pub run_bytes : Bytes
run_bytes i = get_or (b'R' ∷ b'U' ∷ b'N' ∷ []) i 0

compare_compressed_name_iff_example :
    (compare_compressed_name run_name run_bytes 3 ≡ pos 0)
    ↔ ((count run_name ≡ 3) × SameLetters run_name.buffer run_bytes 0 (count run_name))
compare_compressed_name_iff_example =
    compare_compressed_name_iff run_name run_bytes 3 (omega arith) (omega arith)

same_name : compare_compressed_name run_name run_bytes 3 ≡ pos 0
unfolding compare_compressed_name compressed_loop upcase
same_name = refl

-- The name in a path, with a separator behind it.
abbrev run_in_path : UnicodeString
run_in_path = record {
  length = 6;
  buffer = λ i. get_or (b'R' ∷ b'u' ∷ b'n' ∷ 0x5C ∷ b'A' ∷ []) i 0;
}

compare_unicode_string_iff_example : (compare_unicode_string run_in_path run_name true ≡ pos 0) ↔ (
    (j : ℕ)
    → j ≤ min (count run_in_path) (count run_name)
    → fold_case true (run_in_path.buffer j) ≡ fold_case true (run_name.buffer j))
compare_unicode_string_iff_example = compare_unicode_string_iff run_in_path run_name true

same_name_differs : compare_unicode_string run_in_path run_name true ≡ pos 1
unfolding compare_unicode_string unicode_loop upcase
same_name_differs = refl

abbrev pub key : ℕ → KeyNode
key c = record {
  comp_name = true;
  name_length = 1;
  name = λ i. if i == 0 then c else 0;
  stable_count = 0;
  volatile_count = 0;
  stable_list = 0;
  volatile_list = 0;
}

abbrev letter : ℕ → ℕ
letter i = b'A' + 2 * i

abbrev pub leaf : KeyIndex
leaf = record {
  signature = key_fast_leaf;
  count = 3;
  cell = λ i. 10 + i;
  name_hint = λ i j. if j == 0 then letter i else 0;
  hash_key = λ i. letter i;
}

-- A second leaf, of one key, and the root of both.
abbrev pub last_leaf : KeyIndex
last_leaf = record {
  signature = key_fast_leaf;
  count = 1;
  cell = λ i. 13;
  name_hint = λ i j. if j == 0 then b'G' else 0;
  hash_key = λ i. b'G';
}

abbrev pub root : KeyIndex
root = record {
  signature = key_index_root;
  count = 2;
  cell = λ i. 20 + i;
  name_hint = λ i j. 0;
  hash_key = λ i. 0;
}

-- Cells 10 to 13 hold the keys A, C, E and G, cells 20, 21 and 30 the leaves and the root.
abbrev pub cells : Cells
cells = record {
  node = λ c.
      if c == 10
      then some (key b'A')
      else if c == 11
      then some (key b'C')
      else if c == 12
      then some (key b'E')
      else if c == 13
      then some (key b'G')
      else none;
  index = λ c.
      if c == 20
      then some leaf
      else if c == 21
      then some last_leaf
      else if c == 30
      then some root
      else none;
  storage_type_count = 2;
}

abbrev pub search_c : UnicodeString
search_c = string (b'c' ∷ [])

unfoldable pub program : Unit {0}
unfolding compare_in_index full_compare do_compare_key_name compare_compressed_name compressed_loop
    hint_loop upcase compute_hash_key hash_loop hash_value
program = tt

pub leaf-IsOrdered : IsOrdered (compare_in_index cells search_c leaf) 3
unfolding program
leaf-IsOrdered = record { readable = readable; ordered = ordered }
  where
    readable : (i : ℕ) → i < 3 → (compare_in_index cells search_c leaf i).0 ≢ no_cell
    readable zero h = λ e. cc
    readable (suc zero) h = λ e. cc
    readable (suc (suc zero)) h = λ e. cc
    readable (suc (suc (suc i))) h = absurd (omega arith)

    ordered :
        (i j : ℕ)
        → i < j
        → j < 3
        → (compare_in_index cells search_c leaf i).0 ≢ above
        → (compare_in_index cells search_c leaf j).0 ≡ below
    ordered i (suc (suc zero)) p q h = refl
    ordered zero (suc zero) p q h = absurd (h refl)
    ordered (suc i) (suc zero) p q h = absurd (omega arith)
    ordered i zero p q h = absurd (omega arith)
    ordered i (suc (suc (suc j))) p q h = absurd (omega arith)

find_sub_key_in_leaf-Located_example :
    Located (compare_in_index cells search_c leaf) 3 (find_sub_key_in_leaf cells leaf search_c)
find_sub_key_in_leaf-Located_example =
    find_sub_key_in_leaf-Located cells leaf search_c leaf-IsOrdered (omega arith)

find_sub_key_in_leaf-Finds_example :
    Finds cells search_c leaf (find_sub_key_in_leaf cells leaf search_c)
find_sub_key_in_leaf-Finds_example = find_sub_key_in_leaf-Finds cells leaf search_c leaf-IsOrdered

c_is_found : find_sub_key_in_leaf cells leaf search_c ≡ result 1 11
unfolding find_sub_key_in_leaf leaf_loop finish finish_high program
c_is_found = refl

c_IsHint : IsHint (key b'C') (leaf.name_hint 1)
c_IsHint = record {
  compressed = refl;
  prefix = λ j h p. ground arith;
  padding = λ j h p. ground arith;
}

compare_in_index-full_compare_example :
    compare_in_index cells search_c leaf 1 ≡ full_compare cells search_c 11
compare_in_index-full_compare_example =
    compare_in_index-full_compare cells search_c leaf 1 (key b'C') refl c_IsHint

c_is_hashed :
    (k : ℕ)
    → k < 3
    → do_compare_key_name cells search_c (10 + k) ≡ equal
    → letter k ≡ compute_hash_key 0 search_c
unfolding program
c_is_hashed zero h e = absurd (cc)
c_is_hashed (suc zero) h e = refl
c_is_hashed (suc (suc zero)) h e = absurd (cc)
c_is_hashed (suc (suc (suc k))) h e = absurd (omega arith)

find_sub_key_by_hash-ByHash_example :
    ByHash cells leaf search_c 0 3 (find_sub_key_by_hash cells leaf search_c)
find_sub_key_by_hash-ByHash_example = find_sub_key_by_hash-ByHash cells leaf search_c c_is_hashed
