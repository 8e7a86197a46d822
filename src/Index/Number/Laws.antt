-- ===== src/Index/Number/Laws.antt =====
-- The numbers that core/cmindex.cpp gives to the subkeys of a key count through its leaves, in
-- order, those of the stable storage first.
use ntreg.Base.{
  lt→ltb, not_lt→ltb, Option, ℕ, zero, suc, ◌+◌, ◌-◌, ◌≤◌, ◌<◌, ◌≡◌, refl, ◌≢◌, List, [], ◌∷◌, ◌++◌,
  none, some, ◌==◌, if◌then◌else◌, arith, inl, inr, Bool-cases, get_or, length, length-append,
}
use native.Mathlib.Decide.{dec_lt}
use mathlib.Core.Path.{subst, sym}
use ntreg.Index.Data.{KeyNode, KeyIndex, Cells, hcell_nil, key_index_root}
use ntreg.Index.Number.{
  number_loop, do_find_sub_key_by_number, find_in_list, find_sub_key_by_number,
}

-- The cells of a leaf.
abbrev leaf_cells : (n : ℕ) → (ℕ → ℕ) → (i : ℕ) → List ℕ
leaf_cells zero cell i = []
leaf_cells (suc n) cell i = cell i ∷ leaf_cells n cell (i + 1)

abbrev cells_in : Cells → ℕ → List ℕ
cells_in h c = elim (h.index c) [ none ↦ [] | some leaf ↦ leaf_cells leaf.count leaf.cell 0 ]

-- The cells of the leaves of a root.
abbrev root_cells : (n : ℕ) → Cells → KeyIndex → (i : ℕ) → List ℕ
root_cells zero h index i = []
root_cells (suc n) h index i = cells_in h (index.cell i) ++ root_cells n h index (i + 1)

-- The subkeys that an index holds.
abbrev pub sub_keys : Cells → (list : ℕ) → List ℕ
sub_keys h list = elim (h.index list) [
  | none ↦ []
  | some index ↦
      if index.signature == key_index_root
      then root_cells index.count h index 0
      else leaf_cells index.count index.cell 0
]

-- Every leaf of a root can be read.
abbrev pub IsReadable : Cells → (list : ℕ) → Type 0
IsReadable h list =
    (index : KeyIndex)
    → h.index list ≡ some index
    → index.signature ≡ key_index_root
    → (i : ℕ) → i < index.count
    → h.index (index.cell i) ≢ none

get_or-append_left :
    (xs ys : List ℕ) (n d : ℕ) → n < length xs → get_or (xs ++ ys) n d ≡ get_or xs n d
get_or-append_left [] ys n d h = absurd (omega arith)
get_or-append_left (x ∷ xs) ys zero d h = refl
get_or-append_left (x ∷ xs) ys (suc n) d h = get_or-append_left xs ys n d (omega arith)

get_or-append_right :
    (xs ys : List ℕ) (n d : ℕ) → length xs ≤ n → get_or (xs ++ ys) n d ≡ get_or ys (n - length xs) d
get_or-append_right [] ys n d h = let e : n - 0 ≡ n = omega arith in rw e refl
get_or-append_right (x ∷ xs) ys zero d h = absurd (omega arith)
get_or-append_right (x ∷ xs) ys (suc n) d h =
    let e : suc n - suc (length xs) ≡ n - length xs = omega arith in
    rw e (get_or-append_right xs ys n d (omega arith))

length-leaf_cells : (n : ℕ) (cell : ℕ → ℕ) (i : ℕ) → length (leaf_cells n cell i) ≡ n
length-leaf_cells zero cell i = refl
length-leaf_cells (suc n) cell i = omega (arith, length-leaf_cells n cell (i + 1))

get_or-leaf_cells :
    (n : ℕ) (cell : ℕ → ℕ) (i k d : ℕ) → k < n → get_or (leaf_cells n cell i) k d ≡ cell (i + k)
get_or-leaf_cells zero cell i k d h = absurd (omega arith)
get_or-leaf_cells (suc n) cell i zero d h = let e : i + 0 ≡ i = omega arith in rw e refl
get_or-leaf_cells (suc n) cell i (suc k) d h =
    let e : i + suc k ≡ i + 1 + k = omega arith in
    rw e (get_or-leaf_cells n cell (i + 1) k d (omega arith))

get_or-first_cells :
    (n : ℕ) (cell : ℕ → ℕ) (k d : ℕ) → k < n → get_or (leaf_cells n cell 0) k d ≡ cell k
get_or-first_cells n cell k d h =
    let e : 0 + k ≡ k = omega arith in rw (get_or-leaf_cells n cell 0 k d h, e) refl

get_or_out : (xs : List ℕ) (n d : ℕ) → length xs ≤ n → get_or xs n d ≡ d
get_or_out [] n d h = refl
get_or_out (x ∷ xs) zero d h = absurd (omega arith)
get_or_out (x ∷ xs) (suc n) d h = get_or_out xs n d (omega arith)

module _ (h : Cells) (index : KeyIndex) where
  number_loop-root_cells :
      (left number i : ℕ)
      → ((j : ℕ) → i ≤ j → j < i + left → h.index (index.cell j) ≢ none)
      → number < length (root_cells left h index i)
      → number_loop left h index number i ≡ get_or (root_cells left h index i) number hcell_nil
  unfolding number_loop
  number_loop-root_cells zero number i readable inside = absurd (omega arith)
  number_loop-root_cells (suc left) number i readable inside =
      step (h.index (index.cell i)) refl (λ k.
        number_loop-root_cells left k (i + 1) (λ j p q. readable j (omega arith) (omega arith)))
    where
      step :
          (o : Option KeyIndex)
          → h.index (index.cell i) ≡ o
          → ((k : ℕ)
              → k < length (root_cells left h index (i + 1))
              → number_loop left h index k (i + 1)
                ≡ get_or (root_cells left h index (i + 1)) k hcell_nil)
          → number_loop (suc left) h index number i
            ≡ get_or (root_cells (suc left) h index i) number hcell_nil
      step none e others = absurd (readable i (omega arith) (omega arith) e)
      step (some leaf) e others =
          let size : length (leaf_cells leaf.count leaf.cell 0) ≡ leaf.count =
            length-leaf_cells leaf.count leaf.cell 0 in
          elim (dec_lt number leaf.count) [
            | yes here ↦
                rw
                  (
                    e,
                    number_loop,
                    cells_in,
                    lt→ltb number leaf.count here,
                    get_or-append_left (leaf_cells leaf.count leaf.cell 0)
                        (root_cells left h index (i + 1)) number hcell_nil (omega arith),
                    get_or-first_cells leaf.count leaf.cell number hcell_nil here,
                  )
                  refl
            | no behind ↦
                rw
                  (
                    e,
                    number_loop,
                    cells_in,
                    not_lt→ltb number leaf.count behind,
                    get_or-append_right (leaf_cells leaf.count leaf.cell 0)
                        (root_cells left h index (i + 1)) number hcell_nil (omega arith),
                    size,
                  )
                  (others (number - leaf.count) (
                    let both : length (cells_in h (index.cell i) ++ root_cells left h index (i + 1))
                        ≡ length (cells_in h (index.cell i))
                          + length (root_cells left h index (i + 1)) =
                      length-append (cells_in h (index.cell i)) (root_cells left h index (i + 1)) in
                    let first : length (cells_in h (index.cell i)) ≡ leaf.count =
                      rw (e, cells_in) size in
                    omega arith))
          ]

-- The number of a subkey in an index counts through its leaves.
pub do_find_sub_key_by_number-sub_keys :
    (h : Cells) (list : ℕ) (number : ℕ)
    → IsReadable h list
    → number < length (sub_keys h list)
    → find_in_list h list number ≡ get_or (sub_keys h list) number hcell_nil
unfolding find_in_list do_find_sub_key_by_number
do_find_sub_key_by_number-sub_keys h list number readable inside = step (h.index list) refl
  where
    step :
        (o : Option KeyIndex)
        → h.index list ≡ o
        → find_in_list h list number ≡ get_or (sub_keys h list) number hcell_nil
    step none e = rw (e, find_in_list, sub_keys) refl
    step (some index) e = elim (Bool-cases (index.signature == key_index_root)) [
      | inl root ↦
          rw (e, find_in_list, sub_keys, do_find_sub_key_by_number, root)
            (number_loop-root_cells h index index.count number 0
              (λ j p q. readable index e (ground arith) j (omega arith))
              (subst (λ l. number < length l)
                (let c : sub_keys h list ≡ root_cells index.count h index 0 =
                    rw (e, sub_keys, root) refl in
                  c)
                inside))
      | inr leaf ↦
          rw (e, find_in_list, sub_keys, do_find_sub_key_by_number, leaf)
            (sym (
              get_or-first_cells index.count index.cell number hcell_nil (
                let c : length (sub_keys h list) ≡ index.count =
                  rw (e, sub_keys, leaf) (length-leaf_cells index.count index.cell 0) in
                omega arith)))
    ]

-- A key with as many subkeys as its two indexes hold: the subkey with a number is the one at that
-- place of the stable ones followed by the volatile ones, and there is none with a number beyond.
pub find_sub_key_by_number-sub_keys :
    (h : Cells) (node : KeyNode) (number : ℕ)
    → h.storage_type_count ≡ 2
    → node.stable_count ≡ length (sub_keys h node.stable_list)
    → node.volatile_count ≡ length (sub_keys h node.volatile_list)
    → IsReadable h node.stable_list
    → IsReadable h node.volatile_list
    → find_sub_key_by_number h node number
      ≡ get_or (sub_keys h node.stable_list ++ sub_keys h node.volatile_list) number hcell_nil
unfolding find_sub_key_by_number
find_sub_key_by_number-sub_keys h node number both stable volatile stable_readable
      volatile_readable =
    elim (dec_lt number node.stable_count) [
      | yes first ↦
          rw
            (
              lt→ltb number node.stable_count first,
              get_or-append_left (sub_keys h node.stable_list) (sub_keys h node.volatile_list)
                  number hcell_nil (omega arith),
            )
            (do_find_sub_key_by_number-sub_keys h node.stable_list number stable_readable
              (omega arith))
      | no behind ↦ ground (
        arith,
        get_or-append_right (sub_keys h node.stable_list) (sub_keys h node.volatile_list) number
            hcell_nil (omega arith),
        do_find_sub_key_by_number-sub_keys h node.volatile_list (number - node.stable_count)
            volatile_readable,
        get_or_out (sub_keys h node.volatile_list) (number - node.stable_count) hcell_nil,
      )
    ]
