-- ===== src/Index/Leaf/Search.antt =====
-- The binary search of core/cmindex.cpp ends, and on an ordered leaf it returns the entry with the
-- name searched for if there is one, and otherwise an entry beside which the name belongs.
use ntreg.Base.{
  ℕ, zero, suc, ◌+◌, ◌-◌, ◌/◌, ◌≤◌, ◌<◌, ◌≡◌, refl, ◌≢◌, ◌⊎◌, inl, inr, true, leb, ◌==◌, arith,
  Bool-cases, pos→not_zero, ◌∙◌,
}
use native.Mathlib.Decide.{dec_lt}
use ntreg.Names.Text.{UnicodeString}
use ntreg.Index.Data.{KeyIndex, Cells, hcell_nil}
use ntreg.Index.Compare.{Order, below, equal, above, no_cell, compare_in_index, full_compare}
use ntreg.Index.Leaf.{Found, result, stuck, finish_high, finish, leaf_loop, find_sub_key_in_leaf}

-- The first `n` entries can be read and stand in order: those behind an entry that is not below
-- the name searched for are above it.
pub record IsOrdered (compare : ℕ → Order × ℕ) (n : ℕ) : Type 0 where
  pub readable : (i : ℕ) → i < n → (compare i).0 ≢ no_cell
  pub ordered : (i j : ℕ) → i < j → j < n → (compare i).0 ≢ above → (compare j).0 ≡ below

-- The name is above every entry before the one returned and below every entry behind it, and
-- *SubKey is what the comparison of that entry gave.
abbrev pub Located : (ℕ → Order × ℕ) → (n : ℕ) → Found → Type 0
Located compare n (result r sub_key) =
    (r < n)
    × ((j : ℕ) → j < r → (compare j).0 ≡ above)
    × ((j : ℕ) → r < j → j < n → (compare j).0 ≡ below)
    × (sub_key ≡ (compare r).1)
Located compare n stuck = ⊥

module _ (compare : ℕ → Order × ℕ) (n : ℕ) (o : IsOrdered compare n) where
  -- The bounds of the search: nothing outside of them is the name.
  pub record Bounds (low high : ℕ) : Type 0 where
    pub lower : (j : ℕ) → j < low → (compare j).0 ≡ above
    pub upper : (j : ℕ) → high < j → j < n → (compare j).0 ≡ below
    pub order : low ≤ high
    pub inside : high < n

  at :
      (r : ℕ)
      → r < n
      → (compare r).0 ≢ above
      → ((j : ℕ) → j < r → (compare j).0 ≡ above)
      → Located compare n (result r (compare r).1)
  at r h stop before = (h, before, λ j p q. o.ordered r j p q stop, refl)

  pub Order-cases : (r : Order) → (r ≡ no_cell) ⊎ ((r ≡ equal) ⊎ ((r ≡ below) ⊎ (r ≡ above)))
  Order-cases no_cell = inl refl
  Order-cases equal = inr (inl refl)
  Order-cases below = inr (inr (inl refl))
  Order-cases above = inr (inr (inr refl))

  -- All entries before one that is not below are above.
  pub above_before :
      (i : ℕ) → i < n → (compare i).0 ≢ below → (j : ℕ) → j < i → (compare j).0 ≡ above
  above_before i h e j p = elim (Order-cases (compare j).0) [
    | inl m ↦ absurd (o.readable j (omega arith) m)
    | inr (inl q) ↦ absurd (e (o.ordered j i p h (λ a. cc)))
    | inr (inr (inl b)) ↦ absurd (e (o.ordered j i p h (λ a. cc)))
    | inr (inr (inr a)) ↦ a
  ]

  pub above_upto : (i : ℕ) → i < n → (compare i).0 ≡ above → (j : ℕ) → j ≤ i → (compare j).0 ≡ above
  above_upto i h e j p = elim (dec_lt j i) [
    | no same ↦ let eq : j ≡ i = omega arith in rw eq e
    | yes less ↦ above_before i h (λ b. cc) j less
  ]

  -- With all entries before it above, the high entry can be returned.
  finish_high-Located :
      (high : ℕ)
      → high < n
      → ((j : ℕ) → j < high → (compare j).0 ≡ above)
      → ((j : ℕ) → high < j → j < n → (compare j).0 ≡ below)
      → Located compare n (finish_high compare high)
  unfolding finish_high
  finish_high-Located high h before after = elim (Order-cases (compare high).0) [
    | inl e ↦ absurd (o.readable high h e)
    | inr (inl e) ↦ rw (e, finish_high) (h, before, after, refl)
    | inr (inr (inl e)) ↦ rw (e, finish_high) (h, before, after, refl)
    | inr (inr (inr e)) ↦ rw (e, finish_high) (h, before, after, refl)
  ]

  finish-Located :
      (low high : ℕ)
      → Bounds low high
      → high ≤ low + 1
      → Located compare n (finish compare low high)
  unfolding finish
  finish-Located low high b close =
      let h : low < n = omega (arith, b.order, b.inside) in
      elim (Order-cases (compare low).0) [
        | inl e ↦ absurd (o.readable low h e)
        | inr (inl e) ↦ rw (e, finish) (at low h (λ a. cc) b.lower)
        | inr (inr (inl e)) ↦ rw (e, finish) (at low h (λ a. cc) b.lower)
        | inr (inr (inr e)) ↦
            rw (e, finish)
              (finish_high-Located high b.inside (λ j p. above_upto low h e j (omega arith))
                b.upper)
      ]

  leaf_loop-Located :
      (f low high i : ℕ)
      → Bounds low high
      → i ≡ (high - low) / 2 + low
      → high - low < f
      → Located compare n (leaf_loop f compare low high i)
  unfolding leaf_loop
  leaf_loop-Located zero low high i b mid fuel = absurd (omega arith)
  leaf_loop-Located (suc f) low high i b mid fuel =
      let h : i < n = omega (arith, b.order, b.inside) in
      elim (Order-cases (compare i).0) [
        | inl e ↦ absurd (o.readable i h e)
        | inr (inl e) ↦ rw (e, leaf_loop) (at i h (λ a. cc) (above_before i h (λ b. cc)))
        | inr (inr (inl e)) ↦
            let b' : Bounds low i = record {
              lower = b.lower;
              upper = λ j p q. o.ordered i j p q (λ a. cc);
              order = omega (arith, b.order);
              inside = h;
            } in
            elim (Bool-cases (leb (i - low) 1)) [
              | inl close ↦ rw (e, leaf_loop, close) (finish-Located low i b' (ground arith))
              | inr wide ↦
                  rw (e, leaf_loop, wide)
                    (leaf_loop-Located f low i ((i - low) / 2 + low) b' refl (ground arith))
            ]
        | inr (inr (inr e)) ↦
            let b' : Bounds i high = record {
              lower = λ j p. above_upto i h e j (omega arith);
              upper = b.upper;
              order = omega (arith, b.order);
              inside = b.inside;
            } in
            elim (Bool-cases (leb (high - i) 1)) [
              | inl close ↦ rw (e, leaf_loop, close) (finish-Located i high b' (ground arith))
              | inr wide ↦
                  rw (e, leaf_loop, wide)
                    (leaf_loop-Located f i high ((high - i) / 2 + i) b' refl (ground arith))
            ]
      ]

module _ (h : Cells) (index : KeyIndex) (search : UnicodeString)
    (o : IsOrdered (compare_in_index h search index) index.count)
    (some_entries : 0 < index.count) where
  -- On an ordered leaf that is not empty the search ends, at an entry with only smaller names
  -- before it and only greater names behind it.
  pub find_sub_key_in_leaf-Located :
      Located (compare_in_index h search index) index.count (find_sub_key_in_leaf h index search)
  unfolding find_sub_key_in_leaf
  find_sub_key_in_leaf-Located = rw (pos→not_zero index.count some_entries) (
      leaf_loop-Located (compare_in_index h search index) index.count o index.count 0
        (index.count - 1) ((index.count - 1) / 2)
        (record {
          lower = λ j p. absurd (omega arith);
          upper = λ j p q. absurd (omega arith);
          order = omega arith;
          inside = omega arith;
        })
        (omega arith) (omega arith))

-- *SubKey is the cell of the entry where the names are equal, and HCELL_NIL elsewhere.
compare_in_index-cell :
    (h : Cells) (search : UnicodeString) (index : KeyIndex) (i : ℕ)
    → (compare_in_index h search index i).1
      ≡ elim (compare_in_index h search index i).0 [ equal ↦ index.cell i | _ ↦ hcell_nil ]
unfolding compare_in_index full_compare
compare_in_index-cell h search index i = ground arith

cell_of_equal :
    (h : Cells) (search : UnicodeString) (index : KeyIndex) (i : ℕ)
    → (compare_in_index h search index i).0 ≡ equal
    → (compare_in_index h search index i).1 ≡ index.cell i
cell_of_equal h search index i e = ground (arith, compare_in_index-cell h search index i)

cell_of_other :
    (h : Cells) (search : UnicodeString) (index : KeyIndex) (i : ℕ)
    → (compare_in_index h search index i).0 ≢ equal
    → (compare_in_index h search index i).1 ≡ hcell_nil
cell_of_other h search index i e = ground (arith, compare_in_index-cell h search index i)

-- A search is right: the entry whose name is equal is found with its cell, and without such an
-- entry no cell is.
abbrev pub Finds : Cells → UnicodeString → KeyIndex → Found → Type 0
Finds h search index stuck = ⊥
Finds h search index (result r sub_key) =
    ((i : ℕ)
      → i < index.count
      → (compare_in_index h search index i).0 ≡ equal
      → (r ≡ i) × (sub_key ≡ index.cell i))
    × (((i : ℕ) → i < index.count → (compare_in_index h search index i).0 ≢ equal)
        → sub_key ≡ hcell_nil)

Located-Finds :
    (h : Cells) (search : UnicodeString) (index : KeyIndex) (f : Found)
    → Located (compare_in_index h search index) index.count f
    → Finds h search index f
Located-Finds h search index stuck l = l
Located-Finds h search index (result r sub_key) (inside, before, after, cell) = (
  λ i p e. elim (dec_lt i r) [
    | yes less ↦ absurd (ground (arith, before i less))
    | no le ↦ elim (dec_lt r i) [
      | yes more ↦ absurd (ground (arith, after i more p))
      | no ge ↦
          let same : r ≡ i = omega arith in
          (same, cell ∙ rw same (cell_of_equal h search index i e))
    ]
  ],
  λ other. cell ∙ cell_of_other h search index r (other r inside),
)

-- The binary search in an ordered leaf, of any number of entries, ends. If an entry has an equal
-- name, its index and cell are returned, and if none has, *SubKey is HCELL_NIL.
pub find_sub_key_in_leaf-Finds :
    (h : Cells) (index : KeyIndex) (search : UnicodeString)
    → IsOrdered (compare_in_index h search index) index.count
    → Finds h search index (find_sub_key_in_leaf h index search)
unfolding find_sub_key_in_leaf
find_sub_key_in_leaf-Finds h index search o = elim (dec_lt 0 index.count) [
  | yes more ↦
      Located-Finds h search index (find_sub_key_in_leaf h index search)
        (find_sub_key_in_leaf-Located h index search o more)
  | no empty ↦
      let none_here : (index.count == 0) ≡ true = ground arith in
      rw none_here (λ i p. absurd (omega arith), λ other. refl)
]
