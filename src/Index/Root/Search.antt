-- ===== src/Index/Root/Search.antt =====
-- The binary search in a root of core/cmindex.cpp ends, at the only leaf whose range the name is in.
use ntreg.Base.{
  ℕ, zero, suc, ◌+◌, ◌-◌, ◌/◌, ◌≤◌, ◌<◌, ◌≡◌, refl, ◌≢◌, ◌⊎◌, inl, inr, leb, some, arith,
  Bool-cases, sub32, ulong,
}
use native.Mathlib.Decide.{dec_lt}
use mathlib.Core.Path.{subst}
use ntreg.Names.Text.{UnicodeString}
use ntreg.Index.Data.{KeyIndex, Cells, hcell_nil}
use ntreg.Index.Compare.{Order, below, equal, above, no_cell, compare_in_index}
use ntreg.Index.Leaf.{Found, result, stuck}
use ntreg.Index.Leaf.Search.{IsOrdered, Bounds, Order-cases, above_before, above_upto}
use ntreg.Index.Root.{
  compare_last, compare_range, root_high, root_finish, root_loop, find_sub_key_in_root,
}

-- The name is within no other leaf than the one returned; *SubKey is the cell of that leaf, or
-- HCELL_NIL, which it is not if the name is within the leaf.
abbrev pub IsLeafOf : (range : ℕ → Order) → (cell : ℕ → ℕ) → (n : ℕ) → Found → Type 0
IsLeafOf range cell n stuck = ⊥
IsLeafOf range cell n (result r sub_key) =
    (r < n)
    × ((j : ℕ) → j < n → range j ≡ equal → r ≡ j)
    × ((sub_key ≡ cell r) ⊎ ((sub_key ≡ hcell_nil) × (range r ≢ equal)))

-- The ranges as comparisons of entries, to use what is known of the search in a leaf.
abbrev as_entries : (ℕ → Order) → ℕ → Order × ℕ
as_entries range i = (range i, 0)

module _ (range last : ℕ → Order) (cell : ℕ → ℕ) (n : ℕ) (o : IsOrdered (as_entries range) n)
    (last_lem : (i : ℕ) → i < n → range i ≢ above → (last i ≡ below) ⊎ (last i ≡ equal))
    (last_above : (i : ℕ) → range i ≡ above → last i ≡ above) where
  -- Where the entries before are above and those behind are below.
  only :
      (r : ℕ)
      → ((j : ℕ) → j < r → range j ≡ above)
      → ((j : ℕ) → r < j → j < n → range j ≡ below)
      → (j : ℕ) → j < n
      → range j ≡ equal
      → r ≡ j
  only r before after j inside e = elim (dec_lt j r) [
    | yes less ↦ absurd (ground (arith, before j less))
    | no le ↦ elim (dec_lt r j) [
      | yes more ↦ absurd (ground (arith, after j more inside))
      | no ge ↦ omega arith
    ]
  ]

  root_high-IsLeafOf :
      (high : ℕ)
      → high < n
      → ((j : ℕ) → j < high → range j ≡ above)
      → ((j : ℕ) → high < j → j < n → range j ≡ below)
      → IsLeafOf range cell n (root_high last cell high)
  unfolding root_high
  root_high-IsLeafOf high h before after = elim (Order-cases _ n o (range high)) [
    | inl e ↦ absurd (o.readable high h e)
    | inr (inr (inr e)) ↦
        rw (last_above high e, root_high) (h, only high before after, inr (refl, λ f. cc))
    | inr (inr (inl e)) ↦ elim (last_lem high h (λ f. cc)) [
      | inl l ↦ rw (l, root_high) (h, only high before after, inl refl)
      | inr l ↦ rw (l, root_high) (h, only high before after, inl refl)
    ]
    | inr (inl e) ↦ elim (last_lem high h (λ f. cc)) [
      | inl l ↦ rw (l, root_high) (h, only high before after, inl refl)
      | inr l ↦ rw (l, root_high) (h, only high before after, inl refl)
    ]
  ]

  root_finish-IsLeafOf :
      (low high : ℕ)
      → Bounds (as_entries range) n o low high
      → high ≤ low + 1
      → IsLeafOf range cell n (root_finish range last cell low high)
  unfolding root_finish
  root_finish-IsLeafOf low high b close =
      let h : low < n = omega (arith, b.order, b.inside) in
      elim (Order-cases _ n o (range low)) [
        | inl e ↦ absurd (o.readable low h e)
        | inr (inl e) ↦
            rw (e, root_finish)
              (h, only low b.lower (λ j p q. o.ordered low j p q (λ f. cc)), inl refl)
        | inr (inr (inl e)) ↦
            rw (e, root_finish)
              (h, only low b.lower (λ j p q. o.ordered low j p q (λ f. cc)), inr (refl, λ f. cc))
        | inr (inr (inr e)) ↦
            rw (e, root_finish)
              (root_high-IsLeafOf high b.inside (λ j p. above_upto _ n o low h e j (omega arith))
                b.upper)
      ]

  root_loop-IsLeafOf :
      (f low high : ℕ)
      → Bounds (as_entries range) n o low high
      → high - low < f
      → IsLeafOf range cell n (root_loop f range last cell low high)
  unfolding root_loop
  root_loop-IsLeafOf zero low high b fuel = absurd (omega arith)
  root_loop-IsLeafOf (suc f) low high b fuel =
      let i : ℕ = (high - low) / 2 + low in
      let h : i < n = omega (arith, b.order, b.inside) in
      elim (Order-cases _ n o (range i)) [
        | inl e ↦ absurd (o.readable i h e)
        | inr (inl e) ↦
            rw (e, root_loop)
              (
                h,
                only i (above_before _ n o i h (λ f. cc)) (λ j p q. o.ordered i j p q (λ f. cc)),
                inl refl,
              )
        | inr (inr (inl e)) ↦
            let b' : Bounds (as_entries range) n o low i = record {
              lower = b.lower;
              upper = λ j p q. o.ordered i j p q (λ a. cc);
              order = omega (arith, b.order);
              inside = h;
            } in
            elim (Bool-cases (leb (i - low) 1)) [
              | inl close ↦ rw (e, root_loop, close) (root_finish-IsLeafOf low i b' (ground arith))
              | inr wide ↦ rw (e, root_loop, wide) (root_loop-IsLeafOf f low i b' (ground arith))
            ]
        | inr (inr (inr e)) ↦
            let b' : Bounds (as_entries range) n o i high = record {
              lower = λ j p. above_upto _ n o i h e j (omega arith);
              upper = b.upper;
              order = omega (arith, b.order);
              inside = b.inside;
            } in
            elim (Bool-cases (leb (high - i) 1)) [
              | inl close ↦ rw (e, root_loop, close) (root_finish-IsLeafOf i high b' (ground arith))
              | inr wide ↦ rw (e, root_loop, wide) (root_loop-IsLeafOf f i high b' (ground arith))
            ]
      ]

-- The comparison with the last name, by that with the range.
compare_last-range :
    (h : Cells) (root : KeyIndex) (search : UnicodeString) (i : ℕ)
    → compare_range h root search i ≢ no_cell
    → compare_range h root search i ≢ above
    → (compare_last h root search i ≡ below) ⊎ (compare_last h root search i ≡ equal)
unfolding compare_last compare_range
compare_last-range h root search i readable inside = ground arith

compare_last-above :
    (h : Cells) (root : KeyIndex) (search : UnicodeString) (i : ℕ)
    → compare_range h root search i ≡ above
    → compare_last h root search i ≡ above
unfolding compare_last compare_range
compare_last-above h root search i e = ground arith

-- A root of at least one leaf, whose leaves can be read and have ranges in order.
pub record IsRoot (h : Cells) (root : KeyIndex) (search : UnicodeString) : Type 0 where
  pub ranges : IsOrdered (λ i. (compare_range h root search i, 0)) root.count
  pub some_leaf : 0 < root.count
  pub in_ulong : root.count < ulong

-- The search in an ordered root ends, at a leaf such that the name is within no other one; *SubKey
-- is the cell of that leaf, or else HCELL_NIL and the name is not within it.
pub find_sub_key_in_root-IsLeafOf :
    (h : Cells) (root : KeyIndex) (search : UnicodeString)
    → IsRoot h root search
    → IsLeafOf
        (compare_range h root search)
        root.cell
        root.count
        (find_sub_key_in_root h root search)
unfolding find_sub_key_in_root
find_sub_key_in_root-IsLeafOf h root search w =
    let top : sub32 root.count 1 ≡ root.count - 1 = omega (arith, w.some_leaf, w.in_ulong) in
    rw top (
      root_loop-IsLeafOf (compare_range h root search) (compare_last h root search) root.cell
        root.count w.ranges
        (λ i below_count inside.
          compare_last-range h root search i (w.ranges.readable i below_count) inside)
        (compare_last-above h root search) root.count 0 (root.count - 1)
        (record {
          lower = λ j p. absurd (omega arith);
          upper = λ j p q. absurd (omega arith);
          order = omega arith;
          inside = omega (arith, w.some_leaf);
        })
        (omega (arith, w.some_leaf)))

-- A name in a leaf is within its range.
pub compare_range-entry :
    (h : Cells) (root : KeyIndex) (search : UnicodeString) (i k : ℕ) (leaf : KeyIndex)
    → h.index (root.cell i) ≡ some leaf
    → leaf.count < ulong
    → IsOrdered (compare_in_index h search leaf) leaf.count
    → k < leaf.count
    → (compare_in_index h search leaf k).0 ≡ equal
    → compare_range h root search i ≡ equal
unfolding compare_range
compare_range-entry h root search i k leaf e small o inside same =
    let top : sub32 leaf.count 1 ≡ leaf.count - 1 = omega arith in
    elim (dec_lt k (leaf.count - 1)) [
      | no last ↦
          let at_last : leaf.count - 1 ≡ k = omega arith in
          rw (e, compare_range, top, at_last, same) refl
      | yes before ↦
          let last_below : (compare_in_index h search leaf (leaf.count - 1)).0 ≡ below =
            o.ordered k (leaf.count - 1) before (omega arith) (λ f. cc) in
          elim (dec_lt 0 k) [
            | no first ↦
                let at_first : k ≡ 0 = omega arith in
                let first_equal : (compare_in_index h search leaf 0).0 ≡ equal =
                  subst (λ j. (compare_in_index h search leaf j).0 ≡ equal) at_first same in
                rw (e, compare_range, top, last_below, first_equal) refl
            | yes later ↦
                let first_above : (compare_in_index h search leaf 0).0 ≡ above =
                  above_before _ leaf.count o k inside (λ f. cc) 0 later in
                rw (e, compare_range, top, last_below, first_above) refl
          ]
    ]
