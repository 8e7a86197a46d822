-- ===== src/Index/ByName/Below.antt =====
-- The search of core/cmindex.cpp for a name through a root.
use ntreg.Base.{ℕ, ◌<◌, ◌≡◌, refl, ◌≢◌, inl, inr, false, Option, some, leb, arith, ◌∙◌, sym}
use mathlib.Core.Path.{subst}
use ntreg.Names.Text.{UnicodeString}
use ntreg.Index.Data.{KeyIndex, Cells, hcell_nil, invalid_index}
use ntreg.Index.Compare.{equal}
use ntreg.Index.Leaf.{Found, result, stuck}
use ntreg.Index.Root.{compare_range, find_sub_key_in_root}
use ntreg.Index.Root.Search.{IsLeafOf, IsRoot, compare_range-entry}
use ntreg.Index.ByName.{search_root}
use ntreg.Index.ByName.Entries.{IsLeaf, HasName, Searched, is_not, search_leaf-Searched}

-- A root whose leaves are such, with ranges in order.
pub record IsTree (h : Cells) (root : KeyIndex) (search : UnicodeString) : Type 0 where
  pub root_lem : IsRoot h root search
  pub small : root.count < 0x8000_0000
  pub leaves :
      (i : ℕ)
      → i < root.count
      → (leaf : KeyIndex) × (h.index (root.cell i) ≡ some leaf) × IsLeaf h leaf search
  pub cells : (i : ℕ) → i < root.count → root.cell i ≢ hcell_nil

-- The cell of an entry with the name, in a leaf of the root.
abbrev pub HasNameBelow : Cells → KeyIndex → UnicodeString → ℕ → Type 0
HasNameBelow h root search c =
    (i : ℕ) × (i < root.count)
    × ((leaf : KeyIndex) × (h.index (root.cell i) ≡ some leaf) × HasName h leaf search c)

pub some_injective : (a b : KeyIndex) → some a ≡ some b → a ≡ b
some_injective a b e = cc

module _ (h : Cells) (root : KeyIndex) (search : UnicodeString) (w : IsTree h root search)
    (next : Option ℕ) where
  -- A leaf that has the name has it in its range.
  in_range :
      (i : ℕ) (leaf : KeyIndex) (c : ℕ)
      → i < root.count
      → h.index (root.cell i) ≡ some leaf
      → HasName h leaf search c
      → compare_range h root search i ≡ equal
  in_range i leaf c inside e (k, p, q, f) =
      let (l, g, v) = w.leaves i inside in
      let same : l ≡ leaf = some_injective l leaf (sym g ∙ e) in
      let v' : IsLeaf h leaf search = subst (λ m. IsLeaf h m search) same v in
      compare_range-entry h root search i k leaf e (omega (arith, v'.small)) v'.sorted p f

  pub root-Searched :
      (f : Found)
      → find_sub_key_in_root h root search ≡ f
      → IsLeafOf (compare_range h root search) root.cell root.count f
      → Searched (HasNameBelow h root search) next (search_root h root search next)
  unfolding search_root
  root-Searched stuck e l = absurd l
  root-Searched (result r sub_key) e (inside, only, inl cell) =
      let (leaf, g, v) = w.leaves r inside in
      let valid : leb invalid_index r ≡ false = ground (arith, w.small) in
      rw (e, search_root, valid, cell, is_not _ _ (w.cells r inside), g)
        (elim (search_leaf-Searched h leaf search v next) [
          | inl (c, f, has) ↦ inl (c, f, (r, inside, (leaf, g, has)))
          | inr (f, none_has) ↦ inr (
            f,
            λ c (i, p, (m, q, has)).
                let same : r ≡ i = only i p (in_range i m c p q has) in
                none_has c (
                  subst (λ x. HasName h x search c)
                    (some_injective m leaf
                      (sym q ∙ subst (λ x. h.index (root.cell x) ≡ some leaf) same g))
                    has),
          )
        ])
  root-Searched (result r sub_key) e (inside, only, inr (cell, outside)) =
      let valid : leb invalid_index r ≡ false = ground (arith, w.small) in
      rw (e, search_root, valid, cell)
        (inr (
          refl,
          λ c (i, p, (m, q, has)). outside (
              subst (λ x. compare_range h root search x ≡ equal)
                (sym (only i p (in_range i m c p q has))) (in_range i m c p q has)),
        ))
