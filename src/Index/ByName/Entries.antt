-- ===== src/Index/ByName/Entries.antt =====
-- The search of core/cmindex.cpp for a name in one leaf, binary or by hash.
use ntreg.Base.{
  ℕ, ◌<◌, ◌≡◌, refl, ◌≢◌, ◌⊎◌, inl, inr, false, Option, some, leb, ◌==◌, if◌then◌else◌, arith,
  Bool-cases, ◌∙◌, sym,
}
use native.Mathlib.Decide.{dec_lt}
use mathlib.Core.Path.{subst}
use ntreg.Names.Text.{UnicodeString}
use ntreg.Index.Data.{KeyIndex, Cells, hcell_nil, invalid_index, key_hash_leaf, key_fast_leaf}
use ntreg.Index.Compare.{
  Order, below, equal, above, no_cell, compare_in_index, full_compare, do_compare_key_name,
}
use ntreg.Index.Leaf.{Found, result, stuck, find_sub_key_in_leaf}
use ntreg.Index.Leaf.Search.{
  IsOrdered, Located, Finds, find_sub_key_in_leaf-Located, find_sub_key_in_leaf-Finds,
}
use ntreg.Index.Hash.{compute_hash_key, find_sub_key_by_hash}
use ntreg.Index.Hash.Laws.{ByHash, find_sub_key_by_hash-ByHash}
use ntreg.Index.ByName.{after_search, search_leaf}

-- A leaf whose entries can be read, are in order, and have the hash of the name if they have it.
pub record IsLeaf (h : Cells) (leaf : KeyIndex) (search : UnicodeString) : Type 0 where
  pub small : leaf.count < 0x8000_0000
  pub cells : (k : ℕ) → k < leaf.count → leaf.cell k ≢ hcell_nil
  pub sorted : IsOrdered (compare_in_index h search leaf) leaf.count
  pub hashed :
      leaf.signature ≡ key_hash_leaf
      → (k : ℕ) → k < leaf.count
      → do_compare_key_name h search (leaf.cell k) ≡ equal
      → leaf.hash_key k ≡ compute_hash_key 0 search

-- The cell of an entry with the name.
abbrev pub HasName : Cells → KeyIndex → UnicodeString → ℕ → Type 0
HasName h leaf search c =
    (k : ℕ) × (k < leaf.count) × (c ≡ leaf.cell k) × ((compare_in_index h search leaf k).0 ≡ equal)

-- A search either returns a cell that has what is searched for, or goes on, when none has.
abbrev pub Searched : (ℕ → Type 0) → (next outcome : Option ℕ) → Type 0
Searched Has next outcome =
    ((c : ℕ) × (outcome ≡ some c) × Has c) ⊎ ((outcome ≡ next) × ((c : ℕ) → ¬ Has c))

pub is_not : (a b : ℕ) → a ≢ b → (a == b) ≡ false
is_not a b h = ground arith

module _ (h : Cells) (leaf : KeyIndex) (search : UnicodeString) (w : IsLeaf h leaf search)
    (next : Option ℕ) where
  -- What is done with the answer of the binary search.
  after_search-Searched :
      (f : Found)
      → Located (compare_in_index h search leaf) leaf.count f
      → Finds h search leaf f
      → Searched (HasName h leaf search) next (after_search f next)
  unfolding after_search
  after_search-Searched stuck l s = absurd l
  after_search-Searched (result r sub_key) (inside, before, after, cell) (found, not_found) =
      decide (compare_in_index h search leaf r).0 refl (ground (arith, w.small))
    where
      other :
          (compare_in_index h search leaf r).0 ≢ equal
          → leb invalid_index r ≡ false
          → Searched (HasName h leaf search) next (after_search (result r sub_key) next)
      other differs valid =
          let none_has : (k : ℕ) → k < leaf.count → (compare_in_index h search leaf k).0 ≢ equal =
            λ k p e.
              differs (
                subst (λ j. (compare_in_index h search leaf j).0 ≡ equal) (sym (found k p e).0)
                  e) in
          rw (valid, not_found none_has) (inr (refl, λ c (k, p, q, e). none_has k p e))

      decide :
          (o : Order)
          → (compare_in_index h search leaf r).0 ≡ o
          → leb invalid_index r ≡ false
          → Searched (HasName h leaf search) next (after_search (result r sub_key) next)
      decide equal e valid =
          rw (valid, (found r inside e).1, is_not _ _ (w.cells r inside))
            (inl (leaf.cell r, refl, (r, inside, refl, e)))
      decide below e valid = other (λ f. cc) valid
      decide above e valid = other (λ f. cc) valid
      decide no_cell e valid = other (λ f. cc) valid

  -- Without the hints of a fast leaf, comparing an entry is comparing its name.
  compare-hashed :
      leaf.signature ≡ key_hash_leaf
      → (k : ℕ) → (compare_in_index h search leaf k).0 ≡ do_compare_key_name h search (leaf.cell k)
  unfolding compare_in_index full_compare
  compare-hashed e k =
      let other : (leaf.signature == key_fast_leaf) ≡ false = ground (arith, e) in
      rw (compare_in_index, other) refl

  hashed-Searched :
      leaf.signature ≡ key_hash_leaf
      → (cell : ℕ) → ByHash h leaf search 0 leaf.count cell
      → Searched (HasName h leaf search) next (if cell == hcell_nil then next else some cell)
  hashed-Searched hash cell (inl (k, p, q, e, f)) =
      rw (e, is_not _ _ (w.cells k q))
        (inl (leaf.cell k, refl, (k, q, refl, compare-hashed hash k ∙ f)))
  hashed-Searched hash cell (inr (e, none_has)) =
      rw e
        (inr (refl, λ c (k, p, q, f). none_has k (omega arith) p (sym (compare-hashed hash k) ∙ f)))

  empty_leaf : leaf.count ≡ 0 → after_search (find_sub_key_in_leaf h leaf search) next ≡ next
  unfolding after_search find_sub_key_in_leaf
  empty_leaf e = rw e refl

  pub search_leaf-Searched : Searched (HasName h leaf search) next (search_leaf h leaf search next)
  unfolding search_leaf
  search_leaf-Searched = elim (Bool-cases (leaf.signature == key_hash_leaf)) [
    | inl hash ↦
        let signature : leaf.signature ≡ key_hash_leaf = ground (arith, hash) in
        rw hash (
          hashed-Searched signature (find_sub_key_by_hash h leaf search)
            (find_sub_key_by_hash-ByHash h leaf search (w.hashed signature)))
    | inr plain ↦ elim (dec_lt 0 leaf.count) [
      | yes more ↦ rw plain (
          after_search-Searched (find_sub_key_in_leaf h leaf search)
            (find_sub_key_in_leaf-Located h leaf search w.sorted more)
            (find_sub_key_in_leaf-Finds h leaf search w.sorted))
      | no empty ↦
          let none_here : leaf.count ≡ 0 = omega arith in
          rw (plain, empty_leaf none_here) (inr (refl, λ c (k, p, q, f). absurd (omega arith)))
    ]
  ]
