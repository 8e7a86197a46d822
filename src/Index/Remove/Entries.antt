-- ===== src/Index/Remove/Entries.antt =====
-- The entries of a leaf after core/cmindex.cpp has removed one: those left stay in order, none has the
-- name, and what was added is removed without a trace.
use ntreg.Base.{
  ℕ, ◌+◌, ◌-◌, ◌≤◌, ◌<◌, ◌≡◌, ◌≢◌, refl, sym, ap, ◌∙◌, true, false, ltb, if◌then◌else◌, arith,
}
use mathlib.Core.Path.{subst}
use native.Mathlib.Decide.{dec_lt}
use ntreg.Names.Text.{UnicodeString}
use ntreg.Index.Data.{KeyIndex, Cells, hcell_nil}
use ntreg.Index.Compare.{equal, compare_in_index}
use ntreg.Index.Leaf.{Found, result, stuck, find_sub_key_in_leaf}
use ntreg.Index.Leaf.Search.{IsOrdered, Finds, find_sub_key_in_leaf-Finds}
use ntreg.Index.Insert.{insert_entry}
use ntreg.Index.Insert.Entries.{IsSame, compare_in_index-same, new-before, new-behind, new-count}
use ntreg.Index.Remove.{remove_entry}

module _ (leaf : KeyIndex) (i : ℕ) (inside : i < leaf.count) (short : leaf.count < 0x1_0000) where
  abbrev gone : KeyIndex
  gone = remove_entry leaf i

  pub gone-count : gone.count ≡ leaf.count - 1
  unfolding remove_entry
  gone-count = ground arith

  gone-signature : gone.signature ≡ leaf.signature
  unfolding remove_entry
  gone-signature = ground arith

  pub gone-before : (j : ℕ) → j < i → IsSame gone leaf j j
  unfolding remove_entry
  gone-before j h = record {
    signature = gone-signature;
    cell = ground arith;
    hint = λ e. ground arith;
    hash = λ e. ground arith;
  }

  pub gone-behind : (j : ℕ) → i ≤ j → j + 1 < leaf.count → IsSame gone leaf j (j + 1)
  unfolding remove_entry
  gone-behind j h k = record {
    signature = gone-signature;
    cell = ground arith;
    hint = λ e. ground arith;
    hash = λ e. ground arith;
  }

  -- The entry of the old leaf that stands at a place of the new one.
  abbrev old : ℕ → ℕ
  old j = if ltb j i then j else j + 1

  gone-old :
      (h : Cells) (name : UnicodeString) (j : ℕ)
      → j < leaf.count - 1
      → compare_in_index h name gone j ≡ compare_in_index h name leaf (old j)
  gone-old h name j p = elim (dec_lt j i) [
    | yes less ↦
        let first : ltb j i ≡ true = ground arith in
        rw first (compare_in_index-same h name gone leaf j j (gone-before j less))
    | no ge ↦
        let later : ltb j i ≡ false = ground arith in
        rw later (
          compare_in_index-same h name gone leaf j (j + 1)
            (gone-behind j (omega arith) (omega arith)))
  ]

  remove_entry-IsOrdered :
      (h : Cells) (name : UnicodeString)
      → IsOrdered (compare_in_index h name leaf) leaf.count
      → IsOrdered (compare_in_index h name gone) gone.count
  remove_entry-IsOrdered h name o =
      subst (IsOrdered (compare_in_index h name gone)) (sym gone-count) (record {
        readable = λ j p. rw (gone-old h name j p) (o.readable (old j) (ground arith));
        ordered = λ j k p q r. rw (gone-old h name k q) (
            o.ordered (old j) (old k) (ground arith) (ground arith)
              (λ a. r (rw (gone-old h name j (omega arith)) a)));
      })

  -- Once the entry of a name is removed, a search for the name finds nothing.
  pub remove_entry-unfound :
      (h : Cells) (name : UnicodeString)
      → IsOrdered (compare_in_index h name leaf) leaf.count
      → (compare_in_index h name leaf i).0 ≡ equal
      → (r : ℕ) × (find_sub_key_in_leaf h gone name ≡ result r hcell_nil)
  remove_entry-unfound h name o e =
      go _ (find_sub_key_in_leaf-Finds h gone name (remove_entry-IsOrdered h name o))
    where
      same :
          (j : ℕ)
          → j < leaf.count - 1
          → (compare_in_index h name leaf (old j)).0 ≡ (compare_in_index h name gone j).0
      same j p = ap (λ x. x.0) (sym (gone-old h name j p))

      at_old :
          (j k : ℕ)
          → ltb j i ≡ true
          → (compare_in_index h name leaf (old j)).0 ≡ equal
          → (compare_in_index h name leaf j).0 ≡ equal
      at_old j k first f =
          subst (λ b. (compare_in_index h name leaf (if b then j else j + 1)).0 ≡ equal) first f

      at_later :
          (j : ℕ)
          → ltb j i ≡ false
          → (compare_in_index h name leaf (old j)).0 ≡ equal
          → (compare_in_index h name leaf (j + 1)).0 ≡ equal
      at_later j later f =
          subst (λ b. (compare_in_index h name leaf (if b then j else j + 1)).0 ≡ equal) later f

      other : (j : ℕ) → j < gone.count → (compare_in_index h name gone j).0 ≢ equal
      other j p q = elim (dec_lt j i) [
        | yes less ↦
            let f = same j (omega (arith, gone-count)) ∙ q in
            let first : ltb j i ≡ true = ground arith in
            let g = o.ordered j i less inside (λ a. let k = at_old j j first f in cc) in cc
        | no ge ↦
            let f = same j (omega (arith, gone-count)) ∙ q in
            let later : ltb j i ≡ false = ground arith in
            let g = o.ordered i (j + 1) (omega arith) (omega (arith, gone-count, p)) (λ a. cc) in
            let k = at_later j later f in cc
      ]

      go : (f : Found) → Finds h name gone f → (r : ℕ) × (f ≡ result r hcell_nil)
      go (result r sub_key) (_, none_there) = (r, rw (none_there other) refl)
      go stuck o = absurd o

IsSame-trans : (x y z : KeyIndex) (i j k : ℕ) → IsSame x y i j → IsSame y z j k → IsSame x z i k
IsSame-trans x y z i j k p q = record {
  signature = p.signature ∙ q.signature;
  cell = p.cell ∙ q.cell;
  hint = λ e. p.hint (q.signature ∙ e) ∙ q.hint e;
  hash = λ e. p.hash (q.signature ∙ e) ∙ q.hash e;
}

-- Removing an entry that was added leaves the entries as they were.
pub remove_entry-insert_entry :
    (leaf : KeyIndex) (at new_key : ℕ) (name : UnicodeString)
    → at ≤ leaf.count
    → leaf.count + 1 < 0x1_0000
    → ((remove_entry (insert_entry leaf at new_key name) at).count ≡ leaf.count)
      × ((j : ℕ)
          → j < leaf.count
          → IsSame (remove_entry (insert_entry leaf at new_key name) at) leaf j j)
remove_entry-insert_entry leaf at new_key name within few = (
  gone-count (insert_entry leaf at new_key name) at
        (omega (arith, new-count leaf at new_key name within few))
        (omega (arith, new-count leaf at new_key name within few))
      ∙ omega (arith, new-count leaf at new_key name within few),
  λ j p. elim (dec_lt j at) [
    | yes less ↦
        IsSame-trans (remove_entry (insert_entry leaf at new_key name) at)
          (insert_entry leaf at new_key name) leaf j j j
          (gone-before (insert_entry leaf at new_key name) at
            (omega (arith, new-count leaf at new_key name within few))
            (omega (arith, new-count leaf at new_key name within few)) j less)
          (new-before leaf at new_key name within j less)
    | no ge ↦
        IsSame-trans (remove_entry (insert_entry leaf at new_key name) at)
          (insert_entry leaf at new_key name) leaf j (j + 1) j
          (gone-behind (insert_entry leaf at new_key name) at
            (omega (arith, new-count leaf at new_key name within few))
            (omega (arith, new-count leaf at new_key name within few)) j (omega arith)
            (omega (arith, new-count leaf at new_key name within few)))
          (new-behind leaf at new_key name within j (omega arith) p)
  ],
)
