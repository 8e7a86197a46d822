-- ===== src/Index/ByName/Search.antt =====
-- The search of core/cmindex.cpp for a subkey by its name: through leaves, roots and storages it
-- returns the cell of a subkey with the name exactly if there is one.
use ntreg.Base.{
  ℕ, ◌<◌, ◌≡◌, refl, ◌⊎◌, inl, inr, true, false, Option, some, ◌==◌, if◌then◌else◌, arith,
  Bool-cases, ◌∙◌, sym, pos→not_zero,
}
use native.Mathlib.Decide.{dec_lt}
use mathlib.Core.Path.{subst}
use ntreg.Names.Text.{UnicodeString}
use ntreg.Index.Data.{KeyNode, KeyIndex, Cells, hcell_nil, key_index_root}
use ntreg.Index.Root.Search.{find_sub_key_in_root-IsLeafOf}
use ntreg.Index.ByName.{
  sub_key_count, sub_key_list, search_leaf, search_root, search_list, by_name_loop,
  find_sub_key_by_name,
}
use ntreg.Index.ByName.Entries.{IsLeaf, HasName, Searched, search_leaf-Searched}
use ntreg.Index.ByName.Below.{IsTree, HasNameBelow, some_injective, root-Searched}

-- A list of subkeys that the search can work on: a root, or a leaf.
pub record IsIndex (h : Cells) (list : ℕ) (search : UnicodeString) : Type 0 where
  pub index : KeyIndex
  pub read : h.index list ≡ some index
  pub as_root : (index.signature == key_index_root) ≡ true → IsTree h index search
  pub as_leaf : (index.signature == key_index_root) ≡ false → IsLeaf h index search

-- The cell of a subkey with the name, in the list.
abbrev pub HasSubKey : Cells → (list : ℕ) → UnicodeString → ℕ → Type 0
HasSubKey h list search c =
    (index : KeyIndex) × (h.index list ≡ some index)
    × (((index.signature == key_index_root) ≡ true) × HasNameBelow h index search c
        ⊎ (((index.signature == key_index_root) ≡ false) × HasName h index search c))

-- A search for what is the same may be given otherwise.
Searched-map :
    (Has Has' : ℕ → Type 0) (next o o' : Option ℕ)
    → o ≡ o'
    → ((c : ℕ) → Has c → Has' c)
    → ((c : ℕ) → Has' c → Has c)
    → Searched Has next o'
    → Searched Has' next o
Searched-map Has Has' next o o' e f g (inl (c, p, has)) = inl (c, e ∙ p, f c has)
Searched-map Has Has' next o o' e f g (inr (p, none_has)) =
    inr (e ∙ p, λ c has. none_has c (g c has))

module _ (h : Cells) (list : ℕ) (search : UnicodeString) (index : KeyIndex)
    (read : h.index list ≡ some index) where
  has_below :
      (index.signature == key_index_root) ≡ true
      → (c : ℕ) → HasSubKey h list search c
      → HasNameBelow h index search c
  has_below e c (x, q, y) =
      let same : x ≡ index = some_injective x index (sym q ∙ read) in go y same
    where
      go :
          (((x.signature == key_index_root) ≡ true) × HasNameBelow h x search c)
            ⊎ (((x.signature == key_index_root) ≡ false) × HasName h x search c)
          → x ≡ index
          → HasNameBelow h index search c
      go (inl (t, has)) same = subst (λ z. HasNameBelow h z search c) same has
      go (inr (t, has)) same = absurd (
          let f : (index.signature == key_index_root) ≡ false =
            subst (λ z. (z.signature == key_index_root) ≡ false) same t in
          cc)

  has_entry :
      (index.signature == key_index_root) ≡ false
      → (c : ℕ) → HasSubKey h list search c
      → HasName h index search c
  has_entry e c (x, q, y) =
      let same : x ≡ index = some_injective x index (sym q ∙ read) in go y same
    where
      go :
          (((x.signature == key_index_root) ≡ true) × HasNameBelow h x search c)
            ⊎ (((x.signature == key_index_root) ≡ false) × HasName h x search c)
          → x ≡ index
          → HasName h index search c
      go (inr (t, has)) same = subst (λ z. HasName h z search c) same has
      go (inl (t, has)) same = absurd (
          let f : (index.signature == key_index_root) ≡ true =
            subst (λ z. (z.signature == key_index_root) ≡ true) same t in
          cc)

  search_list-root :
      (next : Option ℕ)
      → (index.signature == key_index_root) ≡ true
      → search_list h list search next ≡ search_root h index search next
  unfolding search_list
  search_list-root next e = rw (read, search_list, e) refl

  search_list-leaf :
      (next : Option ℕ)
      → (index.signature == key_index_root) ≡ false
      → search_list h list search next ≡ search_leaf h index search next
  unfolding search_list
  search_list-leaf next e = rw (read, search_list, e) refl

search_list-Searched :
    (h : Cells) (list : ℕ) (search : UnicodeString) (next : Option ℕ)
    → IsIndex h list search
    → Searched (HasSubKey h list search) next (search_list h list search next)
search_list-Searched h list name next w = elim (Bool-cases (w.index.signature == key_index_root)) [
  | inl e ↦
      Searched-map (HasNameBelow h w.index name) (HasSubKey h list name) next _ _
        (search_list-root h list name w.index w.read next e)
        (λ c has. (w.index, w.read, inl (e, has))) (has_below h list name w.index w.read e)
        (root-Searched h w.index name (w.as_root e) next _ refl
          (find_sub_key_in_root-IsLeafOf h w.index name (w.as_root e).root_lem))
  | inr e ↦
      Searched-map (HasName h w.index name) (HasSubKey h list name) next _ _
        (search_list-leaf h list name w.index w.read next e)
        (λ c has. (w.index, w.read, inr (e, has))) (has_entry h list name w.index w.read e)
        (search_leaf-Searched h w.index name (w.as_leaf e) next)
]

-- The cell of a subkey with the name in storage `i`, 0 for the stable one.
abbrev pub HasChild : Cells → KeyNode → UnicodeString → (i c : ℕ) → Type 0
HasChild h node search i c = (0 < sub_key_count node i) × HasSubKey h (sub_key_list node i) search c

storage-Searched :
    (h : Cells) (node : KeyNode) (search : UnicodeString) (i : ℕ) (next : Option ℕ)
    → (0 < sub_key_count node i → IsIndex h (sub_key_list node i) search)
    → Searched (HasChild h node search i) next (
        if sub_key_count node i == 0 then next else search_list h (sub_key_list node i) search next)
storage-Searched h node name i next w = elim (dec_lt 0 (sub_key_count node i)) [
  | yes more ↦
      Searched-map (HasSubKey h (sub_key_list node i) name) (HasChild h node name i) next _ _
        (rw (pos→not_zero (sub_key_count node i) more) refl) (λ c has. (more, has))
        (λ c (p, has). has) (search_list-Searched h (sub_key_list node i) name next (w more))
  | no empty ↦
      let e : sub_key_count node i ≡ 0 = omega arith in inr (rw e refl, λ c (p, has). empty p)
]

-- What a search for a subkey returns: one with the name among the stable subkeys, or, with none
-- there, one among the volatile ones, or, with none at all, HCELL_NIL.
abbrev pub IsChild : Cells → KeyNode → UnicodeString → ℕ → Type 0
IsChild h node search c =
    HasChild h node search 0 c
    ⊎ (((d : ℕ) → ¬ HasChild h node search 0 d)
        × (HasChild h node search 1 c
            ⊎ (((d : ℕ) → ¬ HasChild h node search 1 d) × (c ≡ hcell_nil))))

two_storages :
    (h : Cells) (node : KeyNode) (search : UnicodeString)
    → (0 < sub_key_count node 0 → IsIndex h (sub_key_list node 0) search)
    → (0 < sub_key_count node 1 → IsIndex h (sub_key_list node 1) search)
    → (c : ℕ) × (by_name_loop 2 h node search 0 ≡ some c) × IsChild h node search c
unfolding by_name_loop
two_storages h node name w v =
    elim (storage-Searched h node name 0 (by_name_loop 1 h node name 1) w) [
      | inl (c, e, has) ↦ (c, e, inl has)
      | inr (e, none_stable) ↦ elim (storage-Searched h node name 1 (some hcell_nil) v) [
        | inl (c, f, has) ↦ (c, e ∙ f, inr (none_stable, inl has))
        | inr (f, none_volatile) ↦ (hcell_nil, e ∙ f, inr (none_stable, inr (none_volatile, refl)))
      ]
    ]

-- In a hive of both storages, with indexes that are well-formed where a key has subkeys, the search
-- for a subkey by name ends without an access through NULL, and returns a subkey with the name, a
-- stable one first, exactly if there is one.
pub find_sub_key_by_name-IsChild :
    (h : Cells) (node : KeyNode) (search : UnicodeString)
    → h.storage_type_count ≡ 2
    → ((i : ℕ) → i < 2 → 0 < sub_key_count node i → IsIndex h (sub_key_list node i) search)
    → (c : ℕ) × (find_sub_key_by_name h node search ≡ some c) × IsChild h node search c
unfolding find_sub_key_by_name
find_sub_key_by_name-IsChild h node name both w =
    subst (λ n. (c : ℕ) × (by_name_loop n h node name 0 ≡ some c) × IsChild h node name c)
      (sym both) (two_storages h node name (w 0 (omega arith)) (w 1 (omega arith)))
