-- ===== src/Index/Remove/Laws.antt =====
-- What `CmpRemoveSubKey` of core/cmindex.cpp leaves behind once it has the leaf.
use ntreg.Base.{
  ℕ, ◌+◌, ◌-◌, ◌≤◌, ◌<◌, ◌≡◌, ◌≢◌, refl, inl, inr, ◌⊎◌, true, false, leb, ◌==◌, if◌then◌else◌,
  Option, none, some, arith, Bool-cases,
}
use ntreg.Cells.State.{StorageType}
use ntreg.Names.Text.{UnicodeString}
use ntreg.Index.Data.{KeyNode, KeyIndex, hcell_nil, invalid_index}
use ntreg.Index.Compare.{equal, compare_in_index}
use ntreg.Index.Leaf.{Found, result, stuck, find_sub_key_in_leaf}
use ntreg.Index.Leaf.Search.{IsOrdered, Finds, find_sub_key_in_leaf-Finds}
use ntreg.Index.Store.{Store, put_index, Allocator}
use ntreg.Index.Insert.Entries.{IsSame}
use ntreg.Index.Remove.{
  change_node, drop_count, clear_list, one_less, remove_entry, remove_leaf, InRoot, take_out,
  Removal, removed, refused, out_of_fuel, remove_from_leaf,
}
use ntreg.Index.Remove.Entries.{gone-count, gone-before, gone-behind, remove_entry-unfound}

remove_leaf_lem :
    (root : KeyIndex) (i : ℕ)
    → i < root.count
    → root.count < 0x1_0000
    → ((remove_leaf root i).count ≡ root.count - 1)
      × ((j : ℕ) → j < i → (remove_leaf root i).cell j ≡ root.cell j)
      × ((j : ℕ) → i ≤ j → j + 1 < root.count → (remove_leaf root i).cell j ≡ root.cell (j + 1))
unfolding remove_leaf
remove_leaf_lem root i inside short = (ground arith, λ j p. ground arith, λ j p q. ground arith)

change_node-same :
    (s : Store) (c : ℕ) (n : KeyNode) (change : KeyNode → KeyNode)
    → s.cells.node c ≡ some n
    → (change_node s c change).cells.node c ≡ some (change n)
change_node-same s c n change e = let itself : (c == c) ≡ true = ground arith in rw (itself, e) refl

change_node-none :
    (s : Store) (c d : ℕ) (change : KeyNode → KeyNode)
    → s.cells.node d ≡ none
    → (change_node s c change).cells.node d ≡ none
change_node-none s c d change e = elim (Bool-cases (d == c)) [
  | inl same ↦ rw (same, e) refl
  | inr other ↦ rw (other, e) refl
]

module _ (a : Allocator) (s : Store) (parent : ℕ) (kind : StorageType) (n : KeyNode)
    (name : UnicodeString) (leaf_cell : ℕ) (leaf : KeyIndex) (i : ℕ) where
  -- A leaf and its entry for a name.
  pub record HasEntry : Type 0 where
    pub node : s.cells.node parent ≡ some n
    pub cell : s.cells.index leaf_cell ≡ some leaf
    pub ordered : IsOrdered (compare_in_index s.cells name leaf) leaf.count
    pub inside : i < leaf.count
    pub named : (compare_in_index s.cells name leaf i).0 ≡ equal
    pub short : leaf.count < 0x1_0000

  -- The leaf without the entry.
  pub record Shortened (t : Store) : Type 0 where
    pub new : KeyIndex
    pub in_cell : t.cells.index leaf_cell ≡ some new
    pub count_lem : new.count ≡ leaf.count - 1
    pub front : (j : ℕ) → j < i → IsSame new leaf j j
    pub back : (j : ℕ) → i ≤ j → j + 1 < leaf.count → IsSame new leaf j (j + 1)
    pub unfound : (r : ℕ) × (find_sub_key_in_leaf s.cells new name ≡ result r hcell_nil)
    pub counted : t.cells.node parent ≡ some (drop_count kind n)
    pub others : (d : ℕ) → d ≢ leaf_cell → t.cells.index d ≡ s.cells.index d

  -- The root that the leaf was in.
  abbrev pub IsInRoot : Option InRoot → Type 0
  IsInRoot none = Unit
  IsInRoot (some r) = (r.root_index < r.root.count) × (r.root.count < 0x1_0000)

  abbrev counted : Store
  counted = change_node s parent (drop_count kind)

  -- The root has lost the leaf.
  pub record Lost (r : InRoot) (x : KeyIndex) : Type 0 where
    pub count_lem : x.count ≡ r.root.count - 1
    pub front : (j : ℕ) → j < r.root_index → x.cell j ≡ r.root.cell j
    pub back : (j : ℕ) → r.root_index ≤ j → j + 1 < r.root.count → x.cell j ≡ r.root.cell (j + 1)

  -- The leaf is freed, and the parent has no list; or the root has lost the leaf, or is freed too.
  abbrev pub Emptied : Option InRoot → Store → Type 0
  Emptied none t = t ≡ change_node (a.free counted leaf_cell) parent (clear_list kind)
  Emptied (some r) t =
      ((r.root.count ≡ 1)
        × (t
            ≡ change_node (a.free (a.free counted leaf_cell) r.root_cell) parent (clear_list kind)))
      ⊎ ((1 < r.root.count)
          × ((x : KeyIndex) × Lost r x
              × (t ≡ put_index (a.free counted leaf_cell) r.root_cell (some x))))

  abbrev pub RemovalOutcome : Option InRoot → Removal → Type 0
  RemovalOutcome inside (removed t) = Shortened t ⊎ ((leaf.count ≡ 1) × Emptied inside t)
  RemovalOutcome inside refused = ⊥
  RemovalOutcome inside out_of_fuel = ⊥

  module _ (h : HasEntry) where
    counted_node : counted.cells.node parent ≡ some (drop_count kind n)
    counted_node = change_node-same s parent n (drop_count kind) h.node

    take_out-Shortened :
        (inside : Option InRoot)
        → (one_less leaf.count == 0) ≡ false
        → Shortened (take_out a s parent kind leaf_cell leaf i inside)
    unfolding take_out
    take_out-Shortened inside more =
        let itself : (leaf_cell == leaf_cell) ≡ true = ground arith in
        rw more (record {
          new = remove_entry leaf i;
          in_cell = rw itself refl;
          count_lem = gone-count leaf i h.inside h.short;
          front = gone-before leaf i h.inside h.short;
          back = gone-behind leaf i h.inside h.short;
          unfound = remove_entry-unfound leaf i h.inside h.short s.cells name h.ordered h.named;
          counted = counted_node;
          others = λ d p. let other : (d == leaf_cell) ≡ false = ground (arith, p) in rw other refl;
        })

    take_out-Emptied :
        (inside : Option InRoot)
        → IsInRoot inside
        → (one_less leaf.count == 0) ≡ true
        → Emptied inside (take_out a s parent kind leaf_cell leaf i inside)
    unfolding take_out
    take_out-Emptied none in_root last = rw last refl
    take_out-Emptied (some r) (below_count, short) last =
        elim (Bool-cases (one_less r.root.count == 0)) [
          | inl none_left ↦ rw (last, none_left) (inl (ground arith, refl))
          | inr some_left ↦
              let left = remove_leaf_lem r.root r.root_index below_count short in
              rw (last, some_left)
                (inr (
                  ground arith,
                  (
                    remove_leaf r.root r.root_index,
                    record { count_lem = left.0; front = left.1; back = left.2 },
                    refl,
                  ),
                ))
        ]

    -- Removing a key from an ordered leaf ends and succeeds. Either the leaf has one entry less, those
    -- before and behind it are kept in order and a search for the name finds nothing; or it was the
    -- last entry: the leaf is freed, and the list of the parent is empty, or the root that the leaf
    -- was in has lost just that leaf, or is freed too. The parent counts one subkey less.
    pub remove_from_leaf-RemovalOutcome :
        (inside : Option InRoot)
        → IsInRoot inside
        → RemovalOutcome inside (remove_from_leaf a s parent kind name leaf_cell leaf inside)
    unfolding remove_from_leaf
    remove_from_leaf-RemovalOutcome inside in_root =
        go (find_sub_key_in_leaf s.cells leaf name)
          (find_sub_key_in_leaf-Finds s.cells leaf name h.ordered)
      where
        taken :
            Shortened (take_out a s parent kind leaf_cell leaf i inside)
            ⊎ ((leaf.count ≡ 1) × Emptied inside (take_out a s parent kind leaf_cell leaf i inside))
        taken = elim (Bool-cases (one_less leaf.count == 0)) [
          | inl last ↦ inr (ground (arith, h.inside, h.short), take_out-Emptied inside in_root last)
          | inr more ↦ inl (take_out-Shortened inside more)
        ]

        go :
            (f : Found)
            → Finds s.cells name leaf f
            → RemovalOutcome inside (elim f [
              | stuck ↦ out_of_fuel
              | result j child ↦
                  if leb invalid_index j
                  then refused
                  else removed (take_out a s parent kind leaf_cell leaf j inside)
            ])
        go stuck o = o
        go (result j child) (found_it, _) =
            let same = (found_it i h.inside h.named).0 in
            let valid : leb invalid_index i ≡ false = ground (arith, h.inside, h.short) in
            rw (same, valid) taken
