-- ===== src/Index/Insert/Place.antt =====
-- core/cmindex.cpp puts a new entry at its place: the leaf stays in order, and the entry is found.
use ntreg.Base.{
  ℕ, ◌+◌, ◌-◌, ◌≤◌, ◌<◌, ◌≡◌, ◌≢◌, refl, sym, ap, ◌∙◌, inl, inr, true, false, ◌==◌, Option, none,
  some, arith,
}
use mathlib.Core.Path.{subst}
use native.Mathlib.Decide.{dec_lt}
use ntreg.Names.Text.{UnicodeString}
use ntreg.Index.Data.{KeyIndex, Cells, key_fast_leaf, key_hash_leaf}
use ntreg.Index.Compare.{below, equal, above, compare_in_index, do_compare_key_name}
use ntreg.Index.Leaf.{Found, result, stuck, find_sub_key_in_leaf}
use ntreg.Index.Leaf.Search.{IsOrdered, Located, Finds, find_sub_key_in_leaf-Finds, Order-cases}
use ntreg.Index.Hash.{compute_hash_key}
use ntreg.Index.Insert.{insert_entry, insertion_point, name_hint_of}
use ntreg.Index.Insert.Entries.{
  IsSame, new-hint, new-hash, compare_in_index-same, compare_in_index-node,
  do_compare_key_name-node, new-equal, new-before, new-behind, new-count, new-cell,
}

-- A key can be added to a leaf: the leaf is in order for its name and has no such name yet, the key
-- has the name, and the count does not wrap.
pub record IsNew (h : Cells) (name : UnicodeString) (leaf : KeyIndex) (new_key : ℕ) : Type 0 where
  pub ordered : IsOrdered (compare_in_index h name leaf) leaf.count
  pub other : (i : ℕ) → i < leaf.count → (compare_in_index h name leaf i).0 ≢ equal
  pub named : do_compare_key_name h name new_key ≡ equal
  pub few : leaf.count + 1 < 0x1_0000

pub IsNew-node :
    (h h' : Cells) (name : UnicodeString) (leaf : KeyIndex) (new_key : ℕ)
    → ((d : ℕ) → h'.node d ≡ h.node d)
    → IsNew h name leaf new_key
    → IsNew h' name leaf new_key
IsNew-node h h' name leaf new_key same n =
    let e : (i : ℕ) → compare_in_index h' name leaf i ≡ compare_in_index h name leaf i =
      λ i. compare_in_index-node h h' name leaf i (same (leaf.cell i)) in
    record {
      ordered = record {
        readable = λ i p. rw (e i) (n.ordered.readable i p);
        ordered = λ i j p q r. rw (e j) (n.ordered.ordered i j p q (rw (sym (e i)) r));
      };
      other = λ i p. rw (e i) (n.other i p);
      named = do_compare_key_name-node h h' name new_key (same new_key) ∙ n.named;
      few = n.few;
    }

-- The place for a name: behind all smaller names and before all greater ones.
pub record IsPlace (h : Cells) (name : UnicodeString) (leaf : KeyIndex) (at : ℕ) : Type 0 where
  pub within : at ≤ leaf.count
  pub before : (j : ℕ) → j < at → (compare_in_index h name leaf j).0 ≡ above
  pub behind : (j : ℕ) → at ≤ j → j < leaf.count → (compare_in_index h name leaf j).0 ≡ below

pub IsPlace-node :
    (h h' : Cells) (name : UnicodeString) (leaf : KeyIndex) (at : ℕ)
    → ((d : ℕ) → h'.node d ≡ h.node d)
    → IsPlace h name leaf at
    → IsPlace h' name leaf at
IsPlace-node h h' name leaf at same p =
    let e : (i : ℕ) → compare_in_index h' name leaf i ≡ compare_in_index h name leaf i =
      λ i. compare_in_index-node h h' name leaf i (same (leaf.cell i)) in
    record {
      within = p.within;
      before = λ j q. rw (e j) (p.before j q);
      behind = λ j q r. rw (e j) (p.behind j q r);
    }

module _ (h : Cells) (name : UnicodeString) (leaf : KeyIndex) (new_key : ℕ)
    (n : IsNew h name leaf new_key) where
  abbrev pub PlaceOutcome : Option ℕ → Type 0
  PlaceOutcome (some at) = IsPlace h name leaf at
  PlaceOutcome none = ⊥

  pub insertion_point-IsPlace :
      (i sub_key : ℕ)
      → Located (compare_in_index h name leaf) leaf.count (result i sub_key)
      → PlaceOutcome (insertion_point h name leaf i)
  unfolding insertion_point
  insertion_point-IsPlace i sub_key (inside, before, behind, _) =
      let not_last : (i == leaf.count) ≡ false = ground arith in
      elim (Order-cases (compare_in_index h name leaf) leaf.count n.ordered
        (compare_in_index h name leaf i).0) [
          | inl e ↦ absurd (n.ordered.readable i inside e)
          | inr (inl e) ↦ absurd (n.other i inside e)
          | inr (inr (inl e)) ↦
              rw (not_last, e)
                (record {
                  within = omega arith;
                  before = before;
                  behind = λ j p q. elim (dec_lt i j) [
                    | yes more ↦ behind j more q
                    | no le ↦ let same : j ≡ i = omega arith in rw same e
                  ];
                })
          | inr (inr (inr e)) ↦
              rw (not_last, e)
                (record {
                  within = omega arith;
                  before = λ j p. elim (dec_lt j i) [
                    | yes less ↦ before j less
                    | no ge ↦ let same : j ≡ i = omega arith in rw same e
                  ];
                  behind = λ j p q. behind j (omega arith) q;
                })
        ]

  pub empty-IsPlace : leaf.count ≡ 0 → PlaceOutcome (insertion_point h name leaf 0)
  unfolding insertion_point
  empty-IsPlace empty =
      let last : (0 == leaf.count) ≡ true = ground arith in
      rw last (record {
        within = omega arith;
        before = λ j p. absurd (omega arith);
        behind = λ j p q. absurd (omega arith);
      })

  -- With the new entry at its place the leaf is in order for the name.
  pub insert_entry-IsOrdered :
      (at : ℕ)
      → IsPlace h name leaf at
      → IsOrdered (compare_in_index h name (insert_entry leaf at new_key name)) (leaf.count + 1)
  insert_entry-IsOrdered at p = record {
    readable = λ i q. elim (dec_lt i at) [
      | yes less ↦ let l = lower i less in λ m. cc
      | no ge ↦ elim (dec_lt at i) [
        | yes more ↦ let l = upper i more q in λ m. cc
        | no le ↦ let same : i ≡ at = omega arith in let l = middle in rw same (λ m. cc)
      ]
    ];
    ordered = λ i j q r not_above. elim (dec_lt i at) [
      | yes less ↦ absurd (not_above (lower i less))
      | no ge ↦ upper j (omega arith) r
    ];
  }
    where
      lower :
          (j : ℕ)
          → j < at
          → (compare_in_index h name (insert_entry leaf at new_key name) j).0 ≡ above
      lower j q =
          rw
            (compare_in_index-same h name (insert_entry leaf at new_key name) leaf j j
              (new-before leaf at new_key name p.within j q))
            (p.before j q)

      middle : (compare_in_index h name (insert_entry leaf at new_key name) at).0 ≡ equal
      middle = rw (new-equal leaf at new_key name p.within h n.named) refl

      upper :
          (j : ℕ)
          → at < j
          → j < leaf.count + 1
          → (compare_in_index h name (insert_entry leaf at new_key name) j).0 ≡ below
      upper j q r =
          let e : j ≡ j - 1 + 1 = omega arith in
          subst (λ k. (compare_in_index h name (insert_entry leaf at new_key name) k).0 ≡ below)
            (sym e)
            (ap (λ x. x.0)
                (compare_in_index-same h name (insert_entry leaf at new_key name) leaf (j - 1 + 1)
                  (j - 1)
                  (new-behind leaf at new_key name p.within (j - 1) (omega arith) (omega arith)))
              ∙ p.behind (j - 1) (omega arith) (omega arith))

  -- A search in the new leaf returns the new entry.
  pub find_new :
      (at : ℕ)
      → IsPlace h name leaf at
      → find_sub_key_in_leaf h (insert_entry leaf at new_key name) name ≡ result at new_key
  find_new at p =
      go _ (find_sub_key_in_leaf-Finds h (insert_entry leaf at new_key name) name ordered)
    where
      count_lem : (insert_entry leaf at new_key name).count ≡ leaf.count + 1
      count_lem = new-count leaf at new_key name p.within n.few

      ordered :
          IsOrdered
            (compare_in_index h name (insert_entry leaf at new_key name))
            (insert_entry leaf at new_key name).count
      ordered =
          subst (IsOrdered (compare_in_index h name (insert_entry leaf at new_key name)))
            (sym count_lem) (insert_entry-IsOrdered at p)

      go : (f : Found) → Finds h name (insert_entry leaf at new_key name) f → f ≡ result at new_key
      go (result r sub_key) (found_it, _) =
          let hit =
            found_it at (omega (arith, count_lem, p.within))
              (rw (new-equal leaf at new_key name p.within h n.named) refl) in
          rw (hit.0, hit.1, new-cell leaf at new_key name p.within) refl
      go stuck o = absurd o

  -- The leaf with the new entry.
  pub record Holds (x : KeyIndex) (at : ℕ) : Type 0 where
    pub count_lem : x.count ≡ leaf.count + 1
    pub place : IsPlace h name leaf at
    pub below_place : (j : ℕ) → j < at → IsSame x leaf j j
    pub at_place : x.cell at ≡ new_key
    pub hint : leaf.signature ≡ key_fast_leaf → x.name_hint at ≡ name_hint_of name
    pub hash : leaf.signature ≡ key_hash_leaf → x.hash_key at ≡ compute_hash_key 0 name
    pub above_place : (j : ℕ) → at ≤ j → j < leaf.count → IsSame x leaf (j + 1) j
    pub finds : find_sub_key_in_leaf h x name ≡ result at new_key

  pub insert_entry-Holds :
      (at : ℕ) → IsPlace h name leaf at → Holds (insert_entry leaf at new_key name) at
  insert_entry-Holds at p = record {
    count_lem = new-count leaf at new_key name p.within n.few;
    place = p;
    below_place = new-before leaf at new_key name p.within;
    at_place = new-cell leaf at new_key name p.within;
    hint = new-hint leaf at new_key name p.within;
    hash = new-hash leaf at new_key name p.within;
    above_place = new-behind leaf at new_key name p.within;
    finds = find_new at p;
  }
