-- ===== src/Index/Insert/Entries.antt =====
-- The entries of a leaf after core/cmindex.cpp has put one more into it.
use ntreg.Base.{
  ℕ, zero, suc, ◌+◌, ◌≤◌, ◌<◌, min, ◌≡◌, refl, sym, ltb, ◌==◌, if◌then◌else◌, arith, Bool-cases,
  inl, inr, ◌∙◌, ap,
}
use native.Mathlib.Decide.{dec_lt}
use ntreg.Base.Int.{sub_ℕ}
use ntreg.Names.Text.{UnicodeString, count, upcase}
use ntreg.Index.Data.{KeyIndex, Cells, key_fast_leaf, key_hash_leaf, hcell_nil}
use ntreg.Index.Compare.{
  Order, equal, normalize, hint_length, hint_loop, compare_in_index, full_compare,
  do_compare_key_name,
}
use ntreg.Index.Hash.{compute_hash_key}
use ntreg.Index.Insert.{put, make_room, set_entry, insert_entry, fill_hint, name_hint_of}

-- What a hint holds: characters of the name from some place on, and zeros everywhere else.
record Filled (s : UnicodeString) (n : ℕ) (hint : ℕ → ℕ) : Type 0 where
  start : ℕ
  same : (k : ℕ) → start ≤ k → k < n → hint k ≡ s.buffer k
  front : (k : ℕ) → k < start → hint k ≡ 0
  back : (k : ℕ) → n ≤ k → hint k ≡ 0

fill_hint-Filled :
    (j n : ℕ) (s : UnicodeString) (hint : ℕ → ℕ)
    → j ≤ n
    → ((k : ℕ) → j ≤ k → k < n → hint k ≡ s.buffer k)
    → ((k : ℕ) → k < j → hint k ≡ 0)
    → ((k : ℕ) → n ≤ k → hint k ≡ 0)
    → Filled s n (fill_hint j s hint)
unfolding fill_hint
fill_hint-Filled zero n s hint le same front back = record {
  start = 0;
  same = same;
  front = front;
  back = back;
}
fill_hint-Filled (suc j) n s hint le same front back = elim (Bool-cases (ltb 0xFF (s.buffer j))) [
  | inl wide ↦ rw wide (record { start = suc j; same = same; front = front; back = back })
  | inr narrow ↦ rw narrow (
      fill_hint-Filled j n s (put hint j (s.buffer j)) (omega arith)
        (λ k p q. ground (arith, same k)) (λ k p. ground (arith, front k))
        (λ k p. ground (arith, back k)))
]

-- The hint agrees with the name as far as it counts.
hint_length-Filled :
    (s : UnicodeString) (n : ℕ) (hint : ℕ → ℕ)
    → n ≤ 4
    → Filled s n hint
    → (k : ℕ) → k < hint_length hint
    → hint k ≡ s.buffer k
hint_length-Filled s n hint le f k h = elim (dec_lt 0 f.start) [
  | yes cut ↦ ground (arith, f.front 0)
  | no from_start ↦ elim (dec_lt k n) [
    | yes inside ↦ f.same k (omega arith) inside
    | no out ↦ ground (arith, f.back 0, f.back 1, f.back 2, f.back 3)
  ]
]

normalize-same : (c : ℕ) → normalize (sub_ℕ c c) ≡ equal
normalize-same c = ground arith

hint_loop-equal :
    (m : ℕ) (s : UnicodeString) (hint : ℕ → ℕ) (i : ℕ)
    → ((k : ℕ) → i ≤ k → k < i + m → hint k ≡ s.buffer k)
    → hint_loop m s hint i ≡ equal
unfolding hint_loop
hint_loop-equal zero s hint i same = refl
hint_loop-equal (suc m) s hint i same =
    rw (hint_loop, same i (omega arith) (omega arith), normalize-same (upcase (s.buffer i)))
      (hint_loop-equal m s hint (i + 1) (λ k p q. same k (omega arith) (omega arith)))

name_hint_of-equal :
    (s : UnicodeString)
    → hint_loop (min (count s) (hint_length (name_hint_of s))) s (name_hint_of s) 0 ≡ equal
unfolding name_hint_of
name_hint_of-equal s =
    let n = if ltb (count s) 4 then count s else 4 in
    let filled : Filled s n (fill_hint n s (λ j. 0)) =
      fill_hint-Filled n n s (λ j. 0) (omega arith) (λ k p q. absurd (omega arith)) (λ k p. refl)
        (λ k p. refl) in
    hint_loop-equal _ s (fill_hint n s (λ j. 0)) 0 (λ k p q.
      hint_length-Filled s n (fill_hint n s (λ j. 0)) (ground arith) filled k (omega arith))

-- Two entries are the same: the cell, in a fast leaf the hint, and in a hash leaf the hash key.
pub record IsSame (x y : KeyIndex) (i j : ℕ) : Type 0 where
  pub signature : x.signature ≡ y.signature
  pub cell : x.cell i ≡ y.cell j
  pub hint : y.signature ≡ key_fast_leaf → x.name_hint i ≡ y.name_hint j
  pub hash : y.signature ≡ key_hash_leaf → x.hash_key i ≡ y.hash_key j

pub do_compare_key_name-node :
    (h h' : Cells) (name : UnicodeString) (c : ℕ)
    → h'.node c ≡ h.node c
    → do_compare_key_name h' name c ≡ do_compare_key_name h name c
unfolding do_compare_key_name
do_compare_key_name-node h h' name c e = rw (e, do_compare_key_name) refl

full_compare-node :
    (h h' : Cells) (name : UnicodeString) (c : ℕ)
    → h'.node c ≡ h.node c
    → full_compare h' name c ≡ full_compare h name c
unfolding full_compare
full_compare-node h h' name c e = rw (do_compare_key_name-node h h' name c e) refl

-- The comparison, from the signature, the hint and the comparison of the full name.
by_hint : UnicodeString → (signature : ℕ) → (hint : ℕ → ℕ) → Order × ℕ → Order × ℕ
by_hint name signature hint full =
    if signature == key_fast_leaf
    then (elim (hint_loop (min (count name) (hint_length hint)) name hint 0) [
      | equal ↦ full
      | result ↦ (result, hcell_nil)
    ])
    else full

compare_in_index-by_hint :
    (h : Cells) (name : UnicodeString) (x : KeyIndex) (i : ℕ)
    → compare_in_index h name x i
      ≡ by_hint name x.signature (x.name_hint i) (full_compare h name (x.cell i))
unfolding compare_in_index by_hint
compare_in_index-by_hint h name x i = refl

pub compare_in_index-node :
    (h h' : Cells) (name : UnicodeString) (x : KeyIndex) (i : ℕ)
    → h'.node (x.cell i) ≡ h.node (x.cell i)
    → compare_in_index h' name x i ≡ compare_in_index h name x i
compare_in_index-node h h' name x i e =
    compare_in_index-by_hint h' name x i
    ∙ ap (by_hint name x.signature (x.name_hint i)) (full_compare-node h h' name (x.cell i) e)
    ∙ sym (compare_in_index-by_hint h name x i)

by_hint-same :
    (name : UnicodeString) (g : ℕ) (p q : ℕ → ℕ) (full : Order × ℕ)
    → (g ≡ key_fast_leaf → p ≡ q)
    → by_hint name g p full ≡ by_hint name g q full
unfolding by_hint
by_hint-same name g p q full same = elim (Bool-cases (g == key_fast_leaf)) [
  | inl fast ↦ rw (same (ground arith)) refl
  | inr slow ↦ rw slow refl
]

pub compare_in_index-same :
    (h : Cells) (name : UnicodeString) (x y : KeyIndex) (i j : ℕ)
    → IsSame x y i j
    → compare_in_index h name x i ≡ compare_in_index h name y j
compare_in_index-same h name x y i j same =
    compare_in_index-by_hint h name x i
    ∙ rw (same.signature, same.cell)
        (by_hint-same name y.signature (x.name_hint i) (y.name_hint j)
          (full_compare h name (y.cell j)) same.hint)
    ∙ sym (compare_in_index-by_hint h name y j)

full_compare-equal :
    (h : Cells) (name : UnicodeString) (c : ℕ)
    → do_compare_key_name h name c ≡ equal
    → full_compare h name c ≡ (equal, c)
unfolding full_compare
full_compare-equal h name c e = rw e refl

by_hint-equal :
    (name : UnicodeString) (g : ℕ) (hint : ℕ → ℕ) (full : Order × ℕ)
    → (g ≡ key_fast_leaf → hint_loop (min (count name) (hint_length hint)) name hint 0 ≡ equal)
    → by_hint name g hint full ≡ full
unfolding by_hint
by_hint-equal name g hint full e = elim (Bool-cases (g == key_fast_leaf)) [
  | inl fast ↦ rw (fast, e (ground arith)) refl
  | inr slow ↦ rw slow refl
]

module _ (leaf : KeyIndex) (at new_key : ℕ) (name : UnicodeString) (within : at ≤ leaf.count) where
  abbrev new : KeyIndex
  new = insert_entry leaf at new_key name

  pub new-count : leaf.count + 1 < 0x1_0000 → new.count ≡ leaf.count + 1
  unfolding insert_entry
  new-count few = omega arith

  pub new-signature : new.signature ≡ leaf.signature
  unfolding insert_entry set_entry make_room
  new-signature = ground arith

  pub new-before : (j : ℕ) → j < at → IsSame new leaf j j
  unfolding insert_entry set_entry make_room
  new-before j h = record {
    signature = new-signature;
    cell = ground arith;
    hint = λ e. ground arith;
    hash = λ e. ground arith;
  }

  pub new-behind : (j : ℕ) → at ≤ j → j < leaf.count → IsSame new leaf (j + 1) j
  unfolding insert_entry set_entry make_room
  new-behind j h inside = record {
    signature = new-signature;
    cell = ground arith;
    hint = λ e. ground arith;
    hash = λ e. ground arith;
  }

  pub new-cell : new.cell at ≡ new_key
  unfolding insert_entry set_entry make_room
  new-cell = ground arith

  pub new-hint : leaf.signature ≡ key_fast_leaf → new.name_hint at ≡ name_hint_of name
  unfolding insert_entry set_entry make_room
  new-hint fast = ground arith

  pub new-hash : leaf.signature ≡ key_hash_leaf → new.hash_key at ≡ compute_hash_key 0 name
  unfolding insert_entry set_entry make_room
  new-hash hashed = ground arith

  -- The new entry compares equal with its name.
  pub new-equal :
      (h : Cells)
      → do_compare_key_name h name new_key ≡ equal
      → compare_in_index h name new at ≡ (equal, new_key)
  new-equal h is =
      compare_in_index-by_hint h name new at
      ∙ rw (new-signature, new-cell, full_compare-equal h name new_key is)
          (by_hint-equal name leaf.signature (new.name_hint at) (equal, new_key)
            (λ fast. rw (new-hint fast) (name_hint_of-equal name)))
