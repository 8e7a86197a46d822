-- ===== src/Cells/Refs/Laws.antt =====
-- The tracked references are a sequence, the static array before the dynamic one, to which tracking
-- appends and which the release gives back in order.
use ntreg.Base.{
  ℕ, suc, ◌+◌, ◌≤◌, ◌<◌, ◌≡◌, refl, ap, sym, not_lt→ltb, lt→ltb, List, [], ◌∷◌, ◌++◌, Option, none,
  some, ltb, ◌==◌, arith, inl, inr, Bool-cases,
}
use native.Mathlib.Decide.{dec_lt}
use mathlib.Core.Path.{subst}
use ntreg.Cells.Refs.{
  Pair, TrackCellRef, store, Tracking, tracked, failed, fault, add_to, copy_table, track_cell_ref,
  entries, release_free_cell_ref_array, add16, cell_ref_increment,
}
use ntreg.Cells.Refs.Lists.{entries_same, entries-store, append_assoc, append_nil}

abbrev dynamic : TrackCellRef → List Pair
dynamic r = elim r.cell_array [ none ↦ [] | some array ↦ entries r.count array 0 ]

-- The references that are held.
abbrev pub references : TrackCellRef → List Pair
references r = entries r.static_count r.static_array 0 ++ dynamic r

-- The dynamic array is used once the static one is full, and exists exactly while it is used.
pub record IsTracking (r : TrackCellRef) : Type 0 where
  pub in_static : r.static_count ≤ 4
  pub in_array : r.count ≤ r.max
  pub static_first : 0 < r.count → r.static_count ≡ 4
  pub used : 0 < r.max → 0 < r.count
  pub freed : r.max ≡ 0 → r.cell_array ≡ none
  pub allocated : 0 < r.max → (array : ℕ → Pair) × (r.cell_array ≡ some array)

-- What tracking a reference may come to: it is behind those held before, or, with no memory for a
-- greater array, it is released and the state is as before.
abbrev pub Appended : TrackCellRef → Pair → Tracking → Type 0
Appended r p (tracked r') = IsTracking r' × (references r' ≡ references r ++ (p ∷ []))
Appended r p (failed r' released) =
    (r' ≡ r) × (released ≡ p ∷ []) × (r.static_count ≡ 4) × (r.count ≡ r.max)
Appended r p fault = ⊥

dynamic_empty : (r : TrackCellRef) → IsTracking r → r.count ≡ 0 → dynamic r ≡ []
dynamic_empty r t none_left =
    let no_room : r.max ≡ 0 = ground (arith, t.used) in rw (t.freed no_room) refl

module _ (r : TrackCellRef) (p : Pair) (t : IsTracking r) where
  -- In the static array.
  tracked-static :
      r.static_count < 4
      → Appended r p (
          tracked (record r {
            static_array = store r.static_array r.static_count p;
            static_count = add16 r.static_count 1;
          }))
  tracked-static space =
      let none_left : r.count ≡ 0 = ground (arith, t.static_first) in
      let next : add16 r.static_count 1 ≡ suc r.static_count = omega arith in
      (
        record {
          in_static = omega arith;
          in_array = t.in_array;
          static_first = λ some_left. absurd (omega arith);
          used = t.used;
          freed = t.freed;
          allocated = t.allocated;
        },
        rw
            (
              next,
              entries-store r.static_count r.static_array p,
              dynamic_empty r t none_left,
              append_nil (entries r.static_count r.static_array 0 ++ (p ∷ [])),
              append_nil (entries r.static_count r.static_array 0),
            )
            refl,
      )

  -- In a dynamic array with room, which holds the references of the one before.
  add_to-Appended :
      (max : ℕ) (array : ℕ → Pair)
      → r.static_count ≡ 4
      → r.count < max
      → max < 65536
      → dynamic r ≡ entries r.count array 0
      → Appended r p (add_to (some array) (record r { max = max }) p)
  unfolding add_to
  add_to-Appended max array static_full space small held =
      let next : add16 r.count 1 ≡ suc r.count = omega arith in
      (
        record {
          in_static = t.in_static;
          in_array = omega arith;
          static_first = λ some_left. static_full;
          used = λ room. omega arith;
          freed = λ no_room. absurd (omega arith);
          allocated = λ room. (store array r.count p, refl);
        },
        rw
            (
              next,
              entries-store r.count array p,
              held,
              append_assoc (entries r.static_count r.static_array 0) (entries r.count array 0)
                  (p ∷ []),
            )
            refl,
      )

  copied :
      (fresh : ℕ → Pair)
      → r.count ≡ r.max
      → dynamic r ≡ entries r.count (copy_table r.cell_array r.max fresh) 0
  unfolding copy_table entries
  copied fresh full = elim (dec_lt 0 r.max) [
    | no empty ↦
        let none_left : r.count ≡ 0 = omega arith in rw (t.freed (omega arith), none_left) refl
    | yes used ↦
        let (array, a) = t.allocated used in
        rw a (entries_same r.count array _ 0 (λ j p q. ground arith))
  ]

  full-Appended :
      (allocation : Option (ℕ → Pair))
      → r.static_count ≡ 4
      → r.count ≡ r.max
      → r.max < 65526
      → Appended r p (elim allocation [
        | none ↦ failed r (p ∷ [])
        | some fresh ↦
            add_to
              (some (copy_table r.cell_array r.max fresh))
              (record r { max = add16 r.max cell_ref_increment })
              p
      ])
  full-Appended none static_full full room = (refl, refl, static_full, full)
  full-Appended (some fresh) static_full full room =
      let more : add16 r.max cell_ref_increment ≡ r.max + 10 = omega arith in
      rw more (
        add_to-Appended (r.max + 10) (copy_table r.cell_array r.max fresh) static_full (omega arith)
          (omega arith) (copied fresh full))

-- On a well-formed state, with less than 65526 places, a reference is tracked behind those before
-- or released, and the state stays well-formed.
pub track_cell_ref-Appended :
    (allocation : Option (ℕ → Pair)) (r : TrackCellRef) (p : Pair)
    → IsTracking r
    → r.max < 65526
    → Appended r p (track_cell_ref allocation r p)
unfolding track_cell_ref
track_cell_ref-Appended allocation r p t room = elim (Bool-cases (ltb r.static_count 4)) [
  | inl e ↦ rw e (tracked-static r p t (ground arith))
  | inr e ↦ elim (Bool-cases (r.count == r.max)) [
    | inl f ↦
        rw (e, f) (full-Appended r p t allocation (ground (arith, t.in_static)) (ground arith) room)
    | inr f ↦
        rw (e, f)
          (let (array, a) = t.allocated (ground (arith, t.in_array)) in
            subst (λ o. Appended r p (add_to o r p)) (sym a)
              (add_to-Appended r p t r.max array (ground (arith, t.in_static))
                (ground (arith, t.in_array)) (omega arith) (rw a refl)))
  ]
]

-- What the release leaves: a well-formed state with nothing in it, and the references returned.
abbrev pub Released : TrackCellRef → Option (TrackCellRef × List Pair) → Type 0
Released r none = ⊥
Released r (some (r', released)) =
    (released ≡ references r)
    × IsTracking r'
    × (references r' ≡ [])
    × (r'.cell_array ≡ none)
    × (r'.max ≡ 0)

-- With nothing in the dynamic array, the static one is emptied.
empty-Released :
    (r r' : TrackCellRef)
    → IsTracking r
    → r.count ≡ 0
    → r' ≡ record r { static_count = 0 }
    → Released r (some (r', entries r.static_count r.static_array 0))
unfolding entries
empty-Released r r' t none_left e =
    let no_room : r.max ≡ 0 = ground (arith, t.used) in
    rw (e, dynamic_empty r t none_left, append_nil (entries r.static_count r.static_array 0))
      (
        refl,
        record {
          in_static = omega arith;
          in_array = t.in_array;
          static_first = λ some_left. absurd (omega arith);
          used = t.used;
          freed = t.freed;
          allocated = t.allocated;
        },
        refl,
        t.freed no_room,
        no_room,
      )

-- The release gives back all references in order, and leaves a well-formed state with none, and
-- with no array.
pub release_free_cell_ref_array_lem :
    (r : TrackCellRef) → IsTracking r → Released r (release_free_cell_ref_array r)
unfolding release_free_cell_ref_array entries
release_free_cell_ref_array_lem r t = elim (dec_lt 0 r.count) [
  | yes used ↦
      let (array, a) = t.allocated (omega (arith, t.in_array)) in
      rw (lt→ltb 0 r.count used, a, t.static_first used)
        (
          refl,
          record {
            in_static = omega arith;
            in_array = omega arith;
            static_first = λ some_left. absurd (omega arith);
            used = λ room. absurd (omega arith);
            freed = λ no_room. refl;
            allocated = λ room. absurd (omega arith);
          },
          refl,
          refl,
          refl,
        )
  | no unused ↦ elim (dec_lt 0 r.static_count) [
    | yes some_static ↦
        rw (not_lt→ltb 0 r.count unused, lt→ltb 0 r.static_count some_static)
          (empty-Released r (record r { static_count = 0 }) t (omega arith) refl)
    | no no_static ↦
        rw (not_lt→ltb 0 r.count unused, not_lt→ltb 0 r.static_count no_static)
          (empty-Released r r t (omega arith) (
            ap (λ s. record r { static_count = s })
              (let z : r.static_count ≡ 0 = omega arith in z)))
  ]
]
