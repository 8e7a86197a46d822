-- ===== src/Cells/FreeLists/Find.antt =====
-- The search of core/hivecell.cpp for a free cell that is large enough.
use ntreg.Base.{
  ulong, ◌-◌, fun_ext, ℕ, zero, suc, ◌+◌, ◌≤◌, ◌<◌, ◌≡◌, refl, ◌≢◌, ◌⊎◌, ap, sym, ◌∙◌, true, false,
  List, [], ◌∷◌, some, none, Option, ◌&&◌, ltb, leb, ◌==◌, arith, length, inl, inr, Bool-cases,
}
use native.Mathlib.Decide.{dec_lt}
use mathlib.Core.Path.{subst}
use ntreg.Index.Data.{hcell_nil}
use ntreg.Cells.State.{StorageType, Hive}
use ntreg.Cells.FreeLists.{
  Links, Place, head, after, read_at, FreeLists, list_at, put_list, Sizes, is_offset_valid,
  is_in_bin, Walk, taken, next_list, exhausted, find_walk, find_loop, find_free,
}
use ntreg.Cells.FreeIndex.{compute_free_list_index}
use ntreg.Cells.FreeIndex.Order.{compute_free_list_index_ordered}
use ntreg.Cells.FreeLists.Chains.{
  IsChain, IsDistinct, IsOutside, without, IsChain-write_at, not_same, read_at-write_at,
  read_at-write_other, IsOutside-first, IsOutside-rest,
}
use ntreg.Cells.FreeLists.Remove.{IsIn}
use ntreg.Cells.FreeLists.Lists.{
  IsFreeLists, replaced, same_list, same_list-names, put_list-without,
}

-- The cells of a list are in the hive, within their bins, and not empty.
abbrev pub AreValid : Hive → Sizes → List ℕ → Type 0
AreValid h m [] = Unit {0}
AreValid h m (c ∷ cs) =
    (is_offset_valid h c ≡ true) × (is_in_bin h m c ≡ true) × (0 < m.cell_size c) × AreValid h m cs

-- All cells of a list are smaller.
abbrev pub AllSmaller : Sizes → ℕ → List ℕ → Type 0
AllSmaller m size [] = Unit {0}
AllSmaller m size (c ∷ cs) = (m.cell_size c < size) × AllSmaller m size cs

-- A cell of the list that is large enough is taken and the list is left without it; or all are too
-- small, and nothing was written.
abbrev pub IsWalk : Sizes → ℕ → Links → Place → List ℕ → Walk → Type 0
IsWalk m size s place cs (taken c t) =
    IsIn c cs
    × (size ≤ m.cell_size c)
    × IsChain t.link (read_at t place) (without c cs)
    × ((p : Place) → IsOutside p cs → p ≢ place → read_at t p ≡ read_at s p)
IsWalk m size s place cs (next_list t) = (t ≡ s) × AllSmaller m size cs
IsWalk m size s place cs exhausted = ⊥

-- Behind a cell that is too small, a walk is one along the whole list.
IsWalk-skip :
    (m : Sizes) (size : ℕ) (s : Links) (place : Place) (d : ℕ) (ds : List ℕ) (r : Walk)
    → m.cell_size d < size
    → d ≢ hcell_nil
    → read_at s place ≡ d
    → IsOutside place (d ∷ ds)
    → IsWalk m size s (after d) ds r
    → IsWalk m size s place (d ∷ ds) r
IsWalk-skip m size s place d ds exhausted small valid e n l = l
IsWalk-skip m size s place d ds (next_list t) small valid e n (same, all) = (same, (small, all))
IsWalk-skip m size s place d ds (taken c t) small valid e n (inside, fits, chain, frame) =
    let differs : d ≢ c = λ q. absurd (ground (arith, ap m.cell_size q)) in
    rw (not_same d c differs) (
      λ (q, k). inside k,
      fits,
      (frame place (IsOutside-rest place d ds n) (IsOutside-first place d ds n) ∙ e, valid, chain),
      λ p k q. frame p (IsOutside-rest p d ds k) (IsOutside-first p d ds k),
    )

pub find_walk-IsWalk :
    (f : ℕ) (h : Hive) (m : Sizes) (size : ℕ) (s : Links) (place : Place) (cs : List ℕ)
    → IsChain s.link (read_at s place) cs
    → IsDistinct cs
    → IsOutside place cs
    → AreValid h m cs
    → length cs < f
    → IsWalk m size s place cs (find_walk f h m size s place)
unfolding find_walk
find_walk-IsWalk zero h m size s place cs chain d n v fuel = absurd (omega arith)
find_walk-IsWalk (suc f) h m size s place [] e d n v fuel = rw e (refl, tt)
find_walk-IsWalk (suc f) h m size s place (x ∷ xs) (e, valid, chain) (apart, d) n
      (offset, bin, positive, v) fuel =
    elim (dec_lt (m.cell_size x) size) [
      | yes small ↦
          let test : (leb size (m.cell_size x) && ltb 0 (m.cell_size x)) ≡ false = ground arith in
          rw (e, not_same x hcell_nil valid, offset, test)
            (IsWalk-skip m size s place x xs _ small valid e n
              (find_walk-IsWalk f h m size s (after x) xs chain d apart v (omega arith)))
      | no large ↦
          let test : (leb size (m.cell_size x) && ltb 0 (m.cell_size x)) ≡ true = ground arith in
          let same : (x == x) ≡ true = ground arith in
          rw (e, not_same x hcell_nil valid, offset, test, bin)
            (
              λ (q, k). q refl,
              omega arith,
              rw (read_at-write_at s place (s.link x), same)
                  (IsChain-write_at s place (s.link x) (s.link x) xs (IsOutside-rest place x xs n)
                    chain),
              λ p k q. read_at-write_other s place p (s.link x) q,
            )
    ]

-- The search through the lists of a storage from `i` on, up to `n`: a cell of one of them that is
-- large enough was taken out, or all cells of them are too small and the lists are as before.
abbrev pub IsFound :
    Sizes
    → ℕ
    → StorageType
    → (StorageType → ℕ → List ℕ)
    → FreeLists
    → (i n : ℕ) → Option (ℕ × FreeLists)
    → Type 0
IsFound m size t cells s i n none = ⊥
IsFound m size t cells s i n (some (c, s')) =
    ((j : ℕ) × (i ≤ j)
      × (j < n)
      × IsIn c (cells t j)
      × (size ≤ m.cell_size c)
      × IsFreeLists s' (replaced cells t j (without c (cells t j))))
    ⊎ ((c ≡ hcell_nil) × (s' ≡ s) × ((j : ℕ) → i ≤ j → j < n → AllSmaller m size (cells t j)))

put_list-list_at : (s : FreeLists) (t : StorageType) (i : ℕ) → put_list s t i (list_at s t i) ≡ s
put_list-list_at s t i =
    ap (λ d. record { display = d; word = s.word })
      (fun_ext (λ u. fun_ext (λ j. elim (Bool-cases (same_list u t j i)) [
        | inl e ↦
            let (p, q) = same_list-names u t j i e in
            rw e (sym (ap (λ z. s.display z j) p ∙ ap (λ k. s.display t k) q))
        | inr e ↦ rw e refl
      ])))

-- A list of cells that are too small is passed over.
IsFound-skip :
    (m : Sizes) (size : ℕ) (t : StorageType) (cells : StorageType → ℕ → List ℕ) (s : FreeLists)
    (i n : ℕ) (r : Option (ℕ × FreeLists))
    → AllSmaller m size (cells t i)
    → IsFound m size t cells s (i + 1) n r
    → IsFound m size t cells s i n r
IsFound-skip m size t cells s i n none small f = f
IsFound-skip m size t cells s i n (some (c, s')) small (inl (j, p, q, inside, fits, lists)) =
    inl (j, omega arith, q, inside, fits, lists)
IsFound-skip m size t cells s i n (some (c, s')) small (inr (e, same, all)) = inr (
  e,
  same,
  λ j p q. elim (dec_lt i j) [
    | yes behind ↦ all j (omega arith) q
    | no here ↦ let at : j ≡ i = omega arith in rw at small
  ],
)

module _ (f : ℕ) (h : Hive) (m : Sizes) (size : ℕ) (t : StorageType) (s : FreeLists)
    (cells : StorageType → ℕ → List ℕ) (w : IsFreeLists s cells)
    (valid : (i : ℕ) → AreValid h m (cells t i)) (fuel : (i : ℕ) → length (cells t i) < f) where
  find_loop-IsFound :
      (left i : ℕ) → IsFound m size t cells s i (i + left) (find_loop left f h m s size t i)
  unfolding find_loop
  find_loop-IsFound zero i = inr (refl, refl, λ j p q. absurd (omega arith))
  find_loop-IsFound (suc left) i =
      step (find_walk f h m size (list_at s t i) head) refl
        (find_walk-IsWalk f h m size (list_at s t i) head (cells t i) (w.chains t i)
          (w.distinct t i) tt (valid i) (fuel i))
        (find_loop-IsFound left (i + 1))
    where
      step :
          (r : Walk)
          → find_walk f h m size (list_at s t i) head ≡ r
          → IsWalk m size (list_at s t i) head (cells t i) r
          → IsFound m size t cells s (i + 1) (i + 1 + left) (find_loop left f h m s size t (i + 1))
          → IsFound m size t cells s i (i + suc left) (find_loop (suc left) f h m s size t i)
      step exhausted e k rest = absurd k
      step (taken c l) e (inside, fits, chain, frame) rest =
          rw (e, find_loop)
            (inl (
              i,
              omega arith,
              omega arith,
              inside,
              fits,
              put_list-without s cells t i c l w chain frame,
            ))
      step (next_list l) e (same, all) rest =
          let n : i + 1 + left ≡ i + suc left = omega arith in
          rw (e, find_loop, same, put_list-list_at s t i)
            (IsFound-skip m size t cells s i (i + suc left) _ all (
              subst
                (λ z. IsFound m size t cells s (i + 1) z (find_loop left f h m s size t (i + 1))) n
                rest))

  -- In well-formed lists of valid cells the search takes a large enough cell out of one of the lists
  -- from that of the size on, if one of them has such a cell, and else returns HCELL_NIL and leaves the
  -- lists as they are; it ends if a walk may take a step more than a list has cells.
  pub find_free-IsFound :
      8 ≤ size
      → size < ulong
      → IsFound m size t cells s (compute_free_list_index size) 24 (find_free f h m s size t)
  unfolding find_free
  find_free-IsFound lo hi =
      let i : compute_free_list_index size < 24 =
        (compute_free_list_index_ordered size size lo (omega arith) hi).1 in
      let n : compute_free_list_index size + (24 - compute_free_list_index size) ≡ 24 =
        omega arith in
      subst
        (λ z. IsFound m size t cells s (compute_free_list_index size) z (find_free f h m s size t))
        n (find_loop-IsFound (24 - compute_free_list_index size) (compute_free_list_index size))
