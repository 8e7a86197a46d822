-- ===== src/Cells/FreeLists/Lists.antt =====
-- The lists of free cells of core/hivecell.cpp as sequences, one for each storage and each class of
-- sizes, and what adding and removing a block do to them.
use ntreg.Base.{
  ℕ, ◌<◌, ◌≡◌, refl, ◌≢◌, sym, true, false, Bool, List, [], ◌∷◌, some, none, ◌&&◌, ◌==◌,
  if◌then◌else◌, arith, length, inl, inr, Bool-cases,
}
use mathlib.Core.Path.{subst}
use ntreg.Index.Data.{hcell_nil}
use ntreg.Cells.State.{StorageType, stable, volatile, cell_type}
use ntreg.Cells.FreeIndex.{compute_free_list_index}
use ntreg.Cells.FreeLists.{
  Links, Place, head, after, read_at, write_at, FreeLists, list_at, put_list, same_type, add_free,
  Removal, removed, missing, stuck, remove_loop, remove_free,
}
use ntreg.Cells.FreeLists.Chains.{
  IsChain, NotIn, IsDistinct, IsOutside, without, IsChain-write_at, read_at-write_at,
}
use ntreg.Cells.FreeLists.Remove.{IsIn, IsRemoved, remove_loop-IsRemoved}

-- Whether two names of a list are the same.
abbrev pub same_list : (t u : StorageType) (i j : ℕ) → Bool
same_list t u i j = same_type t u && (i == j)

-- Every list is a chain of different cells, and no cell is in two of them.
pub record IsFreeLists (s : FreeLists) (cells : StorageType → ℕ → List ℕ) : Type 0 where
  pub chains : (t : StorageType) (i : ℕ) → IsChain s.word (s.display t i) (cells t i)
  pub distinct : (t : StorageType) (i : ℕ) → IsDistinct (cells t i)
  pub apart :
      (t u : StorageType) (i j c : ℕ)
      → same_list t u i j ≡ false
      → IsIn c (cells t i)
      → NotIn c (cells u j)

-- One of the lists replaced.
abbrev pub replaced :
    (StorageType → ℕ → List ℕ) → StorageType → ℕ → List ℕ → StorageType → ℕ → List ℕ
replaced cells t i cs u j = if same_list u t j i then cs else cells u j

pub same_list-names : (t u : StorageType) (i j : ℕ) → same_list t u i j ≡ true → (t ≡ u) × (i ≡ j)
same_list-names stable stable i j e = (refl, ground arith)
same_list-names volatile volatile i j e = (refl, ground arith)
same_list-names stable volatile i j e = absurd cc
same_list-names volatile stable i j e = absurd cc

same_list_refl : (t : StorageType) (i : ℕ) → same_list t t i i ≡ true
same_list_refl stable i = ground arith
same_list_refl volatile i = ground arith

NotIn-stable : (c : ℕ) (cs : List ℕ) → ¬ IsIn c cs → NotIn c cs
NotIn-stable c [] h = tt
NotIn-stable c (d ∷ ds) h = (λ e. h (λ (q, m). q e), NotIn-stable c ds (λ k. h (λ (q, m). k m)))

NotIn-without : (x c : ℕ) (cs : List ℕ) → NotIn x cs → NotIn x (without c cs)
NotIn-without x c [] h = tt
NotIn-without x c (d ∷ ds) (q, h) = elim (Bool-cases (d == c)) [
  | inl e ↦ rw e h
  | inr e ↦ rw e (q, NotIn-without x c ds h)
]

IsDistinct-without : (c : ℕ) (cs : List ℕ) → IsDistinct cs → IsDistinct (without c cs)
IsDistinct-without c [] h = tt
IsDistinct-without c (d ∷ ds) (a, h) = elim (Bool-cases (d == c)) [
  | inl e ↦ rw e h
  | inr e ↦ rw e (NotIn-without d c ds a, IsDistinct-without c ds h)
]

-- A chain stays one where the words of its cells stay.
IsChain-agree :
    (link other : ℕ → ℕ) (first : ℕ) (cs : List ℕ)
    → ((d : ℕ) → IsIn d cs → other d ≡ link d)
    → IsChain link first cs
    → IsChain other first cs
IsChain-agree link other first [] same h = h
IsChain-agree link other first (c ∷ cs) same (e, valid, h) = (
  e,
  valid,
  subst (λ v. IsChain other v cs) (sym (same c (λ (q, m). q refl)))
      (IsChain-agree link other (link c) cs (λ d k. same d (λ (q, m). k m)) h),
)

replaced-apart :
    (s : FreeLists) (cells : StorageType → ℕ → List ℕ) (t : StorageType) (i : ℕ) (cs : List ℕ)
    → IsFreeLists s cells
    → ((x : ℕ)
        → IsIn x cs
        → (u : StorageType) (j : ℕ) → same_list u t j i ≡ false
        → NotIn x (cells u j))
    → (u v : StorageType) (j k x : ℕ) → same_list u v j k ≡ false
    → (b b' : Bool) → same_list u t j i ≡ b
    → same_list v t k i ≡ b'
    → IsIn x (if b then cs else cells u j)
    → NotIn x (if b' then cs else cells v k)
replaced-apart s cells t i cs w fresh u v j k x differ true true e f m =
    let (p, q) = same_list-names u t j i e in
    let (p', q') = same_list-names v t k i f in
    let d : same_list t v i k ≡ false =
      subst (λ z. same_list z v i k ≡ false) p (subst (λ z. same_list u v z k ≡ false) q differ) in
    let d' : same_list t t i i ≡ false =
      subst (λ z. same_list t z i i ≡ false) p' (subst (λ z. same_list t v i z ≡ false) q' d) in
    let same : same_list t t i i ≡ true = same_list_refl t i in absurd cc
replaced-apart s cells t i cs w fresh u v j k x differ true false e f m = fresh x m v k f
replaced-apart s cells t i cs w fresh u v j k x differ false true e f m =
    NotIn-stable x cs (λ h. m (fresh x h u j e))
replaced-apart s cells t i cs w fresh u v j k x differ false false e f m =
    w.apart u v j k x differ m

-- Replacing one list by a chain whose cells are in no other.
IsFreeLists-replaced :
    (s s' : FreeLists) (cells : StorageType → ℕ → List ℕ) (t : StorageType) (i : ℕ) (cs : List ℕ)
    → IsFreeLists s cells
    → IsChain s'.word (s'.display t i) cs
    → IsDistinct cs
    → ((u : StorageType) (j : ℕ)
        → same_list u t j i ≡ false
        → IsChain s'.word (s'.display u j) (cells u j))
    → ((x : ℕ)
        → IsIn x cs
        → (u : StorageType) (j : ℕ) → same_list u t j i ≡ false
        → NotIn x (cells u j))
    → IsFreeLists s' (replaced cells t i cs)
IsFreeLists-replaced s s' cells t i cs w chain distinct others fresh = record {
  chains = λ u j. elim (Bool-cases (same_list u t j i)) [
    | inl e ↦
        let (p, q) = same_list-names u t j i e in
        rw e (
          subst (λ v. IsChain s'.word (s'.display v j) cs) (sym p)
            (subst (λ k. IsChain s'.word (s'.display t k) cs) (sym q) chain))
    | inr e ↦ rw e (others u j e)
  ];
  distinct = λ u j. elim (Bool-cases (same_list u t j i)) [
    | inl e ↦ rw e distinct
    | inr e ↦ rw e (w.distinct u j)
  ];
  apart =
      λ u v j k x differ m. replaced-apart s cells t i cs w fresh u v j k x differ _ _ refl refl m;
}

-- A block that is added is the first of the list of its size, and the other lists are as before.
pub add_free-IsFreeLists :
    (s : FreeLists) (cells : StorageType → ℕ → List ℕ) (size c : ℕ)
    → IsFreeLists s cells
    → c ≢ hcell_nil
    → ((t : StorageType) (i : ℕ) → NotIn c (cells t i))
    → IsFreeLists (add_free s size c) (
        replaced cells
          (cell_type c)
          (compute_free_list_index size)
          (c ∷ cells (cell_type c) (compute_free_list_index size)))
unfolding add_free
add_free-IsFreeLists s cells size c w valid fresh =
    let t : StorageType = cell_type c in
    let i : ℕ = compute_free_list_index size in
    let s' : FreeLists =
      put_list s t i (write_at (write_at (list_at s t i) (after c) (s.display t i)) head c) in
    let here : s'.display t i ≡ c = rw (same_list_refl t i) refl in
    let first : s'.word c ≡ s.display t i =
      read_at-write_at (list_at s t i) (after c) (s.display t i) in
    IsFreeLists-replaced s s' cells t i (c ∷ cells t i) w
      (
        here,
        valid,
        rw first (
            IsChain-write_at (list_at s t i) (after c) (s.display t i) (s.display t i) (cells t i)
              (fresh t i) (w.chains t i)),
      )
      (fresh t i, w.distinct t i)
      (λ u j e. rw e (
        IsChain-write_at (list_at s t i) (after c) (s.display t i) (s.display u j) (cells u j)
          (fresh u j) (w.chains u j)))
      (λ x m u j e. NotIn-stable x (cells u j) (λ k. m (
        (λ same. k (subst (λ z. NotIn z (cells u j)) (sym same) (fresh u j))),
        w.apart u t j i x e k,
      )))

-- A list put back without one of its cells, with no word of another cell written to.
pub put_list-without :
    (s : FreeLists) (cells : StorageType → ℕ → List ℕ) (t : StorageType) (i c : ℕ) (l : Links)
    → IsFreeLists s cells
    → IsChain l.link l.first (without c (cells t i))
    → ((p : Place) → IsOutside p (cells t i) → p ≢ head → read_at l p ≡ read_at (list_at s t i) p)
    → IsFreeLists (put_list s t i l) (replaced cells t i (without c (cells t i)))
put_list-without s cells t i c l w chain frame =
    let s' : FreeLists = put_list s t i l in
    let here : s'.display t i ≡ l.first = rw (same_list_refl t i) refl in
    IsFreeLists-replaced s s' cells t i (without c (cells t i)) w
      (subst (λ v. IsChain l.link v (without c (cells t i))) (sym here) chain)
      (IsDistinct-without c (cells t i) (w.distinct t i))
      (λ u j e. rw e (
        IsChain-agree s.word l.link (s.display u j) (cells u j)
          (λ d k. frame (after d) (w.apart u t j i d e k) (λ z. cc)) (w.chains u j)))
      (λ x n u j e.
        NotIn-stable x (cells u j) (λ k. n (NotIn-without x c (cells t i) (w.apart u t j i x e k))))

-- A block that is in the list of its size is removed from it, and the other lists are as before;
-- the walk ends if it may take a step more than the list has cells.
pub remove_free-IsFreeLists :
    (f : ℕ) (s : FreeLists) (cells : StorageType → ℕ → List ℕ) (size c : ℕ)
    → IsFreeLists s cells
    → IsIn c (cells (cell_type c) (compute_free_list_index size))
    → length (cells (cell_type c) (compute_free_list_index size)) < f
    → (s' : FreeLists) × (remove_free f s size c ≡ some s')
      × IsFreeLists s' (
          replaced cells
            (cell_type c)
            (compute_free_list_index size)
            (without c (cells (cell_type c) (compute_free_list_index size))))
unfolding remove_free
remove_free-IsFreeLists f s cells size c w m fuel =
    step (cell_type c) (compute_free_list_index size)
      (remove_loop f (list_at s (cell_type c) (compute_free_list_index size)) head c)
      (remove_loop-IsRemoved f (list_at s (cell_type c) (compute_free_list_index size)) head c
        (cells (cell_type c) (compute_free_list_index size)) (w.chains _ _) (w.distinct _ _) tt m
        fuel)
  where
    step :
        (t : StorageType) (i : ℕ) (r : Removal)
        → IsRemoved (list_at s t i) head c (cells t i) r
        → (s' : FreeLists) × ((elim r [
          | removed l ↦ some (put_list s t i l)
          | missing ↦ some s
          | stuck ↦ none
        ])
            ≡ some s')
          × IsFreeLists s' (replaced cells t i (without c (cells t i)))
    step t i missing h = absurd h
    step t i stuck h = absurd h
    step t i (removed l) (chain, frame) =
        (put_list s t i l, refl, put_list-without s cells t i c l w chain frame)
