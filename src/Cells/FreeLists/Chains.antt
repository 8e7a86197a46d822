-- ===== src/Cells/FreeLists/Chains.antt =====
-- A list of free cells as a sequence of cell indexes, for core/hivecell.cpp.
use ntreg.Base.{ℕ, ◌≡◌, refl, ◌≢◌, ap, sym, false, List, [], ◌∷◌, ◌==◌, if◌then◌else◌, arith}
use ntreg.Index.Data.{hcell_nil}
use ntreg.Cells.FreeLists.{Links, Place, head, after, read_at, write_at}

-- The words from `first` on lead through these cells, to HCELL_NIL.
abbrev pub IsChain : (ℕ → ℕ) → (first : ℕ) → List ℕ → Type 0
IsChain link first [] = first ≡ hcell_nil
IsChain link first (c ∷ cs) = (first ≡ c) × (c ≢ hcell_nil) × IsChain link (link c) cs

abbrev pub NotIn : ℕ → List ℕ → Type 0
NotIn c [] = Unit {0}
NotIn c (d ∷ ds) = (c ≢ d) × NotIn c ds

abbrev pub IsDistinct : List ℕ → Type 0
IsDistinct [] = Unit {0}
IsDistinct (c ∷ cs) = NotIn c cs × IsDistinct cs

-- A place is not the word of one of the cells.
abbrev pub IsOutside : Place → List ℕ → Type 0
IsOutside head cs = Unit {0}
IsOutside (after c) cs = NotIn c cs

-- The first occurrence is left out.
abbrev pub without : ℕ → List ℕ → List ℕ
without c [] = []
without c (d ∷ ds) = if d == c then ds else d ∷ without c ds

pub not_same : (a b : ℕ) → a ≢ b → (a == b) ≡ false
not_same a b h = ground arith

-- Writing elsewhere leaves a chain as it is.
IsChain-update :
    (link : ℕ → ℕ) (c v first : ℕ) (cs : List ℕ)
    → NotIn c cs
    → IsChain link first cs
    → IsChain (λ d. if d == c then v else link d) first cs
IsChain-update link c v first [] n h = h
IsChain-update link c v first (d ∷ ds) (differs, n) (e, valid, h) =
    let other : (d == c) ≡ false = not_same d c (λ e. differs (sym e)) in
    (e, valid, rw other (IsChain-update link c v (link d) ds n h))

pub IsChain-write_at :
    (s : Links) (place : Place) (v first : ℕ) (cs : List ℕ)
    → IsOutside place cs
    → IsChain s.link first cs
    → IsChain (write_at s place v).link first cs
IsChain-write_at s head v first cs n h = h
IsChain-write_at s (after c) v first cs n h = IsChain-update s.link c v first cs n h

pub read_at-write_at : (s : Links) (place : Place) (v : ℕ) → read_at (write_at s place v) place ≡ v
read_at-write_at s head v = refl
read_at-write_at s (after c) v = ground arith

pub read_at-write_other :
    (s : Links) (place p : Place) (v : ℕ) → p ≢ place → read_at (write_at s place v) p ≡ read_at s p
read_at-write_other s head head v h = absurd (h refl)
read_at-write_other s head (after d) v h = refl
read_at-write_other s (after c) head v h = refl
read_at-write_other s (after c) (after d) v h =
    let other : (d == c) ≡ false = not_same d c (λ e. h (ap after e)) in rw other refl

-- A place outside is not the word of the first cell.
pub IsOutside-first :
    (place : Place) (c : ℕ) (cs : List ℕ) → IsOutside place (c ∷ cs) → place ≢ after c
IsOutside-first head c cs n e = cc
IsOutside-first (after d) c cs n e = n.0 cc

pub IsOutside-rest :
    (place : Place) (c : ℕ) (cs : List ℕ) → IsOutside place (c ∷ cs) → IsOutside place cs
IsOutside-rest head c cs n = tt
IsOutside-rest (after d) c cs n = n.1
