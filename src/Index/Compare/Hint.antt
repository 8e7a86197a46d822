-- ===== src/Index/Compare/Hint.antt =====
-- The name hint of a fast leaf is an optimisation: the comparison that looks at it first gives what
-- the comparison of the full name gives.
use ntreg.Base.{ℕ, zero, suc, ◌+◌, ◌≤◌, ◌<◌, min, ◌≡◌, refl, ◌⊎◌, inl, true, some, arith}
use ntreg.Names.Text.{UnicodeString, count}
use ntreg.Names.Compare.{compressed_loop, compare_compressed_name}
use ntreg.Index.Data.{KeyNode, KeyIndex, Cells}
use ntreg.Index.Compare.{
  equal, normalize, do_compare_key_name, hint_length, hint_loop, full_compare, compare_in_index,
}

-- The hint holds the first characters of a compressed name, with zeros behind a short one.
pub record IsHint (n : KeyNode) (hint : ℕ → ℕ) : Type 0 where
  pub compressed : n.comp_name ≡ true
  pub prefix : (j : ℕ) → j < 4 → j < n.name_length → hint j ≡ n.name j
  pub padding : (j : ℕ) → j < 4 → n.name_length ≤ j → hint j ≡ 0

hint_loop_lem :
    (m p q : ℕ) (s : UnicodeString) (hint name : ℕ → ℕ) (i : ℕ)
    → m ≤ p
    → m ≤ q
    → ((j : ℕ) → i ≤ j → j < i + m → hint j ≡ name j)
    → (hint_loop m s hint i ≡ equal)
      ⊎ (normalize (compressed_loop p q s name i) ≡ hint_loop m s hint i)
unfolding hint_loop compressed_loop
hint_loop_lem zero p q s hint name i hp hq h = inl refl
hint_loop_lem (suc m) zero q s hint name i hp hq h = absurd (omega arith)
hint_loop_lem (suc m) (suc p) zero s hint name i hp hq h = absurd (omega arith)
hint_loop_lem (suc m) (suc p) (suc q) s hint name i hp hq h = ground (
  arith,
  h i (omega arith) (omega arith),
  hint_loop_lem m p q s hint name (i + 1) (omega arith) (omega arith)
      (λ j a b. h j (omega arith) (omega arith)),
)

hint_length-le :
    (n : KeyNode) (hint : ℕ → ℕ) → IsHint n hint → hint_length hint ≤ min n.name_length 4
hint_length-le n hint h = ground (arith, h.padding 0, h.padding 1, h.padding 2, h.padding 3)

-- In a fast leaf with right hints, looking at the hint first changes neither the result nor *SubKey.
pub compare_in_index-full_compare :
    (h : Cells) (search : UnicodeString) (index : KeyIndex) (i : ℕ) (n : KeyNode)
    → h.node (index.cell i) ≡ some n
    → IsHint n (index.name_hint i)
    → compare_in_index h search index i ≡ full_compare h search (index.cell i)
unfolding compare_in_index full_compare do_compare_key_name compare_compressed_name
compare_in_index-full_compare h search index i n cell is = ground (
  arith,
  cell,
  is.compressed,
  hint_loop_lem (min (count search) (hint_length (index.name_hint i))) (count search) n.name_length
      search (index.name_hint i) n.name 0 (omega arith)
      (omega (arith, hint_length-le n (index.name_hint i) is))
      (λ j a b.
        is.prefix j (omega (arith, hint_length-le n (index.name_hint i) is))
          (omega (arith, hint_length-le n (index.name_hint i) is))),
)
