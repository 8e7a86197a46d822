-- ===== src/Index/Split/Halves.antt =====
-- The two halves of a leaf that core/cmindex.cpp splits, and the root that lists them.
use ntreg.Base.{ℕ, ◌+◌, ◌/◌, ◌≤◌, ◌<◌, ◌≡◌, ◌≢◌, refl, sym, ◌∙◌, inl, inr, leb, arith, Bool-cases}
use ntreg.Names.Text.{UnicodeString}
use ntreg.Index.Data.{KeyIndex, Cells, key_fast_leaf}
use ntreg.Index.Compare.{compare_in_index}
use ntreg.Index.Leaf.Search.{IsOrdered}
use ntreg.Index.Insert.Entries.{IsSame, compare_in_index-same}
use ntreg.Index.Split.{
  first_half, last_half, split_signature, blank_leaf, upper_leaf, lower_leaf, widened_root,
}

split_signature-slow : (version : ℕ) → split_signature version ≢ key_fast_leaf
split_signature-slow version = ground arith

upper_leaf-IsSame :
    (version : ℕ) (leaf : KeyIndex) (j : ℕ)
    → leaf.signature ≡ split_signature version
    → j < last_half leaf
    → IsSame (upper_leaf version leaf) leaf j (j + first_half leaf)
unfolding upper_leaf blank_leaf
upper_leaf-IsSame version leaf j e inside = elim (Bool-cases (leb 5 version)) [
  | inl new ↦ rw new (record {
    signature = ground arith;
    cell = ground arith;
    hint = λ fast. absurd (split_signature-slow version (sym e ∙ fast));
    hash = λ hashed. ground arith;
  })
  | inr old ↦ rw old (record {
    signature = ground arith;
    cell = ground arith;
    hint = λ fast. absurd (split_signature-slow version (sym e ∙ fast));
    hash = λ hashed. ground (arith, old, e, hashed);
  })
]

upper_leaf-count :
    (version : ℕ) (leaf : KeyIndex) → (upper_leaf version leaf).count ≡ last_half leaf
unfolding upper_leaf
upper_leaf-count version leaf = ground arith

-- A stretch of an ordered leaf is ordered.
IsSame-IsOrdered :
    (h : Cells) (name : UnicodeString) (x y : KeyIndex) (from n : ℕ)
    → from + n ≤ y.count
    → ((j : ℕ) → j < n → IsSame x y j (j + from))
    → IsOrdered (compare_in_index h name y) y.count
    → IsOrdered (compare_in_index h name x) n
IsSame-IsOrdered h name x y from n le same o =
    let e = λ (j : ℕ) (q : j < n). compare_in_index-same h name x y j (j + from) (same j q) in
    record {
      readable = λ i q. rw (e i q) (o.readable (i + from) (omega arith));
      ordered = λ i j q r.
          rw (e i (omega arith), e j r)
            (o.ordered (i + from) (j + from) (omega arith) (omega arith));
    }

-- The root has the new leaf behind the one that was split.
pub record Widened (root : KeyIndex) (select new_cell : ℕ) (x : KeyIndex) : Type 0 where
  pub count_lem : x.count ≡ root.count + 1
  pub up_to : (j : ℕ) → j ≤ select → x.cell j ≡ root.cell j
  pub at_new : x.cell (select + 1) ≡ new_cell
  pub shifted : (j : ℕ) → select < j → j < root.count → x.cell (j + 1) ≡ root.cell j
  pub signature : x.signature ≡ root.signature

pub widened_root-Widened :
    (root : KeyIndex) (select new_cell : ℕ)
    → select < root.count
    → root.count + 1 < 0x1_0000
    → Widened root select new_cell (widened_root root select new_cell)
unfolding widened_root
widened_root-Widened root select new_cell inside few = record {
  count_lem = omega arith;
  up_to = λ j q. ground arith;
  at_new = ground arith;
  shifted = λ j q r. ground arith;
  signature = refl;
}

-- A leaf is divided in two, with the same entries in the same order.
pub record Halves (h : Cells) (leaf lower upper : KeyIndex) : Type 0 where
  pub lower_count : lower.count ≡ leaf.count / 2
  pub counts : lower.count + upper.count ≡ leaf.count
  pub lower_same : (j : ℕ) → j < lower.count → IsSame lower leaf j j
  pub upper_same : (j : ℕ) → j < upper.count → IsSame upper leaf j (j + lower.count)
  pub ordered :
      (name : UnicodeString)
      → IsOrdered (compare_in_index h name leaf) leaf.count
      → IsOrdered (compare_in_index h name lower) lower.count
        × IsOrdered (compare_in_index h name upper) upper.count

pub upper_leaf-Halves :
    (h : Cells) (version : ℕ) (leaf : KeyIndex)
    → leaf.signature ≡ split_signature version
    → Halves h leaf (lower_leaf leaf) (upper_leaf version leaf)
unfolding lower_leaf
upper_leaf-Halves h version leaf e =
    let n = upper_leaf-count version leaf in
    record {
      lower_count = refl;
      counts = omega (arith, n);
      lower_same = λ j q. record {
        signature = refl;
        cell = refl;
        hint = λ fast. refl;
        hash = λ hashed. refl;
      };
      upper_same = λ j q. upper_leaf-IsSame version leaf j e (omega (arith, n));
      ordered = λ name o. (
        IsSame-IsOrdered h name (lower_leaf leaf) leaf 0 (first_half leaf) (omega arith)
            (λ j q.
              let zero_more : j + 0 ≡ j = omega arith in
              rw zero_more (record {
                signature = refl;
                cell = refl;
                hint = λ fast. refl;
                hash = λ hashed. refl;
              }))
            o,
        IsSame-IsOrdered h name (upper_leaf version leaf) leaf (first_half leaf)
            (upper_leaf version leaf).count (omega (arith, n))
            (λ j q. upper_leaf-IsSame version leaf j e (omega (arith, n))) o,
      );
    }
