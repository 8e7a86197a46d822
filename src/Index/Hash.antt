-- ===== src/Index/Hash.antt =====
-- core/cmindex.cpp: `CmpComputeHashKey` and `CmpFindSubKeyByHash`.
pub mod Laws
use ntreg.Base.{
  ℕ, zero, suc, ◌+◌, ◌-◌, ◌*◌, ◌/◌, ◌%◌, Bool, true, false, ltb, leb, ◌==◌, ◌&&◌, if◌then◌else◌,
  ulong,
}
use ntreg.Names.Text.{UnicodeString, count, upcase}
use ntreg.Index.Data.{KeyIndex, Cells, hcell_nil}
use ntreg.Index.Compare.{Order, equal, do_compare_key_name}

-- The value of a character: lower case is turned to upper case, in place or by the runtime.
unfoldable pub hash_value : ℕ → ℕ
hash_value c = if leb b'a' c then (if ltb c b'z' then c - b'a' + b'A' else upcase c) else c

-- The loop over the characters left. The steps of two bytes over `Length` stand for a rounding up
-- of an odd length.
unfoldable pub hash_loop : (left : ℕ) → UnicodeString → (hash i : ℕ) → ℕ
hash_loop zero s hash i = hash
hash_loop (suc left) s hash i =
    hash_loop left s ((hash * 37 % ulong + hash_value (s.buffer i)) % ulong) (i + 1)

unfoldable pub compute_hash_key : (hash : ℕ) → UnicodeString → ℕ
compute_hash_key hash s = if s.length == 0 then hash else hash_loop ((s.length + 1) / 2) s hash 0

-- for (i = 0; i < Count; i++), over the entries left.
unfoldable pub by_hash_loop : (left : ℕ) → Cells → KeyIndex → UnicodeString → (hash i : ℕ) → ℕ
by_hash_loop zero h index search hash i = hcell_nil
by_hash_loop (suc left) h index search hash i =
    let rest = by_hash_loop left h index search hash (i + 1) in
    if index.hash_key i == hash
    then (elim (do_compare_key_name h search (index.cell i)) [ equal ↦ index.cell i | _ ↦ rest ])
    else rest

unfoldable pub find_sub_key_by_hash : Cells → KeyIndex → UnicodeString → ℕ
find_sub_key_by_hash h index search =
    by_hash_loop index.count h index search (compute_hash_key 0 search) 0
