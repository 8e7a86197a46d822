-- ===== src/Index/Data.antt =====
-- include/cmdata.hpp: key nodes and subkey indexes, as cells hold them. A cell is read through
-- `HvGetCell`, which may return NULL; releasing a cell does nothing, since no hive of this program
-- has a release routine.
use ntreg.Base.{ℕ, Bool, Option}
use ntreg.Names.Text.{Bytes}

-- The fields of a `CM_KEY_NODE` that the searches read. `comp_name` is the flag KEY_COMP_NAME.
pub record KeyNode : Type 0 where
  pub comp_name : Bool
  pub name_length : ℕ
  pub name : Bytes
  pub stable_count : ℕ
  pub volatile_count : ℕ
  pub stable_list : ℕ
  pub volatile_list : ℕ

-- A `CM_KEY_INDEX` or `CM_KEY_FAST_INDEX`: `cell i` is `List[i]` or `List[i].Cell`, and the other
-- two are what a fast and a hash leaf have in `List[i]` beside it.
pub record KeyIndex : Type 0 where
  pub signature : ℕ
  pub count : ℕ
  pub cell : ℕ → ℕ
  pub name_hint : ℕ → ℕ → ℕ
  pub hash_key : ℕ → ℕ

pub record Cells : Type 0 where
  pub node : ℕ → Option KeyNode
  pub index : ℕ → Option KeyIndex
  -- `StorageTypeCount`
  pub storage_type_count : ℕ

abbrev pub hcell_nil : ℕ
hcell_nil = 0xFFFF_FFFF

abbrev pub key_index_root : ℕ
key_index_root = 0x6972

abbrev pub key_index_leaf : ℕ
key_index_leaf = 0x696C

abbrev pub key_fast_leaf : ℕ
key_fast_leaf = 0x666C

abbrev pub key_hash_leaf : ℕ
key_hash_leaf = 0x686C

abbrev pub invalid_index : ℕ
invalid_index = 0x8000_0000
