-- ===== src/Index.antt =====
-- core/cmindex.cpp: the indexes of the subkeys of a key, and the searches in them.
pub mod Data
pub mod Compare
pub mod Leaf
pub mod Hash
pub mod Number
pub mod Root
pub mod ByName
pub mod Store
pub mod Insert
pub mod Remove
pub mod Split
