-- ===== src/Cells.antt =====
-- core/hivecell.cpp: the cells of a hive.
pub mod State
pub mod FreeIndex
pub mod FreeLists
pub mod Refs
pub mod Bin
pub mod Dirty
