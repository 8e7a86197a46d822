-- ===== src/Bitmap.antt =====
-- core/bitmap.cpp: bitmaps of 32-bit words, the dirty vector of a hive among them.
pub mod State
pub mod Ranges
pub mod Runs
pub mod Find
pub mod Longest
pub mod Count
pub mod ClearRuns
