-- ===== src/Header.antt =====
-- The header of a hive file: core/hivesum.cpp and core/hiveinit.cpp.
pub mod Checksum
pub mod Verify
