-- ===== src/Names.antt =====
-- Names of keys and values: core/cmname.cpp, and the comparison of strings of core/rtl.cpp.
pub mod Text
pub mod Compress
pub mod Compare
pub mod FindValue
