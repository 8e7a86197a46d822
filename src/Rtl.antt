-- ===== src/Rtl.antt =====
-- core/rtl.cpp: the parts of the runtime that the other components call.
pub mod Scan
