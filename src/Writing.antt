-- ===== src/Writing.antt =====
-- core/hivewrt.cpp: the log, the primary file and the alternate file of a hive.
pub mod File
pub mod Primary
pub mod Log
pub mod Sync
pub mod Blocks
pub mod Calls
pub mod Loops
pub mod Order
pub mod Contents
pub mod Durable
pub mod Torn
pub mod Logged
pub mod Stages
pub mod Synced
pub mod Ahead
pub mod Verified
