-- ===== src/Journal.antt =====
-- The write-ahead log of mp4/kernel/log.c, on the blocks that mp4/kernel/bio.c serves.
pub mod Blocks
pub mod Defs
pub mod Install
pub mod Header
pub mod WriteLog
pub mod Recover
pub mod Commit
pub mod Reserve
mod Tests
