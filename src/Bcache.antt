-- ===== src/Bcache.antt =====
-- The buffer cache of mp4/kernel/bio.c and the simulated RAID 1 under it.
pub mod Defs
pub mod Mirror
pub mod Lookup
pub mod Unique
pub mod Release
pub mod Redirect
mod Tests
