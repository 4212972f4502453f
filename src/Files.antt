-- ===== src/Files.antt =====
-- The file table of mp4/kernel/file.c.
pub mod Defs
pub mod Refs
mod Tests
