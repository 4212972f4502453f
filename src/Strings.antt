-- ===== src/Strings.antt =====
-- The byte routines of mp4/kernel/string.c.
pub mod Defs
pub mod Move
pub mod Copy
mod Tests
