-- ===== src/Pipe.antt =====
-- The pipes of mp4/kernel/pipe.c.
pub mod Defs
pub mod Queue
pub mod Transfer
mod Tests
