-- ===== src/Thrd.antt =====
-- The thread contexts that mp3/xv6/kernel/thrd.c and trap.c keep for a process.
pub mod Defs
pub mod Contexts
pub mod Bounds
pub mod Return
pub mod Timer
pub mod Saved
mod Tests
