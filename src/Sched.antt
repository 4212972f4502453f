-- ===== src/Sched.antt =====
-- The user-level scheduler of mp3 (mp3/xv6/user/threads.h, threads_sched.h, threads_sched.c).
pub mod Defs
pub mod Select
pub mod Deadline
pub mod Ratio
pub mod Optimal
pub mod Hrrn
pub mod Dm
pub mod Allocation
pub mod Priority
pub mod Runtime
pub mod Handlers
pub mod Release
pub mod Conserve
pub mod Lifecycle
pub mod Schedulers
mod Tests
