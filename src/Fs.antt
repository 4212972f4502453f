-- ===== src/Fs.antt =====
-- The file system of mp4/kernel/fs.c and sysfile.c over the contents of inodes.
pub mod Defs
pub mod Counts
pub mod Stable
pub mod Dir
pub mod Path
pub mod Walk
pub mod Link
pub mod Create
pub mod Open
pub mod Calls
pub mod Chmod
pub mod Names
pub mod Blocks
mod Tests
