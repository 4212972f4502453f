-- ===== src/Lib.antt =====
-- A verification library for the course projects of this repository: the user-level real-time
-- scheduler of MP3 (mp3/xv6/user) with the system calls under it (mp3/xv6/kernel), the slab
-- allocator of MP2 (mp2/kernel), and of MP4 (mp4/kernel) the
-- log, the buffer cache with its simulated RAID 1, the inodes, paths, symbolic links and modes, the
-- pipes and the byte routines.
--
-- How the parts work together. The thread runtime of MP3 keeps a run queue and a release queue and asks
-- a scheduling function for the next thread and its time slice; it runs the thread under `thrdstop`,
-- which the kernel ends by a jump to `switch_handler` when the timer has ticked that often. System
-- calls of MP4 that change the file system run between `begin_op` and `end_op` and call `log_write`
-- instead of `bwrite`; the last one to end commits. The log reads and writes blocks through the
-- buffer cache, whose `bread` and `bwrite` keep two copies of every block on one disk image.
--
-- Prelude        the shared names: tests, lists and integers on native numbers, and loops that pick an
--                element (Prelude/Fold)
-- Sched          mp3/xv6/user/threads_sched.c, threads.c and the records of their headers. Select and
--                Deadline are the scheduling functions (`schedule_default`, `schedule_hrrn`,
--                `schedule_priority_rr`, `schedule_dm`), Runtime and Handlers the functions of
--                threads.c (`__release`, `__schedule`, `__dispatch`, `switch_handler`,
--                `thread_exit`); the handlers take the scheduling function as a parameter, whose
--                contract is the record `Scheduler` and which Schedulers fills. A thread is a record,
--                a queue the list of what it links, and a thread is found by its ID.
-- Journal        mp4/kernel/log.c. Blocks is the contract of the buffer cache and the disk that the
--                log relies on, with every disk that a crash may leave; Defs is the log, which commits
--                and recovers in the LOGSIZE blocks that mkfs gives it: a header and LOGSIZE - 1
--                entries. Reserve adds the system calls as a step relation.
-- Bcache         mp4/kernel/bio.c: the LRU list (`bget`, `brelse`, `bpin`, `bunpin`) and the mirrored
--                copies (`bread`, `bwrite`). The disk under `virtio_disk_rw` is the record `Device`.
--                A call of `bread` or `bwrite` is for a caller that is alone at the cache; Redirect is
--                about what another process meets while they have changed `b->blockno`.
-- Pipe           mp4/kernel/pipe.c: the ring of 512 bytes as a queue (Queue), and what calls move
--                (Transfer).
-- Thrd           mp3/xv6/kernel/thrd.c and what syscall.c, trap.c and proc.c do for it: the flags,
--                contexts and ticks of a process.
-- Strings        mp4/kernel/string.c, on a memory that is a function from addresses to bytes.
-- Files          mp4/kernel/file.c: the reference counts of open files.
-- Fs             mp4/kernel/fs.c and sysfile.c. Defs is the inodes and the references to them (`iget`,
--                `idup`, `ilock`, `iput`), Dir the entries of a directory (`dirlookup`, `dirlink`), Path
--                `skipelem` and `concat_path`, Walk `namex`, Link `follow_symlink`, Create `ialloc`
--                and `create`, Open `sys_open`, Calls `sys_mkdir`, `sys_mknod`, `sys_chdir` and
--                `sys_symlink`, Chmod `chmod_recursive` and `sys_chmod`,
--                Names `sys_link` and `sys_unlink`,
--                Blocks `balloc`, `bfree` and `bmap` with their calls of `log_write`, and the part of
--                `writei` that stores an entry of a directory. Whether an entry can be stored, where
--                `dirlink` is called with a whole file system, is its field `stores`. An inode is its fields and its
--                content as bytes. The path of a call stands in a memory, since `concat_path`
--                builds a path in a static buffer in which the one it is given may stand.
-- Slab           mp2/kernel/slab.c: free lists and the full, partial and free slabs of a cache.
--
-- Bounds. A C `int` of a queue or a time is an unbounded integer, so that overflow of the tick counts
-- is not covered; the counters of pipes, reference counts and counts of objects wrap where the source
-- has a `uint`. Loops go down a list or a count, but for two: `namex` runs on fuel, of which one round
-- for each byte of a path and one more are enough where it follows no links, and where it does the source
-- has no bound; `chmod_recursive` runs on fuel, of which one round for each directory on a way down is
-- enough. `follow_symlink` has the eleven rounds of the source.
--
-- Not modelled. Locks, sleeping and waking: a step is what runs under a lock, and a call that sleeps is
-- modelled up to there. Context switches, page tables, devices and output. Of the file system,
-- `readi`, `itrunc` and the rest of `writei` over the blocks of an inode, reading and writing by a file, the slots
-- of the inode cache, the panics of `log_write` in `iupdate` and of `bread` where no buffer is free,
-- and `sys_readlink`; of MP2 the file table, of MP1 the threads;
-- `kmem_cache_destroy` and `schedule_edf_cbs`, which the source leaves without a body.
pub mod Prelude
pub mod Sched
pub mod Journal
pub mod Bcache
pub mod Thrd
pub mod Slab
pub mod Strings
pub mod Files
pub mod Fs
pub mod Pipe
