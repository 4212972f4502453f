-- ===== src/Fs/Defs.antt =====
-- The inodes of mp4/kernel/fs.c and the references to them. An inode is its fields and its content,
-- the bytes that `readi` and `writei` see; its copy in memory and the one on the disk agree, since
-- the cache is write-through. An inode is named by its number, the device is always ROOTDEV, and
-- `entry` holds what the inode cache adds. Locks are left out, and so is the panic of `iget` where the
-- inode cache is full. `none` is a panic.
use spring_os_mp.Prelude.{
  ℕ, ◌+◌, ◌-◌, ◌%◌, ◌^◌, Bool, true, false, Option, some, none, List, [], ◌==◌, leb, ◌&&◌, ◌||◌,
  if◌then◌else◌,
}
use spring_os_mp.Prelude.Int.{ℤ}
use spring_os_mp.Prelude.Maps.{update_at}

abbrev pub int_mod : ℕ
int_mod = 2 ^ 32

abbrev pub short_mod : ℕ
short_mod = 2 ^ 16

abbrev pub t_dir : ℕ
t_dir = 1

abbrev pub t_file : ℕ
t_file = 2

abbrev pub t_device : ℕ
t_device = 3

abbrev pub t_symlink : ℕ
t_symlink = 4

abbrev pub root_ino : ℕ
root_ino = 1

abbrev pub dirsiz : ℕ
dirsiz = 14

-- The two bits of a mode that mean something, M_READ and M_WRITE; M_ALL is both.
pub record Mode : Type 0 where
  pub read : Bool
  pub write : Bool

abbrev pub m_all : Mode
m_all = record { read = true; write = true }

-- `nlink` is the bit pattern of a `short`.
pub record Inode : Type 0 where
  pub type : ℕ
  pub major : ℤ
  pub mode : Mode
  pub nlink : ℕ
  pub content : List ℕ

-- `ref` is the bit pattern of an `int`.
pub record Entry : Type 0 where
  pub ref : ℕ
  pub valid : Bool

-- `stores` is whether the blocks and the log let `writei` of an inode store an entry at an offset, of
-- which `bmap` and `log_write` decide: they panic where they do not.
pub record Fs : Type 0 where
  pub inode : ℕ → Inode
  pub entry : ℕ → Entry
  pub ninodes : ℕ
  pub stores : ℕ → ℕ → Bool

abbrev pub put_inode : Fs → ℕ → Inode → Fs
put_inode s i x = record s { inode = update_at s.inode i x }

abbrev pub put_entry : Fs → ℕ → Entry → Fs
put_entry s i e = record s { entry = update_at s.entry i e }

-- `iget`: one more reference; an entry that was not in use is not valid.
unfoldable pub iget : Fs → ℕ → Fs
iget s i =
    let e = s.entry i in
    if e.ref == 0 || leb (2 ^ 31) e.ref
    then put_entry s i (record { ref = 1; valid = false })
    else put_entry s i (record e { ref = (e.ref + 1) % int_mod })

unfoldable pub idup : Fs → ℕ → Fs
idup s i = let e = s.entry i in put_entry s i (record e { ref = (e.ref + 1) % int_mod })

-- `ilock`: it panics where the entry has no reference, or where the inode that it reads is free.
unfoldable pub ilock : Fs → ℕ → Option Fs
ilock s i =
    let e = s.entry i in
    if e.ref == 0 || leb (2 ^ 31) e.ref
    then none
    else if e.valid
    then some s
    else if (s.inode i).type == 0
    then none
    else some (put_entry s i (record e { valid = true }))

-- The inode that `itrunc` and `iput` leave where no one can reach it.
abbrev pub emptied : Inode → Inode
emptied x = record x { type = 0; content = [] }

-- `iput`: one reference less; with the last, an inode without links is truncated and freed.
unfoldable pub iput : Fs → ℕ → Fs
iput s i =
    let e = s.entry i in
    let less = (e.ref + int_mod - 1) % int_mod in
    if e.ref == 1 && e.valid && (s.inode i).nlink == 0
    then record s {
      inode = update_at s.inode i (emptied (s.inode i));
      entry = update_at s.entry i (record { ref = less; valid = false });
    }
    else put_entry s i (record e { ref = less })
