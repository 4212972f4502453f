-- ===== src/Fs/Dir/Stored.antt =====
-- `dirlink` of mp4/kernel/fs.c over the blocks of its directory: where `writei` panics.
use spring_os_mp.Prelude.{
  ℕ, ◌+◌, ◌/◌, ◌%◌, ◌<◌, ◌≤◌, false, Option, some, none, List, length, ◌≡◌, refl, subst, arith, ◌⊎◌,
  inl, inr, ◌==◌,
}
use spring_os_mp.Journal.Defs.{Fs, log_write}
use spring_os_mp.Fs.Blocks.{
  Blocks, bsize, bmap, then_log, relogged, log_changed, store_entry, is_stored,
}
use spring_os_mp.Fs.Blocks.Logged.{Short, Kept, Logs, Short-later, log_write-Logs, then_log-Logs}
use spring_os_mp.Fs.Blocks.Once.{IsOnce}
use spring_os_mp.Fs.Blocks.Outcome.{Crowded, Maps, bmap-Maps}
use spring_os_mp.Fs.Dir.{dirent_size, max_file_bytes, dirlink}
use spring_os_mp.Fs.Dir.Linked.{Linked, dirlink-Linked}
use spring_os_mp.Prelude.{Bool-cases}
use spring_os_mp.Prelude.{ltb}

-- Why the blocks or the log may not let an entry be stored.
abbrev pub Refused : Blocks → Type 0
Refused s = Crowded s ⊎ Short 7 s.journal

relogged-Refused :
    (s u : Blocks) (o : Option Fs)
    → Kept 5 s.journal u.journal
    → Logs 2 u.journal o
    → is_stored (relogged u o) ≡ false
    → Refused s
relogged-Refused s u none kept l e = inr (Short-later 5 2 7 s.journal u.journal refl kept l)
relogged-Refused s u (some j) kept l e = absurd cc

log_changed-Refused :
    (inode_block : ℕ) (s : Blocks) (k : ℕ) (r : Option (ℕ × Blocks))
    → Maps s k r
    → is_stored (log_changed inode_block r) ≡ false
    → Refused s
log_changed-Refused inode_block s k none (inl h) e = inl h
log_changed-Refused inode_block s k none (inr h) e =
    inr (Short-later 2 5 7 s.journal s.journal refl (refl, refl, omega arith) h)
log_changed-Refused inode_block s k (some (b, u)) (m, kept) e =
    relogged-Refused s u (then_log (log_write u.journal b) inode_block) kept
      (then_log-Logs u.journal (log_write u.journal b) inode_block (log_write-Logs u.journal b)) e

store_entry-Refused :
    (inode_block : ℕ) (s : Blocks) (off : ℕ)
    → IsOnce s
    → off < max_file_bytes
    → is_stored (store_entry inode_block s off) ≡ false
    → Refused s
unfolding store_entry
store_entry-Refused inode_block s off v lt e =
    log_changed-Refused inode_block s (off / bsize) (bmap s (off / bsize))
      (bmap-Maps s (off / bsize) (omega (arith, lt)) v) e

-- For every directory of whole entries, every name, and every inode number that is not 0 as a `ushort`,
-- over blocks of which none is named twice and all are marked: where `writei` stores the entry with `bmap`
-- and `log_write`, `dirlink` panics only where a file has no room for one more entry, or block 0 is not
-- marked, or at most one block of the disk is not, or no transaction is open, or the log has no room for
-- seven more entries.
pub dirlink-Refused :
    (inode_block : ℕ) (s : Blocks) (content name : List ℕ) (inum : ℕ)
    → IsOnce s
    → length content % dirent_size ≡ 0
    → (inum % 65536 == 0) ≡ false
    → dirlink (λ off. is_stored (store_entry inode_block s off)) content name inum ≡ none
    → (max_file_bytes < length content + dirent_size) ⊎ Refused s
dirlink-Refused inode_block s content name inum v whole used e = why (
    subst (Linked (λ off. is_stored (store_entry inode_block s off)) content name inum) e (
      dirlink-Linked (λ off. is_stored (store_entry inode_block s off)) content name inum whole
        used))
  where
    stored_before :
        (l off : ℕ) → (max_file_bytes < l + dirent_size) ⊎ (off ≤ l → off < max_file_bytes)
    stored_before l off = elim (Bool-cases (ltb max_file_bytes (l + dirent_size))) [
      | inl y ↦ inl (ground (arith, y))
      | inr n ↦ inr (λ h. ground (arith, n, h))
    ]

    why :
        Linked (λ off. is_stored (store_entry inode_block s off)) content name inum none
        → (max_file_bytes < length content + dirent_size) ⊎ Refused s
    why (inl h) = inl h
    why (inr (off, le, even, f)) = elim (stored_before (length content) off) [
      | inl h ↦ inl h
      | inr h ↦ inr (store_entry-Refused inode_block s off v (h le) f)
    ]
