-- ===== src/Fs/Blocks.antt =====
-- The blocks of an inode: `balloc`, `bfree` and `bmap` of mp4/kernel/fs.c. The bitmap is a function from
-- block numbers, a block that holds block numbers a function from places in it. Which blocks a transaction
-- names is in `journal`, the log of Journal/Defs.antt, whose own copy of the disk is not used here. `none`
-- is a panic. Every `bread` is taken to find a buffer.
pub mod Logged
pub mod Once
pub mod Map
pub mod Outcome
use spring_os_mp.Prelude.{
  ℕ, zero, suc, ◌+◌, ◌-◌, Bool, true, false, Option, some, none, ◌==◌, ltb, not, ◌/◌, if◌then◌else◌,
}
use spring_os_mp.Prelude.Maps.{update_at}
use spring_os_mp.Journal.Defs.{Fs, log_write}

abbrev pub ndirect : ℕ
ndirect = 12

-- `BSIZE / sizeof(uint)`
abbrev pub nindirect : ℕ
nindirect = 256

abbrev pub bsize : ℕ
bsize = 1024

-- `BPB`
abbrev pub bits_per_block : ℕ
bits_per_block = 8192

-- The disk, `addrs` of the inode, and the log.
pub record Blocks : Type 0 where
  pub size : ℕ
  pub bmapstart : ℕ
  pub used : ℕ → Bool
  pub words : ℕ → ℕ → ℕ
  pub addrs : ℕ → ℕ
  pub journal : Fs

-- `log_write` of one block after the other.
abbrev pub then_log : Option Fs → ℕ → Option Fs
then_log none b = none
then_log (some f) b = log_write f b

-- `BBLOCK`
abbrev pub bitmap_block : Blocks → ℕ → ℕ
bitmap_block s b = b / bits_per_block + s.bmapstart

-- The loops of `balloc` from a block on, with the rounds left.
unfoldable pub first_unused : (ℕ → Bool) → ℕ → ℕ → Option ℕ
first_unused used b zero = none
first_unused used b (suc n) =
    let rest = first_unused used (b + 1) n in if not (used b) then some b else rest

-- The block marked and zeroed, once both has been logged.
abbrev pub mark_logged : Blocks → ℕ → Option Fs → Option (ℕ × Blocks)
mark_logged s b none = none
mark_logged s b (some journal) = some (
  b,
  record s {
    used = update_at s.used b true;
    words = update_at s.words b (λ i. 0);
    journal = journal;
  },
)

-- `balloc` for the block that its loops find: the block of the bitmap is logged, and then in `bzero`
-- the block.
abbrev pub mark : Blocks → Option ℕ → Option (ℕ × Blocks)
mark s none = none
mark s (some b) = mark_logged s b (then_log (log_write s.journal (bitmap_block s b)) b)

unfoldable pub balloc : Blocks → Option (ℕ × Blocks)
unfolding first_unused
balloc s = mark s (first_unused s.used 0 s.size)

abbrev pub free_logged : Blocks → ℕ → Option Fs → Option Blocks
free_logged s b none = none
free_logged s b (some journal) =
    some (record s { used = update_at s.used b false; journal = journal })

unfoldable pub bfree : Blocks → ℕ → Option Blocks
bfree s b =
    if not (s.used b) then none else free_logged s b (log_write s.journal (bitmap_block s b))

-- A new block is stored, unless it is block 0.
abbrev pub store_block : (ℕ → Blocks → Blocks) → Option (ℕ × Blocks) → Option (ℕ × Blocks)
store_block put none = none
store_block put (some (b, s)) = if b == 0 then none else some (b, put b s)

abbrev pub put_addr : ℕ → ℕ → Blocks → Blocks
put_addr i b s = record s { addrs = update_at s.addrs i b }

abbrev pub put_word : ℕ → ℕ → ℕ → Blocks → Blocks
put_word addr n b s = record s { words = update_at s.words addr (update_at (s.words addr) n b) }

-- The end of `bmap`, where the indirect block has changed: it is logged.
abbrev pub log_stored : ℕ → Option (ℕ × Blocks) → Option (ℕ × Blocks)
log_stored addr none = none
log_stored addr (some (b, s)) = elim (log_write s.journal addr) [
  | none ↦ none
  | some journal ↦ some (b, record s { journal = journal })
]

-- The block that `addrs` names at a place.
abbrev pub direct : Blocks → ℕ → Option (ℕ × Blocks)
direct s i = if s.addrs i == 0 then store_block (put_addr i) (balloc s) else some (s.addrs i, s)

-- The block that the indirect block names at a place.
abbrev pub indirect : ℕ → Option (ℕ × Blocks) → Option (ℕ × Blocks)
indirect n none = none
indirect n (some (addr, s)) =
    if s.words addr n == 0
    then log_stored addr (store_block (put_word addr n) (balloc s))
    else some (s.words addr n, s)

unfoldable pub bmap : Blocks → ℕ → Option (ℕ × Blocks)
unfolding balloc
bmap s bn =
    if ltb bn ndirect
    then direct s bn
    else if ltb (bn - ndirect) nindirect
    then indirect (bn - ndirect) (direct s ndirect)
    else none

abbrev pub relogged : Blocks → Option Fs → Option Blocks
relogged s none = none
relogged s (some journal) = some (record s { journal = journal })

-- The logging of the block that `writei` has changed, and of the block of the inode in `iupdate`.
abbrev pub log_changed : ℕ → Option (ℕ × Blocks) → Option Blocks
log_changed inode_block none = none
log_changed inode_block (some (b, s)) = relogged s (then_log (log_write s.journal b) inode_block)

-- What `writei` of an entry at an offset does to the blocks: an entry lies in one block, so that the
-- loop is run once.
unfoldable pub store_entry : ℕ → Blocks → ℕ → Option Blocks
unfolding bmap
store_entry inode_block s off = log_changed inode_block (bmap s (off / bsize))

abbrev pub is_stored : Option Blocks → Bool
is_stored none = false
is_stored (some s) = true
