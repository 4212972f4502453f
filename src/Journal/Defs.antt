-- ===== src/Journal/Defs.antt =====
-- The state and the functions of mp4/kernel/log.c. `lh.block` holds the first `lh.n` entries of the
-- array, so that `lh.n` is its length. Locks are left out: a call is one step, and where the code
-- sleeps the step says so. `none` is a panic.
use spring_os_mp.Prelude.{
  ℕ, zero, suc, ◌+◌, ◌-◌, ◌*◌, Bool, true, false, Option, some, none, List, [], ◌∷◌, length, get_or,
  set, ltb, leb, ◌==◌, ◌||◌, if◌then◌else◌,
}
use spring_os_mp.Journal.Blocks.{Data, Disk, Blocks, bread, modify, bwrite, restart}

abbrev pub max_op_blocks : ℕ
max_op_blocks = 10

abbrev pub log_size : ℕ
log_size = 30

-- The entries for which a log of `log_size` blocks, as mkfs makes it, has room beside its header.
abbrev pub log_entries : ℕ
log_entries = 29

-- `struct log`; `dev` is one device.
pub record Log : Type 0 where
  pub start : ℕ
  pub size : ℕ
  pub outstanding : ℕ
  pub committing : Bool
  pub block : List ℕ

pub record Fs : Type 0 where
  pub log : Log
  pub blocks : Blocks

-- The loop of `install_trans`, from `tail` on.
unfoldable pub install_from : ℕ → ℕ → List ℕ → Blocks → Blocks
install_from start tail [] s = s
install_from start tail (b ∷ bs) s =
    install_from start (suc tail) bs (bwrite (modify s b (bread s (start + tail + 1))) b)

unfoldable pub install_trans : Fs → Fs
unfolding install_from
install_trans f = record f { blocks = install_from f.log.start 0 f.log.block f.blocks }

-- The loop of `read_head`: `count` entries from entry `i` on.
unfoldable pub entries_from : Data → ℕ → ℕ → List ℕ
entries_from h i zero = []
entries_from h i (suc count) = get_or h (suc i) 0 ∷ entries_from h (suc i) count

unfoldable pub read_head : Fs → Fs
unfolding entries_from
read_head f =
    let h = bread f.blocks f.log.start in
    record f { log = record f.log { block = entries_from h 0 (get_or h 0 0) } }

-- The loop of `write_head`.
unfoldable pub fill_from : Data → ℕ → List ℕ → Data
fill_from h i [] = h
fill_from h i (b ∷ bs) = fill_from (set h (suc i) b) (suc i) bs

unfoldable pub write_head : Fs → Fs
unfolding fill_from
write_head f =
    let h = bread f.blocks f.log.start in
    let s = modify f.blocks f.log.start (fill_from (set h 0 (length f.log.block)) 0 f.log.block) in
    record f { blocks = bwrite s f.log.start }

unfoldable pub clear : Fs → Fs
clear f = record f { log = record f.log { block = [] } }

unfoldable pub recover_from_log : Fs → Fs
unfolding read_head install_trans clear write_head
recover_from_log f = write_head (clear (install_trans (read_head f)))

-- `initlog` after a restart, with `logstart` and `nlog` of the superblock.
unfoldable pub initlog : ℕ → ℕ → Disk → Fs
unfolding recover_from_log
initlog logstart nlog d = recover_from_log (record {
  log = record { start = logstart; size = nlog; outstanding = 0; committing = false; block = [] };
  blocks = restart d [];
})

-- One pass of the loop of `begin_op`: `none` where it sleeps.
unfoldable pub begin_op : Fs → Option Fs
begin_op f =
    if f.log.committing
    then none
    else if ltb log_size (length f.log.block + (f.log.outstanding + 1) * max_op_blocks)
    then none
    else some (record f { log = record f.log { outstanding = f.log.outstanding + 1 } })

-- The loop of `write_log`, from `tail` on.
unfoldable pub write_log_from : ℕ → ℕ → List ℕ → Blocks → Blocks
write_log_from start tail [] s = s
write_log_from start tail (b ∷ bs) s =
    write_log_from start (suc tail) bs
      (bwrite (modify s (start + tail + 1) (bread s b)) (start + tail + 1))

unfoldable pub write_log : Fs → Fs
unfolding write_log_from
write_log f = record f { blocks = write_log_from f.log.start 0 f.log.block f.blocks }

unfoldable pub commit : Fs → Fs
unfolding write_log write_head install_trans clear
commit f =
    if length f.log.block == 0
    then f
    else write_head (clear (install_trans (write_head (write_log f))))

-- The first part of `end_op`, under the lock; the test is `do_commit`. `none` is a panic, and also
-- a call that no `begin_op` has opened, which would bring `outstanding` below 0.
unfoldable pub end_op_start : Fs → Option (Fs × Bool)
end_op_start f =
    if f.log.outstanding == 0 || f.log.committing
    then none
    else if f.log.outstanding == 1
    then some (record f { log = record f.log { outstanding = 0; committing = true } }, true)
    else some (record f { log = record f.log { outstanding = f.log.outstanding - 1 } }, false)

-- The second part, where `do_commit` is set.
unfoldable pub end_op_commit : Fs → Fs
unfolding commit
end_op_commit f = let f' = commit f in record f' { log = record f'.log { committing = false } }

unfoldable pub end_op : Fs → Option Fs
unfolding end_op_start end_op_commit
end_op f = elim (end_op_start f) [
  | none ↦ none
  | some (f', do_commit) ↦ some (if do_commit then end_op_commit f' else f')
]

-- The loop of `log_write`: absorb a block that is there, else add it at the end.
unfoldable pub absorb : ℕ → List ℕ → List ℕ
absorb b [] = b ∷ []
absorb b (c ∷ cs) = if c == b then b ∷ cs else c ∷ absorb b cs

-- `log_write` of a buffer for block `b`, whose data the caller has changed.
unfoldable pub log_write : Fs → ℕ → Option Fs
unfolding absorb
log_write f b =
    if leb log_size (length f.log.block) || leb (f.log.size - 1) (length f.log.block)
    then none
    else if ltb f.log.outstanding 1
    then none
    else some (record f { log = record f.log { block = absorb b f.log.block } })
