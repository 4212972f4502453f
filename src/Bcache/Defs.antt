-- ===== src/Bcache/Defs.antt =====
-- `struct buf` and the operations of mp4/kernel/bio.c. The LRU list is the list of its buffers, the
-- most recently used first; a pointer to a buffer is its `slot` in `bcache.buf`. Locks and the
-- diagnostic output are left out. `virtio_disk_rw` is a parameter: it reads or writes the block of
-- the disk that `b->blockno` names.
use spring_os_mp.Prelude.{
  zero, suc, ℕ, ◌+◌, ◌-◌, ◌%◌, ◌^◌, Bool, true, false, Option, some, none, List, [], ◌∷◌, not, ◌==◌,
  ltb, ◌&&◌, ◌||◌, ◌≡◌, ◌≢◌, if◌then◌else◌,
}
use spring_os_mp.Prelude.Int.{ℤ, pos, negsuc, eqb_ℤ}

abbrev pub uint_mod : ℕ
uint_mod = 2 ^ 32

abbrev pub logical_disk_size : ℕ
logical_disk_size = 2048

abbrev pub disk1_start_block : ℕ
disk1_start_block = 2048

pub record Buf : Type 0 where
  pub slot : ℕ
  pub valid : Bool
  pub dev : ℕ
  pub blockno : ℕ
  pub refcnt : ℕ
  pub «data» : List ℕ

-- The two variables that simulate failures, -1 where there is none.
pub record Failure : Type 0 where
  pub force_read_error_pbn : ℤ
  pub force_disk_fail_id : ℤ

-- The cast of a `uint` to `int`.
abbrev pub to_int : ℕ → ℤ
to_int n = if ltb n (2 ^ 31) then pos n else negsuc (uint_mod - n - 1)

-- A disk as `virtio_disk_rw` reads and writes it: a read gives what was last written to the block.
pub record Device (D : Type 0) : Type 0 where
  pub read : D → ℕ → List ℕ
  pub write : D → ℕ → List ℕ → D
  pub read-write_same : (d : D) (n : ℕ) (block : List ℕ) → read (write d n block) n ≡ block
  pub read-write_other :
      (d : D) (n m : ℕ) (block : List ℕ) → n ≢ m → read (write d n block) m ≡ read d m

-- `binit`: each of the `n` buffers goes to the front of the list, on memory that is zero.
unfoldable pub binit : ℕ → List Buf
binit zero = []
binit (suc n) =
    record { slot = n; valid = false; dev = 0; blockno = 0; refcnt = 0; «data» = [] } ∷ binit n

abbrev pub is_block : ℕ → ℕ → Buf → Bool
is_block dev blockno b = b.dev == dev && b.blockno == blockno

abbrev pub behind : Buf → Option (Buf × List Buf) → Option (Buf × List Buf)
behind c none = none
behind c (some (b, bs)) = some (b, c ∷ bs)

-- The first loop of `bget`: from the front of the list.
unfoldable pub find_cached : ℕ → ℕ → List Buf → Option (Buf × List Buf)
find_cached dev blockno [] = none
find_cached dev blockno (b ∷ bs) =
    let rest = find_cached dev blockno bs in
    let b' : Buf = record b { refcnt = (b.refcnt + 1) % uint_mod } in
    if is_block dev blockno b then some (b', b' ∷ bs) else behind b rest

abbrev pub recycle_here : ℕ → ℕ → Buf → List Buf → Option (Buf × List Buf) → Option (Buf × List Buf)
recycle_here dev blockno b bs (some r) = behind b (some r)
recycle_here dev blockno b bs none =
    let b' : Buf = record b { valid = false; dev = dev; blockno = blockno; refcnt = 1 } in
    if b.refcnt == 0 then some (b', b' ∷ bs) else none

-- The second loop of `bget`: from the back of the list.
unfoldable pub recycle : ℕ → ℕ → List Buf → Option (Buf × List Buf)
recycle dev blockno [] = none
recycle dev blockno (b ∷ bs) = recycle_here dev blockno b bs (recycle dev blockno bs)

abbrev pub or_recycle : ℕ → ℕ → List Buf → Option (Buf × List Buf) → Option (Buf × List Buf)
or_recycle dev blockno bs (some r) = some r
or_recycle dev blockno bs none = recycle dev blockno bs

-- `bget`, with `none` for its panic.
unfoldable pub bget : List Buf → ℕ → ℕ → Option (Buf × List Buf)
bget bs dev blockno = or_recycle dev blockno bs (find_cached dev blockno bs)

-- A write through the pointer to the buffer with the slot of `b`.
abbrev pub update : Buf → List Buf → List Buf
update b [] = []
update b (c ∷ cs) = (if c.slot == b.slot then b else c) ∷ update b cs

abbrev pub at_slot : ℕ → List Buf → Option Buf
at_slot slot [] = none
at_slot slot (b ∷ bs) = if b.slot == slot then some b else at_slot slot bs

abbrev pub without_slot : ℕ → List Buf → List Buf
without_slot slot [] = []
without_slot slot (b ∷ bs) = if b.slot == slot then bs else b ∷ without_slot slot bs

abbrev pub add_refcnt : ℕ → Buf → Buf
add_refcnt n b = record b { refcnt = (b.refcnt + n) % uint_mod }

abbrev pub release_buf : List Buf → Option Buf → List Buf
release_buf bs none = bs
release_buf bs (some b) =
    let b' : Buf = add_refcnt (uint_mod - 1) b in
    if b'.refcnt == 0 then b' ∷ without_slot b.slot bs else update b' bs

-- `brelse` of the buffer at a slot.
unfoldable pub brelse : List Buf → ℕ → List Buf
brelse bs slot = release_buf bs (at_slot slot bs)

abbrev pub count_buf : ℕ → List Buf → Option Buf → List Buf
count_buf n bs none = bs
count_buf n bs (some b) = update (add_refcnt n b) bs

unfoldable pub bpin : List Buf → ℕ → List Buf
bpin bs slot = count_buf 1 bs (at_slot slot bs)

unfoldable pub bunpin : List Buf → ℕ → List Buf
bunpin bs slot = count_buf (uint_mod - 1) bs (at_slot slot bs)

abbrev pub name_block : ℕ → List Buf → Option Buf → List Buf
name_block blockno bs none = bs
name_block blockno bs (some b) = update (record b { blockno = blockno }) bs

-- `b->blockno = ...` for the buffer at a slot, as `bread` and `bwrite` do before and after
-- `virtio_disk_rw`, without the lock of the cache.
unfoldable pub redirect : List Buf → ℕ → ℕ → List Buf
redirect bs slot blockno = name_block blockno bs (at_slot slot bs)

-- `is_forced_fail_target` in `bread`.
abbrev pub is_forced : Failure → ℕ → Bool
is_forced f blockno =
    eqb_ℤ f.force_disk_fail_id (pos 0) || eqb_ℤ f.force_read_error_pbn (to_int blockno)

abbrev pub mirror_of : ℕ → ℕ
mirror_of blockno = (blockno + disk1_start_block) % uint_mod

module _ {D : Type 0} (device : Device D) where
  -- `bread` once it has its buffer.
  unfoldable pub fill : Failure → D → Buf → Buf
  fill f d b =
      let forced = is_forced f b.blockno in
      if not b.valid || forced
      then record b {
        «data» = if forced then device.read d (mirror_of b.blockno) else device.read d b.blockno;
        valid = true;
      }
      else b

  abbrev pub filled : Failure → D → Option (Buf × List Buf) → Option (Buf × List Buf)
  filled f d none = none
  filled f d (some (b, bs)) = let b' = fill f d b in some (b', update b' bs)

  -- The whole of `bread` and, below, of `bwrite`, for a caller that is alone at the cache. What another
  -- process sees while `b->blockno` names the mirror is left to `redirect`.
  unfoldable pub bread : Failure → D → List Buf → ℕ → ℕ → Option (Buf × List Buf)
  bread f d bs dev blockno = filled f d (bget bs dev blockno)

  -- In the end `bwrite` has restored `b->blockno`, so that only the disk has changed.
  unfoldable pub bwrite : Failure → D → Buf → D
  bwrite f d b =
      let pbn0 = b.blockno in
      let d0 : D =
        if eqb_ℤ f.force_disk_fail_id (pos 0)
        then d
        else if eqb_ℤ f.force_read_error_pbn (to_int pbn0)
        then d
        else device.write d pbn0 b.«data» in
      if eqb_ℤ f.force_disk_fail_id (pos 1) then d0 else device.write d0 (mirror_of pbn0) b.«data»
