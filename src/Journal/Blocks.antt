-- ===== src/Journal/Blocks.antt =====
-- What log.c relies on of the buffer cache and the disk: `bread` returns the cached contents of a
-- block, a write to a buffer's data changes the cached contents only, and `bwrite` brings them to
-- the disk. A block is its words, since the log header is read as an array of `int`. `images` are
-- the disks that the writes have left behind, the newest first: a crash leaves one of them.
use spring_os_mp.Prelude.{ℕ, List, ◌∷◌, ◌==◌, if◌then◌else◌}

abbrev pub Data : Type 0
Data = List ℕ

abbrev pub Disk : Type 0
Disk = ℕ → Data

abbrev pub put : Disk → ℕ → Data → Disk
put f b d c = if b == c then d else f c

pub record Blocks : Type 0 where
  pub cached : Disk
  pub disk : Disk
  pub images : List Disk

abbrev pub bread : Blocks → ℕ → Data
bread s b = s.cached b

-- A write to `data` of the buffer of block `b`.
abbrev pub modify : Blocks → ℕ → Data → Blocks
modify s b d = record s { cached = put s.cached b d }

abbrev pub bwrite : Blocks → ℕ → Blocks
bwrite s b =
    let d = put s.disk b (s.cached b) in
    record { cached = s.cached; disk = d; images = d ∷ s.images }

-- After a restart the cache is empty, so that every read is from the disk.
abbrev pub restart : Disk → List Disk → Blocks
restart d images = record { cached = d; disk = d; images = images }
