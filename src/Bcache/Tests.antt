-- ===== src/Bcache/Tests.antt =====
-- The buffer cache on a small disk.
use spring_os_mp.Prelude.{
  ℕ, Bool, true, false, Option, some, none, List, [], ◌∷◌, ◌≡◌, ◌≢◌, refl, ◌==◌, ==_iff,
  if◌then◌else◌, Bool-cases, inl, inr, arith,
}
use spring_os_mp.Prelude.Int.{pos, negsuc}
use spring_os_mp.Bcache.Defs.{
  Buf, Failure, Device, binit, bget, find_cached, recycle, brelse, bread, fill, bwrite, bpin,
  bunpin, redirect,
}
use spring_os_mp.Bcache.Mirror.{fill-bwrite, fill-bwrite_other, bwrite-IsMirrored, IsMirrored}
use spring_os_mp.Bcache.Redirect.{Duplicates, bget-Duplicates}
use spring_os_mp.Bcache.Unique.{OnceEach}
use spring_os_mp.Bcache.Lookup.{BgetOutcome, bget-BgetOutcome}
use spring_os_mp.Bcache.Release.{BrelseOutcome, brelse-BrelseOutcome}
use spring_os_mp.Prelude.{ltb}

abbrev Memory : Type 0
Memory = ℕ → List ℕ

abbrev store : Memory → ℕ → List ℕ → Memory
store d n block m = if n == m then block else d m

memory : Device Memory
memory = record {
  read = λ d n. d n;
  write = store;
  read-write_same = λ d n block. store-same d n block;
  read-write_other = λ d n m block ne. store-other d n m block ne;
}
  where
    store-same : (d : Memory) (n : ℕ) (block : List ℕ) → store d n block n ≡ block
    store-same d n block = simp ((==_iff n n).1 refl) refl

    store-other : (d : Memory) (n m : ℕ) (block : List ℕ) → n ≢ m → store d n block m ≡ d m
    store-other d n m block ne = elim (Bool-cases (n == m)) [
      | inl y ↦ absurd (ne ((==_iff n m).0 y))
      | inr x ↦ simp x refl
    ]

abbrev blank : Memory
blank n = []

abbrev none_fails : Failure
none_fails = record { force_read_error_pbn = negsuc 0; force_disk_fail_id = negsuc 0 }

abbrev disk0_fails : Failure
disk0_fails = record { force_read_error_pbn = negsuc 0; force_disk_fail_id = pos 0 }

abbrev block_at : ℕ → Bool → List ℕ → Buf
block_at n valid bytes = record {
  slot = 0;
  valid = valid;
  dev = 1;
  blockno = n;
  refcnt = 1;
  «data» = bytes;
}

abbrev read_by : Option (Buf × List Buf) → List ℕ
read_by none = []
read_by (some (b, bs)) = b.«data»

-- What was written with no failure is read back from the mirror when disk 0 fails.
mirror_read :
    read_by (
      bread memory disk0_fails
        (bwrite memory none_fails blank (block_at 33 true (7 ∷ [])))
        (binit 3)
        1
        33)
    ≡ 7 ∷ []
unfolding memory bread bwrite binit bget fill find_cached recycle
mirror_read = refl

fill-bwrite_example :
    (fill memory disk0_fails
      (bwrite memory none_fails blank (block_at 33 true (7 ∷ [])))
      (block_at 33 false [])).«data»
    ≡ 7 ∷ []
fill-bwrite_example =
    fill-bwrite memory none_fails disk0_fails blank (block_at 33 true (7 ∷ []))
      (block_at 33 false []) refl (omega arith) refl refl

-- A disk whose first copies alone have been made, as `mkfs` makes it.
abbrev unmirrored : Memory
unmirrored n = if ltb n 2048 then n ∷ [] else []

fill-bwrite_other_example :
    (fill memory disk0_fails
      (bwrite memory none_fails unmirrored (block_at 33 true (7 ∷ [])))
      (block_at 34 false [])).«data»
    ≡ (fill memory disk0_fails unmirrored (block_at 34 false [])).«data»
fill-bwrite_other_example =
    fill-bwrite_other memory none_fails disk0_fails unmirrored (block_at 33 true (7 ∷ []))
      (block_at 34 false []) (omega arith) (omega arith) (λ e. omega arith)

bwrite-IsMirrored_example :
    IsMirrored memory (bwrite memory none_fails unmirrored (block_at 33 true (7 ∷ []))) 33
bwrite-IsMirrored_example =
    bwrite-IsMirrored memory none_fails unmirrored (block_at 33 true (7 ∷ [])) 33 (omega arith)
      (omega arith) refl refl (inl refl)

bget-BgetOutcome_example : BgetOutcome 1 33 (binit 3) (bget (binit 3) 1 33)
bget-BgetOutcome_example = bget-BgetOutcome (binit 3) 1 33

-- Two buffers in use and one that is not.
abbrev three : List Buf
three =
    record { slot = 2; valid = true; dev = 1; blockno = 5; refcnt = 1; «data» = [] }
    ∷ record { slot = 0; valid = true; dev = 1; blockno = 33; refcnt = 1; «data» = [] }
    ∷ record { slot = 1; valid = true; dev = 1; blockno = 9; refcnt = 2; «data» = [] }
    ∷ []

three-OnceEach : OnceEach three
three-OnceEach = (
  (
    ((λ e. omega arith), (λ z p q. omega arith)),
    (((λ e. omega arith), (λ z p q. omega arith)), tt),
  ),
  ((((λ e. omega arith), (λ z p q. omega arith)), tt), (tt, tt)),
)

brelse-BrelseOutcome_example : BrelseOutcome 0 three (brelse three 0)
brelse-BrelseOutcome_example = brelse-BrelseOutcome three 0 three-OnceEach

pinned_and_unpinned : bunpin (bpin three 1) 1 ≡ three
unfolding bpin bunpin
pinned_and_unpinned = refl

abbrev buf_of : ℕ → ℕ → ℕ → Buf
buf_of slot n refcnt = record {
  slot = slot;
  valid = true;
  dev = 1;
  blockno = n;
  refcnt = refcnt;
  «data» = [];
}

-- Block 33 is being written, and buffer 1 is not in use.
abbrev writing : List Buf
writing = buf_of 0 33 1 ∷ buf_of 1 9 0 ∷ []

writing-OnceEach : OnceEach writing
writing-OnceEach = ((((λ e. omega arith), (λ z p q. omega arith)), tt), (tt, tt))

bget-Duplicates_example : Duplicates 0 1 33 (bget (redirect writing 0 2081) 1 33)
bget-Duplicates_example =
    bget-Duplicates writing 0 (buf_of 0 33 1) writing-OnceEach refl (λ e. omega arith) (omega arith)
      refl (refl, (refl, tt)) (λ u. cc u.1.0)
