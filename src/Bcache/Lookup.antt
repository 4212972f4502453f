-- ===== src/Bcache/Lookup.antt =====
-- What `bget` of mp4/kernel/bio.c answers, in every case.
use spring_os_mp.Prelude.{
  ℕ, ◌+◌, ◌%◌, true, false, Option, some, none, List, [], ◌∷◌, ◌++◌, ◌≡◌, ◌==◌, Bool-cases, inl,
  inr,
}
use spring_os_mp.Prelude.Fold.{All}
use spring_os_mp.Bcache.Defs.{
  Buf, find_cached, recycle, bget, is_block, uint_mod, behind, recycle_here, or_recycle,
}

-- `b` with one more reference.
abbrev pub referenced : Buf → Buf
referenced b = record b { refcnt = (b.refcnt + 1) % uint_mod }

-- `b` taken over for another block.
abbrev pub recycled_for : ℕ → ℕ → Buf → Buf
recycled_for dev blockno b = record b { valid = false; dev = dev; blockno = blockno; refcnt = 1 }

abbrev pub NotCached : ℕ → ℕ → List Buf → Type 0
NotCached dev blockno = All (λ b. is_block dev blockno b ≡ false)

abbrev pub InUse : List Buf → Type 0
InUse = All (λ b. (b.refcnt == 0) ≡ false)

-- What `bget` may answer for a list: the first buffer that holds the block, with one more reference;
-- else the last that no one uses, taken over and not valid; else it panics.
pub data BgetOutcome (dev blockno : ℕ) : List Buf → Option (Buf × List Buf) → Type 0 where
  hit :
      (xs ys : List Buf) (b : Buf)
      → NotCached dev blockno xs
      → is_block dev blockno b ≡ true
      → BgetOutcome dev blockno (xs ++ b ∷ ys) (some (referenced b, xs ++ referenced b ∷ ys))
  miss :
      (xs ys : List Buf) (b : Buf)
      → NotCached dev blockno (xs ++ b ∷ ys)
      → (b.refcnt == 0) ≡ true
      → InUse ys
      → BgetOutcome dev blockno
          (xs ++ b ∷ ys)
          (some (recycled_for dev blockno b, xs ++ recycled_for dev blockno b ∷ ys))
  no_buffers :
      (bs : List Buf) → NotCached dev blockno bs → InUse bs → BgetOutcome dev blockno bs none

-- What the first loop finds.
data Cached (dev blockno : ℕ) : List Buf → Option (Buf × List Buf) → Type 0 where
  found :
      (xs ys : List Buf) (b : Buf)
      → NotCached dev blockno xs
      → is_block dev blockno b ≡ true
      → Cached dev blockno (xs ++ b ∷ ys) (some (referenced b, xs ++ referenced b ∷ ys))
  absent : (bs : List Buf) → NotCached dev blockno bs → Cached dev blockno bs none

Cached-behind :
    (dev blockno : ℕ) (b : Buf) (bs : List Buf) (r : Option (Buf × List Buf))
    → is_block dev blockno b ≡ false
    → Cached dev blockno bs r
    → Cached dev blockno (b ∷ bs) (behind b r)
Cached-behind dev blockno b _ _ e (Cached.found xs ys c n h) = Cached.found (b ∷ xs) ys c (e, n) h
Cached-behind dev blockno b _ _ e (Cached.absent bs n) = Cached.absent (b ∷ bs) (e, n)

find_cached-Cached :
    (dev blockno : ℕ) (bs : List Buf) → Cached dev blockno bs (find_cached dev blockno bs)
unfolding find_cached
find_cached-Cached dev blockno [] = Cached.absent [] tt
find_cached-Cached dev blockno (b ∷ bs) = elim (Bool-cases (is_block dev blockno b)) [
  | inl y ↦ simp y (Cached.found [] bs b tt y)
  | inr n ↦ simp n (
      Cached-behind dev blockno b bs (find_cached dev blockno bs) n
        (find_cached-Cached dev blockno bs))
]

-- What the second loop finds.
data Unused (dev blockno : ℕ) : List Buf → Option (Buf × List Buf) → Type 0 where
  last :
      (xs ys : List Buf) (b : Buf)
      → (b.refcnt == 0) ≡ true
      → InUse ys
      → Unused dev blockno
          (xs ++ b ∷ ys)
          (some (recycled_for dev blockno b, xs ++ recycled_for dev blockno b ∷ ys))
  exhausted : (bs : List Buf) → InUse bs → Unused dev blockno bs none

Unused-here :
    (dev blockno : ℕ) (b : Buf) (bs : List Buf) (r : Option (Buf × List Buf))
    → Unused dev blockno bs r
    → Unused dev blockno (b ∷ bs) (recycle_here dev blockno b bs r)
Unused-here dev blockno b _ _ (Unused.last xs ys c e u) = Unused.last (b ∷ xs) ys c e u
Unused-here dev blockno b _ _ (Unused.exhausted bs u) = elim (Bool-cases (b.refcnt == 0)) [
  | inl e ↦ simp e (Unused.last [] bs b e u)
  | inr e ↦ simp e (Unused.exhausted (b ∷ bs) (e, u))
]

recycle-Unused : (dev blockno : ℕ) (bs : List Buf) → Unused dev blockno bs (recycle dev blockno bs)
unfolding recycle
recycle-Unused dev blockno [] = Unused.exhausted [] tt
recycle-Unused dev blockno (b ∷ bs) =
    Unused-here dev blockno b bs (recycle dev blockno bs) (recycle-Unused dev blockno bs)

missed :
    (dev blockno : ℕ) (bs : List Buf) (r : Option (Buf × List Buf))
    → NotCached dev blockno bs
    → Unused dev blockno bs r
    → BgetOutcome dev blockno bs r
missed dev blockno _ _ n (Unused.last xs ys b e u) = BgetOutcome.miss xs ys b n e u
missed dev blockno _ _ n (Unused.exhausted bs u) = BgetOutcome.no_buffers bs n u

looked_up :
    (dev blockno : ℕ) (bs : List Buf) (r : Option (Buf × List Buf))
    → Cached dev blockno bs r
    → BgetOutcome dev blockno bs (or_recycle dev blockno bs r)
looked_up dev blockno _ _ (Cached.found xs ys b n e) = BgetOutcome.hit xs ys b n e
looked_up dev blockno _ _ (Cached.absent bs n) =
    missed dev blockno bs (recycle dev blockno bs) n (recycle-Unused dev blockno bs)

-- For every list of buffers, `bget` answers the first buffer that holds the block, with one more
-- reference and its data and validity kept; if there is none, the least recently used buffer without
-- references, for the block and not valid, with one reference; and panics only if every buffer is in
-- use. It changes no other buffer and keeps the order.
pub bget-BgetOutcome :
    (bs : List Buf) (dev blockno : ℕ) → BgetOutcome dev blockno bs (bget bs dev blockno)
unfolding bget
bget-BgetOutcome bs dev blockno =
    looked_up dev blockno bs (find_cached dev blockno bs) (find_cached-Cached dev blockno bs)
