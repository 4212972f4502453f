-- ===== src/Bcache/Unique.antt =====
-- No block of a device is cached twice: what the buffer cache of mp4/kernel/bio.c keeps while no buffer
-- names the block of the mirror in the place of its own. Device 0, which the buffers that `binit` leaves name, is no device.
use spring_os_mp.Prelude.{
  ℕ, true, false, Option, some, none, List, [], ◌∷◌, ◌++◌, ◌≡◌, ◌≢◌, refl, sym, ◌∙◌, ◌==◌, arith,
}
use spring_os_mp.Prelude.Fold.{All, All-append, All-split}
use spring_os_mp.Bcache.Defs.{Buf, bget, is_block}
use spring_os_mp.Bcache.Lookup.{BgetOutcome, bget-BgetOutcome, referenced, recycled_for}
use spring_os_mp.Prelude.Fold.{All-both}
use spring_os_mp.Prelude.{◌&&◌}
use spring_os_mp.Prelude.{zero}
use spring_os_mp.Prelude.{suc}
use spring_os_mp.Prelude.{◌≤◌}
use spring_os_mp.Bcache.Defs.{binit}

-- Two buffers of different slots that do not hold the same block of a device.
abbrev pub Apart : Buf → Buf → Type 0
Apart b c = (b.slot ≢ c.slot) × (b.dev ≢ 0 → b.dev ≡ c.dev → b.blockno ≡ c.blockno → ⊥)

Apart-sym : (b c : Buf) → Apart b c → Apart c b
Apart-sym b c h = ((λ e. h.0 (sym e)), (λ n p q. h.1 (λ z. n (p ∙ z)) (sym p) (sym q)))

abbrev pub OnceEach : List Buf → Type 0
OnceEach [] = Unit
OnceEach (b ∷ bs) = All (Apart b) bs × OnceEach bs

-- The buffers around the one at a place of the list.
pub OnceEach-around :
    (xs ys : List Buf) (b : Buf)
    → OnceEach (xs ++ b ∷ ys)
    → All (Apart b) xs × All (Apart b) ys × OnceEach (xs ++ ys)
OnceEach-around [] ys b h = (tt, h.0, h.1)
OnceEach-around (x ∷ xs) ys b h =
    let (l, r) = All-split (Apart x) xs (b ∷ ys) h.0 in
    let (a, c, o) = OnceEach-around xs ys b h.1 in
    ((Apart-sym x b r.0, a), c, (All-append (Apart x) xs ys l r.1, o))

pub OnceEach-insert :
    (xs ys : List Buf) (b : Buf)
    → All (Apart b) xs
    → All (Apart b) ys
    → OnceEach (xs ++ ys)
    → OnceEach (xs ++ b ∷ ys)
OnceEach-insert [] ys b l r h = (r, h)
OnceEach-insert (x ∷ xs) ys b l r h =
    let (p, q) = All-split (Apart x) xs ys h.0 in
    (All-append (Apart x) xs (b ∷ ys) p (Apart-sym b x l.0, q), OnceEach-insert xs ys b l.1 r h.1)

-- What `bget` promises of its answer.
abbrev pub Got : ℕ → ℕ → Option (Buf × List Buf) → Type 0
Got dev blockno none = Unit
Got dev blockno (some (b, bs)) = OnceEach bs × (b.dev ≡ dev) × (b.blockno ≡ blockno)

is_block-holds :
    (dev blockno : ℕ) (b : Buf)
    → is_block dev blockno b ≡ true
    → (b.dev ≡ dev) × (b.blockno ≡ blockno)
is_block-holds dev blockno b h = ground arith

-- A buffer taken over for a block is apart from one that does not hold it.
Apart-recycled :
    (dev blockno : ℕ) (b c : Buf)
    → Apart b c
    → is_block dev blockno c ≡ false
    → Apart (recycled_for dev blockno b) c
Apart-recycled dev blockno b c h n =
    (h.0, (λ z p q. not_block c.dev dev c.blockno blockno n (sym p) (sym q)))
  where
    not_block : (a a' k k' : ℕ) → ((a == a') && (k == k')) ≡ false → a ≡ a' → k ≡ k' → ⊥
    not_block a a' k k' h p q = ground arith

got :
    (dev blockno : ℕ) (bs : List Buf) (r : Option (Buf × List Buf))
    → OnceEach bs
    → BgetOutcome dev blockno bs r
    → Got dev blockno r
got dev blockno _ _ h (BgetOutcome.hit xs ys b n e) =
    let (l, r, o) = OnceEach-around xs ys b h in
    let (p, q) = is_block-holds dev blockno b e in
    (OnceEach-insert xs ys (referenced b) l r o, p, q)
got dev blockno _ _ h (BgetOutcome.miss xs ys b n e u) =
    let (l, r, o) = OnceEach-around xs ys b h in
    let (nl, nr) = All-split (λ c. is_block dev blockno c ≡ false) xs (b ∷ ys) n in
    (
      OnceEach-insert xs ys (recycled_for dev blockno b)
          (All-both xs (λ c. Apart-recycled dev blockno b c) l nl)
          (All-both ys (λ c. Apart-recycled dev blockno b c) r nr.1) o,
      refl,
      refl,
    )
got dev blockno _ _ h (BgetOutcome.no_buffers bs n u) = tt

-- If the buffers have different slots and cache no block of a device twice, then so they do after
-- `bget`, and the buffer it answers is for the block asked for.
pub bget-Got :
    (bs : List Buf) (dev blockno : ℕ) → OnceEach bs → Got dev blockno (bget bs dev blockno)
bget-Got bs dev blockno h =
    got dev blockno bs (bget bs dev blockno) h (bget-BgetOutcome bs dev blockno)

binit-Below : (n k : ℕ) (b : Buf) → n ≤ k → b.slot ≡ k → All (Apart b) (binit n)
unfolding binit
binit-Below zero k b h e = tt
binit-Below (suc n) k b h e =
    ((differ b.slot n e h, (λ z p q. z p)), binit-Below n k b (omega arith) e)
  where
    differ : (s n : ℕ) → s ≡ k → suc n ≤ k → s ≢ n
    differ s n e h p = omega arith

-- After `binit`, with any number of buffers, they have different slots and cache no block of a device.
pub binit-OnceEach : (n : ℕ) → OnceEach (binit n)
unfolding binit
binit-OnceEach zero = tt
binit-OnceEach (suc n) = (
  binit-Below n n
      (record { slot = n; valid = false; dev = 0; blockno = 0; refcnt = 0; «data» = [] })
      (omega arith) refl,
  binit-OnceEach n,
)
