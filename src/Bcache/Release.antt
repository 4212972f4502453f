-- ===== src/Bcache/Release.antt =====
-- What `brelse` of mp4/kernel/bio.c leaves.
use spring_os_mp.Prelude.{
  ℕ, ◌-◌, true, false, Option, some, none, List, [], ◌∷◌, ◌++◌, ◌≡◌, ◌≢◌, refl, sym, ap, ◌==◌,
  ==_iff, Bool-cases, inl, inr, arith, subst,
}
use spring_os_mp.Prelude.Fold.{All, All-map}
use spring_os_mp.Bcache.Defs.{
  Buf, brelse, uint_mod, at_slot, without_slot, update, release_buf, add_refcnt,
}
use spring_os_mp.Bcache.Unique.{Apart, OnceEach, OnceEach-around, OnceEach-insert}
use spring_os_mp.Prelude.Fold.{All-append}

-- What `brelse` may leave, for the buffer `b` of a list: one reference less, in its place while it
-- has references, else at the front.
pub data BrelseOutcome (slot : ℕ) : List Buf → List Buf → Type 0 where
  stays :
      (xs ys : List Buf) (b : Buf)
      → b.slot ≡ slot
      → ((add_refcnt (uint_mod - 1) b).refcnt == 0) ≡ false
      → BrelseOutcome slot (xs ++ b ∷ ys) (xs ++ add_refcnt (uint_mod - 1) b ∷ ys)
  to_front :
      (xs ys : List Buf) (b : Buf)
      → b.slot ≡ slot
      → ((add_refcnt (uint_mod - 1) b).refcnt == 0) ≡ true
      → BrelseOutcome slot (xs ++ b ∷ ys) (add_refcnt (uint_mod - 1) b ∷ xs ++ ys)
  no_buffer : (bs : List Buf) → All (λ c. c.slot ≢ slot) bs → BrelseOutcome slot bs bs

-- Where `at_slot` finds its buffer.
pub data Located (slot : ℕ) : List Buf → Option Buf → Type 0 where
  here :
      (xs ys : List Buf) (b : Buf)
      → b.slot ≡ slot
      → All (λ c. (c.slot == slot) ≡ false) xs
      → Located slot (xs ++ b ∷ ys) (some b)
  nowhere : (bs : List Buf) → All (λ c. c.slot ≢ slot) bs → Located slot bs none

ne_of-test : (a b : ℕ) → (a == b) ≡ false → a ≢ b
ne_of-test a b h e = ground arith

Located-behind :
    (slot : ℕ) (c : Buf) (bs : List Buf) (r : Option Buf)
    → (c.slot == slot) ≡ false
    → Located slot bs r
    → Located slot (c ∷ bs) r
Located-behind slot c _ _ e (Located.here xs ys b h n) = Located.here (c ∷ xs) ys b h (e, n)
Located-behind slot c _ _ e (Located.nowhere bs n) =
    Located.nowhere (c ∷ bs) (ne_of-test c.slot slot e, n)

pub at_slot-Located : (slot : ℕ) (bs : List Buf) → Located slot bs (at_slot slot bs)
at_slot-Located slot [] = Located.nowhere [] tt
at_slot-Located slot (b ∷ bs) = elim (Bool-cases (b.slot == slot)) [
  | inl y ↦ simp y (Located.here [] bs b ((==_iff b.slot slot).0 y) tt)
  | inr n ↦ simp n (Located-behind slot b bs (at_slot slot bs) n (at_slot-Located slot bs))
]

without_slot-at :
    (slot : ℕ) (xs ys : List Buf) (b : Buf)
    → (b.slot == slot) ≡ true
    → All (λ c. (c.slot == slot) ≡ false) xs
    → without_slot slot (xs ++ b ∷ ys) ≡ xs ++ ys
without_slot-at slot [] ys b e n = simp e refl
without_slot-at slot (x ∷ xs) ys b e n =
    simp (n.0) (ap (λ l. x ∷ l) (without_slot-at slot xs ys b e n.1))

update-other :
    (b : Buf) (ys : List Buf) → All (λ c. (c.slot == b.slot) ≡ false) ys → update b ys ≡ ys
update-other b [] n = refl
update-other b (y ∷ ys) n = simp (n.0) (ap (λ l. y ∷ l) (update-other b ys n.1))

pub update-at :
    (b' : Buf) (xs ys : List Buf) (b : Buf)
    → (b.slot == b'.slot) ≡ true
    → All (λ c. (c.slot == b'.slot) ≡ false) xs
    → All (λ c. (c.slot == b'.slot) ≡ false) ys
    → update b' (xs ++ b ∷ ys) ≡ xs ++ b' ∷ ys
update-at b' [] ys b e n m = simp e (ap (λ l. b' ∷ l) (update-other b' ys m))
update-at b' (x ∷ xs) ys b e n m = simp (n.0) (ap (λ l. x ∷ l) (update-at b' xs ys b e n.1 m))

pub slot-differs : (b c : Buf) → Apart b c → (c.slot == b.slot) ≡ false
slot-differs b c h = test_of c.slot b.slot (λ e. h.0 (sym e))
  where
    test_of : (m n : ℕ) → m ≢ n → (m == n) ≡ false
    test_of m n p = ground arith

same-slot : (b : Buf) → (b.slot == b.slot) ≡ true
same-slot b = (==_iff b.slot b.slot).1 refl

Located-BrelseOutcome :
    (slot : ℕ) (bs : List Buf) (r : Option Buf)
    → OnceEach bs
    → Located slot bs r
    → BrelseOutcome slot bs (release_buf bs r)
Located-BrelseOutcome slot _ _ h (Located.nowhere bs n) = BrelseOutcome.no_buffer bs n
Located-BrelseOutcome slot _ _ h (Located.here xs ys b e n) =
    let (l, r, o) = OnceEach-around xs ys b h in
    let left : All (λ c. (c.slot == b.slot) ≡ false) xs = All-map xs (slot-differs b) l in
    let right : All (λ c. (c.slot == b.slot) ≡ false) ys = All-map ys (slot-differs b) r in
    let b' : Buf = add_refcnt (uint_mod - 1) b in
    elim (Bool-cases (b'.refcnt == 0)) [
      | inl z ↦ simp z (
          subst (λ l. BrelseOutcome slot (xs ++ b ∷ ys) (b' ∷ l))
            (sym (without_slot-at b.slot xs ys b (same-slot b) left))
            (BrelseOutcome.to_front xs ys b e z))
      | inr z ↦ simp z (
          subst (λ l. BrelseOutcome slot (xs ++ b ∷ ys) l)
            (sym (update-at b' xs ys b (same-slot b) left right)) (BrelseOutcome.stays xs ys b e z))
    ]

-- If the buffers have different slots and cache no block of a device twice, `brelse` takes one
-- reference from the buffer at the slot and leaves the others as they are, in order; the buffer stays
-- in its place while it has references and else becomes the most recently used.
pub brelse-BrelseOutcome :
    (bs : List Buf) (slot : ℕ) → OnceEach bs → BrelseOutcome slot bs (brelse bs slot)
unfolding brelse
brelse-BrelseOutcome bs slot h =
    Located-BrelseOutcome slot bs (at_slot slot bs) h (at_slot-Located slot bs)

outcome-OnceEach :
    (slot : ℕ) (bs cs : List Buf) → OnceEach bs → BrelseOutcome slot bs cs → OnceEach cs
outcome-OnceEach slot _ _ h (BrelseOutcome.stays xs ys b e z) =
    let (l, r, o) = OnceEach-around xs ys b h in
    OnceEach-insert xs ys (add_refcnt (uint_mod - 1) b) l r o
outcome-OnceEach slot _ _ h (BrelseOutcome.to_front xs ys b e z) =
    let (l, r, o) = OnceEach-around xs ys b h in
    (All-append (Apart (add_refcnt (uint_mod - 1) b)) xs ys l r, o)
outcome-OnceEach slot _ _ h (BrelseOutcome.no_buffer bs n) = h

-- If the buffers have different slots and cache no block of a device twice, so they do after
-- `brelse`.
pub brelse-OnceEach : (bs : List Buf) (slot : ℕ) → OnceEach bs → OnceEach (brelse bs slot)
brelse-OnceEach bs slot h =
    outcome-OnceEach slot bs (brelse bs slot) h (brelse-BrelseOutcome bs slot h)
