-- ===== src/Bcache/Redirect.antt =====
-- `bread` and `bwrite` of mp4/kernel/bio.c change `b->blockno` for the time of an access to the mirror,
-- without the lock of the cache: what a `bget` of another process then does.
use spring_os_mp.Prelude.{
  ℕ, ◌<◌, true, false, Option, some, none, List, [], ◌∷◌, ◌++◌, ◌≡◌, ◌≢◌, refl, sym, ◌∙◌, ap, subst,
  ◌==◌, ◌&&◌, ==_iff, Bool-cases, inl, inr, arith, if◌then◌else◌,
}
use spring_os_mp.Prelude.Fold.{All, All-map, All-append, All-split, All-both}
use spring_os_mp.Bcache.Defs.{
  Buf, bget, redirect, name_block, update, at_slot, mirror_of, uint_mod, is_block,
}
use spring_os_mp.Bcache.Lookup.{BgetOutcome, bget-BgetOutcome, NotCached, InUse, recycled_for}
use spring_os_mp.Bcache.Unique.{Apart, OnceEach, OnceEach-around, OnceEach-insert}
use spring_os_mp.Bcache.Release.{Located, at_slot-Located, update-at, slot-differs}

-- The buffer at a slot holds a block.
abbrev pub Holds : List Buf → ℕ → ℕ → ℕ → Type 0
Holds bs dev blockno slot =
    (b : Buf) × (at_slot slot bs ≡ some b) × (b.dev ≡ dev) × (b.blockno ≡ blockno)

-- The buffer that `bget` answers, while the one at `slot` is redirected, is another one, not valid,
-- and once the redirection is undone both hold the block.
abbrev pub Duplicates : ℕ → ℕ → ℕ → Option (Buf × List Buf) → Type 0
Duplicates slot dev blockno none = ⊥
Duplicates slot dev blockno (some (c, cs)) =
    (c.slot ≢ slot)
    × (c.valid ≡ false)
    × Holds (redirect cs slot blockno) dev blockno slot
    × Holds (redirect cs slot blockno) dev blockno c.slot

some-same : (x y : Buf) → some x ≡ some y → x ≡ y
some-same x y e = cc

differs : (m n : ℕ) → m ≢ n → (m == n) ≡ false
differs m n h = ground arith

at_slot-own : (slot : ℕ) (bs : List Buf) (x : Buf) → at_slot slot bs ≡ some x → x.slot ≡ slot
at_slot-own slot [] x h = absurd cc
at_slot-own slot (b ∷ bs) x h = elim (Bool-cases (b.slot == slot)) [
  | inl t ↦
      let step : at_slot slot (b ∷ bs) ≡ some b = simp t refl in
      ap (λ c. c.slot) (some-same x b (sym h ∙ step)) ∙ (==_iff b.slot slot).0 t
  | inr f ↦
      let step : at_slot slot (b ∷ bs) ≡ at_slot slot bs = simp f refl in
      at_slot-own slot bs x (sym step ∙ h)
]

at_slot-update_same :
    (slot : ℕ) (bs : List Buf) (x y : Buf)
    → x.slot ≡ slot
    → at_slot slot bs ≡ some y
    → at_slot slot (update x bs) ≡ some x
at_slot-update_same slot [] x y e h = absurd cc
at_slot-update_same slot (b ∷ bs) x y e h = elim (Bool-cases (b.slot == slot)) [
  | inl t ↦
      let here : (b.slot == x.slot) ≡ true = ap (λ k. b.slot == k) e ∙ t in
      simp here (simp ((==_iff x.slot slot).1 e) refl)
  | inr f ↦
      let not_here : (b.slot == x.slot) ≡ false = ap (λ k. b.slot == k) e ∙ f in
      let step : at_slot slot (b ∷ bs) ≡ at_slot slot bs = simp f refl in
      simp not_here (simp f (at_slot-update_same slot bs x y e (sym step ∙ h)))
]

at_slot-update_other :
    (slot : ℕ) (bs : List Buf) (x : Buf)
    → x.slot ≢ slot
    → at_slot slot (update x bs) ≡ at_slot slot bs
at_slot-update_other slot [] x ne = refl
at_slot-update_other slot (b ∷ bs) x ne = elim (Bool-cases (b.slot == x.slot)) [
  | inl t ↦
      let same : b.slot ≡ x.slot = (==_iff b.slot x.slot).0 t in
      let off : (b.slot == slot) ≡ false = differs b.slot slot (λ e. ne (sym same ∙ e)) in
      simp t (simp (differs x.slot slot ne) (simp off (at_slot-update_other slot bs x ne)))
  | inr f ↦
      simp f (ap (λ r. if b.slot == slot then some b else r) (at_slot-update_other slot bs x ne))
]

-- A change of another buffer of the list.
at_slot-around_other :
    (slot : ℕ) (xs ys : List Buf) (z z' : Buf)
    → z.slot ≢ slot
    → z'.slot ≡ z.slot
    → at_slot slot (xs ++ z' ∷ ys) ≡ at_slot slot (xs ++ z ∷ ys)
at_slot-around_other slot [] ys z z' ne e =
    let off : (z.slot == slot) ≡ false = differs z.slot slot ne in
    let off' : (z'.slot == slot) ≡ false = differs z'.slot slot (λ k. ne (sym e ∙ k)) in
    simp off (simp off' refl)
at_slot-around_other slot (x ∷ xs) ys z z' ne e =
    ap (λ r. if x.slot == slot then some x else r) (at_slot-around_other slot xs ys z z' ne e)

at_slot-around :
    (xs ys : List Buf) (z : Buf)
    → All (λ c. (c.slot == z.slot) ≡ false) xs
    → at_slot z.slot (xs ++ z ∷ ys) ≡ some z
at_slot-around [] ys z h = simp ((==_iff z.slot z.slot).1 refl) refl
at_slot-around (x ∷ xs) ys z h = simp (h.0) (at_slot-around xs ys z h.1)

-- A `bget` of a block that no buffer holds, with the buffer `r` at `slot` in use.
missing-Duplicates :
    (slot dev blockno : ℕ) (r : Buf) (bs : List Buf) (o : Option (Buf × List Buf))
    → BgetOutcome dev blockno bs o
    → OnceEach bs
    → NotCached dev blockno bs
    → (InUse bs → ⊥)
    → at_slot slot bs ≡ some r
    → r.slot ≡ slot
    → r.dev ≡ dev
    → (r.refcnt == 0) ≡ false
    → Duplicates slot dev blockno o
unfolding redirect
missing-Duplicates slot dev blockno r _ _ (BgetOutcome.hit xs ys b n e) h nc some_free at s d used =
    let (_, here) = All-split (λ c. is_block dev blockno c ≡ false) xs (b ∷ ys) nc in
    absurd (cc (e, here.0))
missing-Duplicates slot dev blockno r _ _ (BgetOutcome.no_buffers bs n u) h nc some_free at s d
      used =
    absurd (some_free u)
missing-Duplicates slot dev blockno r _ _ (BgetOutcome.miss xs ys z n e u) h nc some_free at s d
      used =
    let (l, _, _) = OnceEach-around xs ys z h in
    let before : All (λ c. (c.slot == z.slot) ≡ false) xs = All-map xs (slot-differs z) l in
    let z' : Buf = recycled_for dev blockno z in
    let other : z.slot ≢ slot = λ k.
      let found : some z ≡ some r =
        sym (at_slot-around xs ys z before) ∙ ap (λ m. at_slot m (xs ++ z ∷ ys)) k ∙ at in
      let same : z ≡ r = some-same z r found in cc (e, used, ap (λ b. b.refcnt == 0) same) in
    let still : at_slot slot (xs ++ z' ∷ ys) ≡ some r =
      at_slot-around_other slot xs ys z z' other refl ∙ at in
    let back : Buf = record r { blockno = blockno } in
    let new : at_slot z.slot (xs ++ z' ∷ ys) ≡ some z' = at_slot-around xs ys z' before in
    let undone : name_block blockno (xs ++ z' ∷ ys) (at_slot slot (xs ++ z' ∷ ys))
        ≡ update back (xs ++ z' ∷ ys) =
      ap (name_block blockno (xs ++ z' ∷ ys)) still in
    (
      other,
      refl,
      (
        back,
        ap (at_slot slot) undone ∙ at_slot-update_same slot (xs ++ z' ∷ ys) back r s still,
        d,
        refl,
      ),
      (
        z',
        ap (at_slot z.slot) undone
            ∙ at_slot-update_other z.slot (xs ++ z' ∷ ys) back (λ k. other (sym k ∙ s))
            ∙ new,
        refl,
        refl,
      ),
    )

module _ (bs : List Buf) (slot : ℕ) (b : Buf) (h : OnceEach bs) (real : b.dev ≢ 0)
    (lt : b.blockno < uint_mod) (used : (b.refcnt == 0) ≡ false) (own : b.slot ≡ slot)
    (fresh : NotCached b.dev (mirror_of b.blockno) bs) (some_free : InUse bs → ⊥) where
  -- The buffer while it names the block of the mirror.
  abbrev moved : Buf
  moved = record b { blockno = mirror_of b.blockno }

  module _ (xs ys : List Buf) (e : bs ≡ xs ++ b ∷ ys) where
    parts : All (Apart b) xs × All (Apart b) ys × OnceEach (xs ++ ys)
    parts = OnceEach-around xs ys b (subst OnceEach e h)

    fresh_parts :
        All (λ c. is_block b.dev (mirror_of b.blockno) c ≡ false) xs
        × All (λ c. is_block b.dev (mirror_of b.blockno) c ≡ false) (b ∷ ys)
    fresh_parts =
        All-split (λ c. is_block b.dev (mirror_of b.blockno) c ≡ false) xs (b ∷ ys)
          (subst (NotCached b.dev (mirror_of b.blockno)) e fresh)

    not_block :
        (d d' n n' : ℕ) → d ≢ 0 → (d ≢ 0 → d ≡ d' → n ≡ n' → ⊥) → (d' == d && n' == n) ≡ false
    not_block d d' n n' z k = elim (Bool-cases (d' == d && n' == n)) [
      | inl y ↦ absurd (k z (ground (arith, y)) (ground (arith, y)))
      | inr f ↦ f
    ]

    missing : NotCached b.dev b.blockno (xs ++ moved ∷ ys)
    missing =
        All-append (λ c. is_block b.dev b.blockno c ≡ false) xs (moved ∷ ys)
          (All-map xs (λ c a. not_block b.dev c.dev b.blockno c.blockno real a.1) parts.0)
          (
            not_here b.dev b.blockno lt,
            All-map ys (λ c a. not_block b.dev c.dev b.blockno c.blockno real a.1) parts.1,
          )
      where
        not_here : (d n : ℕ) → n < uint_mod → (d == d && mirror_of n == n) ≡ false
        not_here d n l = ground (arith, l)

    Apart-moved :
        (c : Buf) → Apart b c → is_block b.dev (mirror_of b.blockno) c ≡ false → Apart moved c
    Apart-moved c a n = (a.0, (λ z p q. differ c.dev b.dev c.blockno (mirror_of b.blockno) n p q))
      where
        differ : (d d' n n' : ℕ) → (d == d' && n == n') ≡ false → d' ≡ d → n' ≡ n → ⊥
        differ d d' n n' f p q = ground arith

    once : OnceEach (xs ++ moved ∷ ys)
    once =
        OnceEach-insert xs ys moved (All-both xs Apart-moved parts.0 fresh_parts.0)
          (All-both ys Apart-moved parts.1 fresh_parts.1.1) parts.2

    free_still : InUse (xs ++ moved ∷ ys) → ⊥
    free_still u =
        let (l, r) = All-split (λ c. (c.refcnt == 0) ≡ false) xs (moved ∷ ys) u in
        some_free (
          subst InUse (sym e) (All-append (λ c. (c.refcnt == 0) ≡ false) xs (b ∷ ys) l (used, r.1)))

    before : All (λ c. (c.slot == moved.slot) ≡ false) xs
    before = All-map xs (slot-differs b) parts.0

    redirected : update moved (xs ++ b ∷ ys) ≡ xs ++ moved ∷ ys
    redirected =
        update-at moved xs ys b ((==_iff b.slot b.slot).1 refl) before
          (All-map ys (slot-differs b) parts.1)

    Duplicates-at :
        Duplicates slot b.dev b.blockno (bget (update moved (xs ++ b ∷ ys)) b.dev b.blockno)
    Duplicates-at =
        subst (λ l. Duplicates slot b.dev b.blockno (bget l b.dev b.blockno)) (sym redirected)
          (missing-Duplicates slot b.dev b.blockno moved (xs ++ moved ∷ ys)
            (bget (xs ++ moved ∷ ys) b.dev b.blockno)
            (bget-BgetOutcome (xs ++ moved ∷ ys) b.dev b.blockno) once missing free_still
            (ap (λ m. at_slot m (xs ++ moved ∷ ys)) (sym own) ∙ at_slot-around xs ys moved before)
            own refl used)

  Located-Duplicates :
      (ls : List Buf) (r : Option Buf)
      → Located slot ls r
      → bs ≡ ls
      → r ≡ some b
      → Duplicates slot b.dev b.blockno
          (bget (name_block (mirror_of b.blockno) ls r) b.dev b.blockno)
  Located-Duplicates _ _ (Located.nowhere ls n) e f = absurd cc
  Located-Duplicates _ _ (Located.here xs ys c s n) e f =
      let same : c ≡ b = some-same c b f in
      subst
        (λ x. Duplicates slot b.dev b.blockno (
          bget (update (record x { blockno = mirror_of b.blockno }) (xs ++ x ∷ ys)) b.dev
            b.blockno))
        (sym same) (Duplicates-at xs ys (e ∙ ap (λ x. xs ++ x ∷ ys) same))

-- For every cache that holds no block twice, and in which a buffer holds a block and is in use, no buffer
-- holds the mirror's block and some buffer is not in use: where `bread` or `bwrite` has set `blockno` of
-- that buffer to the mirror's block, a `bget` of the block answers another buffer, not valid, and once
-- `blockno` is set back both buffers hold the block.
pub bget-Duplicates :
    (bs : List Buf) (slot : ℕ) (b : Buf)
    → OnceEach bs
    → at_slot slot bs ≡ some b
    → b.dev ≢ 0
    → b.blockno < uint_mod
    → (b.refcnt == 0) ≡ false
    → NotCached b.dev (mirror_of b.blockno) bs
    → (InUse bs → ⊥)
    → Duplicates slot b.dev b.blockno
        (bget (redirect bs slot (mirror_of b.blockno)) b.dev b.blockno)
unfolding redirect
bget-Duplicates bs slot b h at real lt used fresh some_free =
    Located-Duplicates bs slot b h real lt used (at_slot-own slot bs b at) fresh some_free bs
      (at_slot slot bs) (at_slot-Located slot bs) refl at
