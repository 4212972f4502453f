-- ===== src/Fs/Blocks/Map.antt =====
-- How a new block becomes that of one place, in `bmap` of mp4/kernel/fs.c.
use spring_os_mp.Prelude.{
  ℕ, ◌+◌, ◌-◌, ◌<◌, ◌≤◌, true, false, ◌≡◌, ◌≢◌, refl, ◌∙◌, ap, arith, ◌==◌, ltb, Bool-cases, inl,
  inr,
}
use spring_os_mp.Prelude.Maps.{update_at, update_at-same, update_at-other}
use spring_os_mp.Fs.Blocks.{Blocks, ndirect, nindirect, put_addr, put_word}
use spring_os_mp.Fs.Blocks.Once.{places, block_at, IsOnce, Grown}

same_at :
    (s s' : Blocks) (l : ℕ)
    → (l < ndirect → s'.addrs l ≡ s.addrs l)
    → s'.addrs ndirect ≡ s.addrs ndirect
    → (ndirect ≤ l
        → (s.addrs ndirect == 0) ≡ false
        → s'.words (s.addrs ndirect) (l - ndirect) ≡ s.words (s.addrs ndirect) (l - ndirect))
    → block_at s' l ≡ block_at s l
same_at s s' l p q r = elim (Bool-cases (ltb l ndirect)) [
  | inl y ↦ simp y (p (ground (arith, y)))
  | inr n ↦ elim (Bool-cases (l == 268)) [
    | inl y ↦ simp n (simp y q)
    | inr m ↦ simp n (
        simp m (
          simp q (elim (Bool-cases (s.addrs ndirect == 0)) [
            | inl y ↦ simp y refl
            | inr z ↦ simp z (r (ground (arith, n)) z)
          ])))
  ]
]

-- A block that is not marked is not the indirect block.
not_indirect :
    (s : Blocks) (b : ℕ)
    → IsOnce s
    → s.used b ≡ false
    → (s.addrs ndirect == 0) ≡ false
    → s.addrs ndirect ≢ b
not_indirect s b v free live e = absurd (cc (v.marked 268 (omega arith) live, ap s.used e, free))

abbrev pub marked : Blocks → ℕ → Blocks
marked s b = record s { used = update_at s.used b true; words = update_at s.words b (λ i. 0) }

pub direct-Grown :
    (s : Blocks) (i b : ℕ)
    → IsOnce s
    → i < ndirect
    → s.used b ≡ false
    → Grown s i b (put_addr i b (marked s b))
direct-Grown s i b v lt free = record { free = free; used = refl; here = here; others = others }
  where
    here : block_at (put_addr i b (marked s b)) i ≡ b
    here = let y : ltb i ndirect ≡ true = ground (arith, lt) in simp y (update_at-same s.addrs i b)

    others :
        (l : ℕ)
        → l < places
        → (l == i) ≡ false
        → block_at (put_addr i b (marked s b)) l ≡ block_at s l
    others l m n =
        same_at s (put_addr i b (marked s b)) l
          (λ k. update_at-other s.addrs i l b (ground (arith, n)))
          (update_at-other s.addrs i ndirect b (omega (arith, lt)))
          (λ k live.
            ap (λ f. f (l - ndirect))
              (update_at-other s.words b (s.addrs ndirect) (λ j. 0) (not_indirect s b v free live)))

pub top-Grown :
    (s : Blocks) (b : ℕ)
    → (s.addrs ndirect == 0) ≡ true
    → (b == 0) ≡ false
    → s.used b ≡ false
    → Grown s 268 b (put_addr ndirect b (marked s b))
top-Grown s b empty live free = record {
  free = free;
  used = refl;
  here = update_at-same s.addrs ndirect b;
  others = others;
}
  where
    top : update_at s.addrs ndirect b ndirect ≡ b
    top = update_at-same s.addrs ndirect b

    others :
        (l : ℕ)
        → l < places
        → (l == 268) ≡ false
        → block_at (put_addr ndirect b (marked s b)) l ≡ block_at s l
    others l m n = elim (Bool-cases (ltb l ndirect)) [
      | inl y ↦ simp y (update_at-other s.addrs ndirect l b (ground (arith, y)))
      | inr o ↦ simp o (
          simp n (
            simp empty (
              simp top
                (simp live (ap (λ f. f (l - ndirect)) (update_at-same s.words b (λ j. 0)))))))
    ]

pub word-Grown :
    (s : Blocks) (n b : ℕ)
    → IsOnce s
    → n < nindirect
    → (s.addrs ndirect == 0) ≡ false
    → s.used b ≡ false
    → Grown s (ndirect + n) b (put_word (s.addrs ndirect) n b (marked s b))
word-Grown s n b v lt live free = record { free = free; used = refl; here = here; others = others }
  where
    addr : ℕ
    addr = s.addrs ndirect

    s' : Blocks
    s' = put_word (s.addrs ndirect) n b (marked s b)

    at :
        (l : ℕ)
        → s'.words (s.addrs ndirect) l
          ≡ update_at (update_at s.words b (λ i. 0) (s.addrs ndirect)) n b l
    at l =
        ap (λ f. f l)
          (update_at-same (update_at s.words b (λ i. 0)) (s.addrs ndirect)
            (update_at (update_at s.words b (λ i. 0) (s.addrs ndirect)) n b))

    here : block_at s' (ndirect + n) ≡ b
    here =
        let y : ltb (ndirect + n) ndirect ≡ false = ground arith in
        let z : (ndirect + n == 268) ≡ false = ground (arith, lt) in
        let e : ndirect + n - ndirect ≡ n = omega arith in
        simp y (
          simp z (
            simp live (
              at (ndirect + n - ndirect)
              ∙ ap (update_at (update_at s.words b (λ i. 0) (s.addrs ndirect)) n b) e
              ∙ update_at-same (update_at s.words b (λ i. 0) (s.addrs ndirect)) n b)))

    others : (l : ℕ) → l < places → (l == ndirect + n) ≡ false → block_at s' l ≡ block_at s l
    others l m d =
        same_at s s' l (λ k. refl) refl
          (λ k z.
            at (l - ndirect)
            ∙ update_at-other (update_at s.words b (λ i. 0) (s.addrs ndirect)) n (l - ndirect) b
                (λ e. differ l d k e)
            ∙ ap (λ f. f (l - ndirect))
                (update_at-other s.words b (s.addrs ndirect) (λ j. 0)
                  (not_indirect s b v free live)))
      where
        differ : (l : ℕ) → (l == ndirect + n) ≡ false → ndirect ≤ l → l - ndirect ≡ n → ⊥
        differ l d k e = ground (arith, d, k, e)
