-- ===== src/Fs/Blocks/Logged.antt =====
-- What the calls of `log_write` in `balloc` and `bmap` of mp4/kernel/fs.c need of the log.
use spring_os_mp.Prelude.{
  ℕ, ◌+◌, ◌-◌, ◌<◌, ◌≤◌, Option, some, none, length, ◌≡◌, refl, ◌⊎◌, inl, inr, arith, Bool-cases,
  leb, ltb,
}
use spring_os_mp.Journal.Defs.{Fs, log_size, log_write}
use spring_os_mp.Journal.Reserve.{length-absorb}
use spring_os_mp.Fs.Blocks.{then_log}

-- No transaction is open, or the log has no room for `n` more entries.
abbrev pub Short : ℕ → Fs → Type 0
Short n f =
    (f.log.outstanding < 1)
    ⊎ (log_size < length f.log.block + n)
    ⊎ (f.log.size - 1 < length f.log.block + n)

-- The log of the same transactions, with `n` entries more at most.
abbrev pub Kept : ℕ → Fs → Fs → Type 0
Kept n f g =
    (g.log.outstanding ≡ f.log.outstanding)
    × (g.log.size ≡ f.log.size)
    × (length g.log.block ≤ length f.log.block + n)

-- What `n` calls of `log_write` come to.
abbrev pub Logs : ℕ → Fs → Option Fs → Type 0
Logs n f none = Short n f
Logs n f (some g) = Kept n f g

pub Short-later : (m n k : ℕ) (f g : Fs) → k ≡ m + n → Kept m f g → Short n g → Short k f
Short-later m n k f g e (o, s, l) (inl h) = inl (omega arith)
Short-later m n k f g e (o, s, l) (inr (inl h)) = inr (inl (omega arith))
Short-later m n k f g e (o, s, l) (inr (inr h)) = inr (inr (omega arith))

pub Kept-later : (m n k : ℕ) (f g h : Fs) → k ≡ m + n → Kept m f g → Kept n g h → Kept k f h
Kept-later m n k f g h e (o, s, l) (o', s', l') = (omega arith, omega arith, omega arith)

pub log_write-Logs : (f : Fs) (b : ℕ) → Logs 1 f (log_write f b)
unfolding log_write
log_write-Logs f b = elim (Bool-cases (leb log_size (length f.log.block))) [
  | inl y ↦ simp y (inr (inl (ground (arith, y))))
  | inr n ↦ elim (Bool-cases (leb (f.log.size - 1) (length f.log.block))) [
    | inl y ↦ simp n (simp y (inr (inr (ground (arith, y)))))
    | inr m ↦ elim (Bool-cases (ltb f.log.outstanding 1)) [
      | inl y ↦ simp n (simp m (simp y (inl (ground (arith, y)))))
      | inr k ↦ simp n (simp m (simp k (refl, refl, length-absorb b f.log.block)))
    ]
  ]
]

pub then_log-Logs : (f : Fs) (o : Option Fs) (b : ℕ) → Logs 1 f o → Logs 2 f (then_log o b)
then_log-Logs f none b h = Short-later 1 1 2 f f refl (refl, refl, omega arith) h
then_log-Logs f (some g) b h = both (log_write g b) (log_write-Logs g b)
  where
    both : (o : Option Fs) → Logs 1 g o → Logs 2 f o
    both none s = Short-later 1 1 2 f g refl h s
    both (some k) l = Kept-later 1 1 2 f g k refl h l
