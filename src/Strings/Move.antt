-- ===== src/Strings/Move.antt =====
-- `memmove` of mp4/kernel/string.c copies also where source and destination overlap.
use spring_os_mp.Prelude.{
  ℕ, zero, suc, ◌+◌, ◌<◌, ◌≤◌, true, false, ◌≡◌, ◌≢◌, refl, sym, ◌∙◌, ap, arith, ◌==◌, ltb, ltb→lt,
  ==_iff, ◌&&◌, Bool-cases, inl, inr, ◌⊎◌,
}
use spring_os_mp.Strings.Defs.{Memory, store, copy_down, copy_up, memmove}

-- An address outside the `n` bytes from `d`.
abbrev pub Outside : ℕ → ℕ → ℕ → Type 0
Outside d n a = (a < d) ⊎ (d + n ≤ a)

pub store-same : (m : Memory) (a v : ℕ) → store m a v a ≡ v
store-same m a v = simp ((==_iff a a).1 refl) refl

pub store-other : (m : Memory) (a v b : ℕ) → b ≢ a → store m a v b ≡ m b
store-other m a v b ne = elim (Bool-cases (b == a)) [
  | inl y ↦ absurd (ne ((==_iff b a).0 y))
  | inr n ↦ simp n refl
]

copy_up-Outside : (m : Memory) (d s n a : ℕ) → Outside d n a → copy_up m d s n a ≡ m a
unfolding copy_up
copy_up-Outside m d s zero a h = refl
copy_up-Outside m d s (suc n) a (inl h) =
    copy_up-Outside (store m d (m s)) (d + 1) (s + 1) n a (inl (omega arith))
    ∙ store-other m d (m s) a (λ e. omega arith)
copy_up-Outside m d s (suc n) a (inr h) =
    copy_up-Outside (store m d (m s)) (d + 1) (s + 1) n a (inr (omega arith))
    ∙ store-other m d (m s) a (λ e. omega arith)

copy_down-Outside : (m : Memory) (d s n a : ℕ) → Outside d n a → copy_down m d s n a ≡ m a
unfolding copy_down
copy_down-Outside m d s zero a h = refl
copy_down-Outside m d s (suc n) a (inl h) =
    copy_down-Outside (store m (d + n) (m (s + n))) d s n a (inl h)
    ∙ store-other m (d + n) (m (s + n)) a (λ e. omega arith)
copy_down-Outside m d s (suc n) a (inr h) =
    copy_down-Outside (store m (d + n) (m (s + n))) d s n a (inr (omega arith))
    ∙ store-other m (d + n) (m (s + n)) a (λ e. omega arith)

-- Going up is right where the destination is not inside what is left of the source.
copy_up-copies :
    (m : Memory) (d s n i : ℕ) → (d ≤ s) ⊎ (s + n ≤ d) → i < n → copy_up m d s n (d + i) ≡ m (s + i)
unfolding copy_up
copy_up-copies m d s zero i h lt = absurd (omega arith)
copy_up-copies m d s (suc n) zero h lt =
    copy_up-Outside (store m d (m s)) (d + 1) (s + 1) n (d + 0) (inl (omega arith))
    ∙ ap (store m d (m s)) (plus_zero d)
    ∙ store-same m d (m s)
    ∙ ap m (sym (plus_zero s))
  where
    plus_zero : (k : ℕ) → k + 0 ≡ k
    plus_zero k = omega arith
copy_up-copies m d s (suc n) (suc i) h lt =
    ap (copy_up (store m d (m s)) (d + 1) (s + 1) n) (shift d i)
    ∙ copy_up-copies (store m d (m s)) (d + 1) (s + 1) n i (moved h) (omega arith)
    ∙ ap (store m d (m s)) (sym (shift s i))
    ∙ store-other m d (m s) (s + suc i) (λ e. apart h e)
  where
    shift : (k i : ℕ) → k + suc i ≡ k + 1 + i
    shift k i = omega arith

    moved : (d ≤ s) ⊎ (s + suc n ≤ d) → (d + 1 ≤ s + 1) ⊎ (s + 1 + n ≤ d + 1)
    moved (inl h) = inl (omega arith)
    moved (inr h) = inr (omega arith)

    apart : (d ≤ s) ⊎ (s + suc n ≤ d) → s + suc i ≡ d → ⊥
    apart (inl h) e = omega arith
    apart (inr h) e = omega arith

-- Going down is right where the destination is above the source.
copy_down-copies :
    (m : Memory) (d s n i : ℕ) → s < d → i < n → copy_down m d s n (d + i) ≡ m (s + i)
unfolding copy_down
copy_down-copies m d s zero i h lt = absurd (omega arith)
copy_down-copies m d s (suc n) i h lt = elim (Bool-cases (ltb i n)) [
  | inl below ↦
      let less : i < n = ltb→lt i n below in
      copy_down-copies (store m (d + n) (m (s + n))) d s n i h less
      ∙ store-other m (d + n) (m (s + n)) (s + i) (λ e. omega arith)
  | inr top ↦
      let last : i ≡ n = top_is n lt top in
      copy_down-Outside (store m (d + n) (m (s + n))) d s n (d + i) (inr (omega arith))
      ∙ ap (λ k. store m (d + n) (m (s + n)) (d + k)) last
      ∙ store-same m (d + n) (m (s + n))
      ∙ ap (λ k. m (s + k)) (sym last)
]
  where
    top_is : (n : ℕ) → i < suc n → ltb i n ≡ false → i ≡ n
    top_is n lt e = ground arith

-- For every memory and length, overlaps included, `memmove` leaves at the destination the bytes that the
-- source held before the call, and changes no other byte.
pub memmove-copies :
    (m : Memory) (dst src n : ℕ)
    → ((i : ℕ) → i < n → memmove m dst src n (dst + i) ≡ m (src + i))
      × ((a : ℕ) → Outside dst n a → memmove m dst src n a ≡ m a)
unfolding memmove
memmove-copies m dst src n = elim (Bool-cases (ltb src dst && ltb dst (src + n))) [
  | inl down ↦ simp down (
    (λ i h. copy_down-copies m dst src n i (above src dst (src + n) down) h),
    (λ a h. copy_down-Outside m dst src n a h),
  )
  | inr up ↦ simp up (
    (λ i h. copy_up-copies m dst src n i (apart src dst (src + n) up) h),
    (λ a h. copy_up-Outside m dst src n a h),
  )
]
  where
    above : (s d e : ℕ) → (ltb s d && ltb d e) ≡ true → s < d
    above s d e h = ground arith

    apart : (s d e : ℕ) → (ltb s d && ltb d e) ≡ false → (d ≤ s) ⊎ (e ≤ d)
    apart s d e h = ground arith
