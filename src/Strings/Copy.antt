-- ===== src/Strings/Copy.antt =====
-- `safestrcpy` of mp4/kernel/string.c ends its copy with a zero byte and stays in the buffer.
use spring_os_mp.Prelude.{
  ℕ, zero, suc, ◌+◌, ◌<◌, ◌≤◌, ◌≡◌, ◌≢◌, ◌∙◌, ap, arith, ◌==◌, Bool-cases, inl, inr,
}
use spring_os_mp.Strings.Defs.{Memory, store, safe_copy, safestrcpy}
use spring_os_mp.Strings.Move.{Outside, store-same, store-other}

-- There is a zero byte among the `n` from `s`.
abbrev pub Ends : Memory → ℕ → ℕ → Type 0
Ends m s n = (j : ℕ) × (j < n) × (m (s + j) ≡ 0)

safe_copy-Ends : (m : Memory) (s t n : ℕ) → Ends (safe_copy m s t n) s (suc n)
unfolding safe_copy
safe_copy-Ends m s t zero = (0, omega arith, ap (store m s 0) (plus_zero s) ∙ store-same m s 0)
  where
    plus_zero : (k : ℕ) → k + 0 ≡ k
    plus_zero k = omega arith
safe_copy-Ends m s t (suc n) = elim (Bool-cases (m t == 0)) [
  | inl y ↦ simp y (1, omega arith, store-same (store m s (m t)) (s + 1) 0)
  | inr x ↦
      let (j, lt, e) = safe_copy-Ends (store m s (m t)) (s + 1) (t + 1) n in
      let later : Ends (safe_copy (store m s (m t)) (s + 1) (t + 1) n) s (suc (suc n)) =
        (suc j, omega arith, ap (safe_copy (store m s (m t)) (s + 1) (t + 1) n) (shift s j) ∙ e) in
      simp x later
]
  where
    shift : (k i : ℕ) → k + suc i ≡ k + 1 + i
    shift k i = omega arith

Outside-rest : (s n a : ℕ) → Outside s (suc n) a → Outside (s + 1) n a × (a ≢ s)
Outside-rest s n a (inl h) = (inl (omega arith), (λ e. omega arith))
Outside-rest s n a (inr h) = (inr (omega arith), (λ e. omega arith))

pub safe_copy-Outside : (m : Memory) (s t n a : ℕ) → Outside s (suc n) a → safe_copy m s t n a ≡ m a
unfolding safe_copy
safe_copy-Outside m s t zero a h = store-other m s 0 a (Outside-rest s 0 a h).1
safe_copy-Outside m s t (suc n) a h =
    let (rest, ne) = Outside-rest s (suc n) a h in
    elim (Bool-cases (m t == 0)) [
      | inl y ↦ simp y (
          store-other (store m s (m t)) (s + 1) 0 a (Outside-rest (s + 1) n a rest).1
          ∙ store-other m s (m t) a ne)
      | inr x ↦ simp x (
          safe_copy-Outside (store m s (m t)) (s + 1) (t + 1) n a rest ∙ store-other m s (m t) a ne)
    ]

-- For every memory and a size of at least 1, `safestrcpy` leaves a zero byte among the bytes of the
-- buffer and changes no byte outside it.
pub safestrcpy-Ends :
    (m : Memory) (s t n : ℕ)
    → 1 ≤ n
    → Ends (safestrcpy m s t n) s n × ((a : ℕ) → Outside s n a → safestrcpy m s t n a ≡ m a)
unfolding safestrcpy
safestrcpy-Ends m s t zero h = absurd (omega arith)
safestrcpy-Ends m s t (suc n) h =
    (safe_copy-Ends m s t n, (λ a out. safe_copy-Outside m s t n a out))
