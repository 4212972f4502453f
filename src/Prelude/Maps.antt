-- ===== src/Prelude/Maps.antt =====
-- Tables as functions from numbers, and their update at one number.
use spring_os_mp.Prelude.{ℕ, ◌≡◌, ◌≢◌, refl, ◌==◌, ==_iff, Bool-cases, inl, inr, if◌then◌else◌}

module _ {ℓ} {A : Type ℓ} where
  abbrev pub update_at : (ℕ → A) → ℕ → A → ℕ → A
  update_at f i a j = if j == i then a else f j

  pub update_at-same : (f : ℕ → A) (i : ℕ) (a : A) → update_at f i a i ≡ a
  update_at-same f i a = simp ((==_iff i i).1 refl) refl

  pub update_at-other : (f : ℕ → A) (i j : ℕ) (a : A) → j ≢ i → update_at f i a j ≡ f j
  update_at-other f i j a ne = elim (Bool-cases (j == i)) [
    | inl y ↦ absurd (ne ((==_iff j i).0 y))
    | inr n ↦ simp n refl
  ]
