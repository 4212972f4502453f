-- ===== src/Fs/Path/Suffix.antt =====
-- Strings of mp4/kernel/fs.c in memory, from a later byte on.
use spring_os_mp.Prelude.{
  ℕ, zero, suc, ◌+◌, ◌<◌, ◌≤◌, true, false, [], ◌∷◌, ◌≡◌, refl, sym, ◌∙◌, ap, subst, length, drop,
  arith, ◌==◌, Bool-cases, inl, inr, if◌then◌else◌,
}
use spring_os_mp.Strings.Defs.{Memory}
use spring_os_mp.Fs.Path.{string_at}

-- A string that ends in its buffer, from byte `k` on.
string_at-stable :
    (m : Memory) (p n : ℕ) → length (string_at m p n) < n → string_at m p (suc n) ≡ string_at m p n
string_at-stable m p zero h = absurd (omega arith)
string_at-stable m p (suc n) h = elim (Bool-cases (m p == 0)) [
  | inl y ↦ simp y refl
  | inr x ↦
      let shorter : length (string_at m (p + 1) n) < n = inner x h in
      simp x (ap (λ l. m p ∷ l) (string_at-stable m (p + 1) n shorter))
]
  where
    inner :
        (m p == 0) ≡ false
        → length (string_at m p (suc n)) < suc n
        → length (string_at m (p + 1) n) < n
    inner x h =
        omega
          (arith, subst (λ b. length (if b then [] else m p ∷ string_at m (p + 1) n) < suc n) x h)

pub string_at-drop :
    (m : Memory) (p n k : ℕ)
    → length (string_at m p n) < n
    → k ≤ length (string_at m p n)
    → string_at m (p + k) n ≡ drop k (string_at m p n)
string_at-drop m p n zero h l = let e : p + 0 ≡ p = omega arith in ap (λ q. string_at m q n) e
string_at-drop m p zero (suc k) h l = absurd (omega arith)
string_at-drop m p (suc n) (suc k) h l = elim (Bool-cases (m p == 0)) [
  | inl y ↦ absurd (empty y l)
  | inr x ↦
      let shorter : length (string_at m (p + 1) n) < n = inner x h in
      let rest : string_at m (p + 1) (suc n) ≡ string_at m (p + 1) n =
        string_at-stable m (p + 1) n shorter in
      let e : p + suc k ≡ p + 1 + k = omega arith in
      let goal : string_at m (p + suc k) (suc n) ≡ drop k (string_at m (p + 1) n) =
        ap (λ q. string_at m q (suc n)) e
        ∙ string_at-drop m (p + 1) (suc n) k
            (subst (λ r. length r < suc n) (sym rest) (omega arith))
            (subst (λ r. k ≤ length r) (sym rest) (within x l))
        ∙ ap (drop k) rest in
      simp x goal
]
  where
    empty : (m p == 0) ≡ true → suc k ≤ length (string_at m p (suc n)) → ⊥
    empty y l =
        omega
          (arith, subst (λ b. suc k ≤ length (if b then [] else m p ∷ string_at m (p + 1) n)) y l)

    inner :
        (m p == 0) ≡ false
        → length (string_at m p (suc n)) < suc n
        → length (string_at m (p + 1) n) < n
    inner x h =
        omega
          (arith, subst (λ b. length (if b then [] else m p ∷ string_at m (p + 1) n) < suc n) x h)

    within :
        (m p == 0) ≡ false
        → suc k ≤ length (string_at m p (suc n))
        → k ≤ length (string_at m (p + 1) n)
    within x l =
        omega
          (arith, subst (λ b. suc k ≤ length (if b then [] else m p ∷ string_at m (p + 1) n)) x l)
