-- ===== src/Fs/Path/Concat.antt =====
-- `concat_path` of mp4/kernel/fs.c: what it gives for a path outside its buffer, and what it loses where
-- the path is what an earlier call has left there.
use spring_os_mp.Prelude.{
  ℕ, zero, suc, ◌+◌, ◌-◌, ◌<◌, true, false, [], ◌∷◌, ◌≡◌, ◌≢◌, refl, sym, ◌∙◌, ap, subst, length,
  arith, ◌==◌, ◌⊎◌, Bool-cases, inl, inr, if◌then◌else◌,
}
use mathlib.Core.Path.{ap₂}
use spring_os_mp.Strings.Defs.{Memory, store, safe_copy, safestrcpy}
use spring_os_mp.Strings.Move.{store-same, store-other}
use spring_os_mp.Strings.Copy.{safe_copy-Outside}
use spring_os_mp.Fs.Path.{concat_path, concat_buf, target_buf, max_path, string_at}
use spring_os_mp.Prelude.{==_iff}

-- Memories that agree on a string's bytes hold the same string.
pub string_at-cong :
    (m m' : Memory) (p q n : ℕ)
    → ((i : ℕ) → i < n → m' (q + i) ≡ m (p + i))
    → string_at m' q n ≡ string_at m p n
string_at-cong m m' p q zero h = refl
string_at-cong m m' p q (suc n) h =
    let here : m' q ≡ m p = at_zero in
    let rest : string_at m' (q + 1) n ≡ string_at m (p + 1) n =
      string_at-cong m m' (p + 1) (q + 1) n later in
    ap₂ (λ b l. if b == 0 then [] else b ∷ l) here rest
  where
    at_zero : m' q ≡ m p
    at_zero =
        let e : q ≡ q + 0 = omega arith in
        let e' : p + 0 ≡ p = omega arith in ap m' e ∙ h 0 (omega arith) ∙ ap m e'

    later : (i : ℕ) → i < n → m' (q + 1 + i) ≡ m (p + 1 + i)
    later i lt =
        let e : q + 1 + i ≡ q + suc i = omega arith in
        let e' : p + suc i ≡ p + 1 + i = omega arith in ap m' e ∙ h (suc i) (omega arith) ∙ ap m e'

-- The source does not meet the bytes that are written.
abbrev Apart : ℕ → ℕ → ℕ → Type 0
Apart s t n = (s + n < t) ⊎ (t + n < s)

unmet :
    (m : Memory) (s t n v : ℕ)
    → Apart s t (suc n)
    → string_at (store m s v) (t + 1) n ≡ string_at m (t + 1) n
unmet m s t n v h =
    string_at-cong m (store m s v) (t + 1) (t + 1) n
      (λ i lt. store-other m s v (t + 1 + i) (ne h i lt))
  where
    ne : Apart s t (suc n) → (i : ℕ) → i < n → t + 1 + i ≢ s
    ne (inl h) i lt e = omega arith
    ne (inr h) i lt e = omega arith

fewer : (s t n : ℕ) → Apart s t (suc n) → Apart (s + 1) (t + 1) n
fewer s t n (inl h) = inl (omega arith)
fewer s t n (inr h) = inr (omega arith)

string_nil : (m : Memory) (p n : ℕ) → m p ≡ 0 → string_at m p n ≡ []
string_nil m p zero e = refl
string_nil m p (suc n) e = simp ((==_iff (m p) 0).1 e) refl

string_cons :
    (m : Memory) (p n v : ℕ)
    → m p ≡ v
    → (v == 0) ≡ false
    → string_at m p (suc n) ≡ v ∷ string_at m (p + 1) n
string_cons m p n v e ne =
    ap (λ b. if b == 0 then [] else b ∷ string_at m (p + 1) n) e ∙ (simp ne refl)

module _ (m : Memory) (s t n : ℕ) where
  -- The two ways through a round of `safestrcpy`.
  stop : (m t == 0) ≡ true → safe_copy m s t (suc n) ≡ store (store m s (m t)) (s + 1) 0
  unfolding safe_copy
  stop y = simp y refl

  go : (m t == 0) ≡ false → safe_copy m s t (suc n) ≡ safe_copy (store m s (m t)) (s + 1) (t + 1) n
  unfolding safe_copy
  go x = simp x refl

ended : (m : Memory) (s t : ℕ) → safe_copy m s t 0 s ≡ 0
unfolding safe_copy
ended m s t = store-same m s 0

-- `safestrcpy` leaves the string it is given, cut where the buffer ends.
safe_copy-string :
    (m : Memory) (s t n : ℕ)
    → Apart s t n
    → string_at (safe_copy m s t n) s (suc n) ≡ string_at m t n
safe_copy-string m s t zero h = string_nil (safe_copy m s t 0) s 1 (ended m s t)
safe_copy-string m s t (suc n) h = elim (Bool-cases (m t == 0)) [
  | inl y ↦
      let zero_byte : m t ≡ 0 = (==_iff (m t) 0).0 y in
      ap (λ u. string_at u s (suc (suc n))) (stop m s t n y)
      ∙ string_nil (store (store m s (m t)) (s + 1) 0) s (suc (suc n)) (
          store-other (store m s (m t)) (s + 1) 0 s (λ e. omega arith)
          ∙ store-same m s (m t)
          ∙ zero_byte)
      ∙ sym (string_nil m t (suc n) zero_byte)
  | inr x ↦
      let m' : Memory = store m s (m t) in
      ap (λ u. string_at u s (suc (suc n))) (go m s t n x)
      ∙ string_cons (safe_copy m' (s + 1) (t + 1) n) s (suc n) (m t)
          (safe_copy-Outside m' (s + 1) (t + 1) n s (inl (omega arith)) ∙ store-same m s (m t)) x
      ∙ ap (λ l. m t ∷ l)
          (safe_copy-string m' (s + 1) (t + 1) n (fewer s t n h) ∙ unmet m s t n (m t) h)
      ∙ sym (string_cons m t n (m t) refl x)
]

-- It writes a second zero byte behind the first, where there is room.
safe_copy-second :
    (m : Memory) (s t n : ℕ)
    → length (string_at m t n) < n
    → Apart s t n
    → safe_copy m s t n (s + length (string_at m t n) + 1) ≡ 0
safe_copy-second m s t zero h a = absurd (omega arith)
safe_copy-second m s t (suc n) h a = elim (Bool-cases (m t == 0)) [
  | inl y ↦
      let empty : string_at m t (suc n) ≡ [] = string_nil m t (suc n) ((==_iff (m t) 0).0 y) in
      let at : s + length (string_at m t (suc n)) + 1 ≡ s + 1 =
        ap (λ l. s + length l + 1) empty ∙ plus_zero s in
      ap (safe_copy m s t (suc n)) at
      ∙ ap (λ u. u (s + 1)) (stop m s t n y)
      ∙ store-same (store m s (m t)) (s + 1) 0
  | inr x ↦
      let m' : Memory = store m s (m t) in
      let full : string_at m t (suc n) ≡ m t ∷ string_at m (t + 1) n =
        string_cons m t n (m t) refl x in
      let rest : string_at m' (t + 1) n ≡ string_at m (t + 1) n = unmet m s t n (m t) a in
      let at : s + length (string_at m t (suc n)) + 1
          ≡ s + 1 + length (string_at m' (t + 1) n) + 1 =
        ap (λ l. s + length l + 1) (full ∙ ap (λ l. m t ∷ l) (sym rest))
        ∙ shift s (length (string_at m' (t + 1) n)) in
      ap (safe_copy m s t (suc n)) at
      ∙ ap (λ u. u (s + 1 + length (string_at m' (t + 1) n) + 1)) (go m s t n x)
      ∙ safe_copy-second m' (s + 1) (t + 1) n
          (subst (λ l. length l < n) (sym rest)
            (omega (arith, subst (λ l. length l < suc n) full h)))
          (fewer s t n a)
]
  where
    plus_zero : (k : ℕ) → k + 0 + 1 ≡ k + 1
    plus_zero k = omega arith

    shift : (k l : ℕ) → k + suc l + 1 ≡ k + 1 + l + 1
    shift k l = omega arith

-- For every memory whose target ends in its buffer, where the rest of the path stands in the static
-- buffer, one byte further from its start than the target is long, `concat_path` gives the target
-- alone. A second link in a row whose target is as long as that of the first finds its rest there.
pub concat_path_loses :
    (m : Memory)
    → length (string_at m target_buf (max_path - 1)) < max_path - 1
    → string_at
        (concat_path m target_buf (concat_buf + length (string_at m target_buf (max_path - 1)) + 1))
        concat_buf
        max_path
      ≡ string_at m target_buf (max_path - 1)
unfolding concat_path safestrcpy
concat_path_loses m short =
    let rest : ℕ = concat_buf + length (string_at m target_buf (max_path - 1)) + 1 in
    let second : safe_copy m concat_buf target_buf (max_path - 1) rest ≡ 0 =
      safe_copy-second m concat_buf target_buf (max_path - 1) short (inl (omega arith)) in
    let test : (safe_copy m concat_buf target_buf (max_path - 1) rest == 0) ≡ true =
      (==_iff (safe_copy m concat_buf target_buf (max_path - 1) rest) 0).1 second in
    let lost : concat_path m target_buf rest ≡ safe_copy m concat_buf target_buf (max_path - 1) =
      simp test refl in
    ap (λ u. string_at u concat_buf max_path) lost
    ∙ safe_copy-string m concat_buf target_buf (max_path - 1) (inl (omega arith))
