-- ===== src/Prelude/Fold.antt =====
-- Loops that pick an element of a list: a fold that keeps the best one seen so far.
use mathlib.Core.List.{Mem, Mem-prop, mem-cons, mem-cons_self, mem-cons_of_mem}
use mathlib.Core.Logic.Or
use spring_os_mp.Prelude.{
  Bool, true, false, Option, some, none, List, [], ◌∷◌, ◌≡◌, refl, foldl, Bool-cases, if◌then◌else◌,
  inl, inr,
}
use spring_os_mp.Prelude.{◌++◌}

abbrev pub All {ℓ κ} : {A : Type ℓ} → (A → Type κ) → List A → Type κ
All P [] = Unit
All P (x ∷ xs) = P x × All P xs

pub All-map {ℓ κ μ} :
    {A : Type ℓ} {P : A → Type κ} {Q : A → Type μ} (xs : List A)
    → ((x : A) → P x → Q x)
    → All P xs
    → All Q xs
All-map [] f h = tt
All-map (x ∷ xs) f h = (f x h.0, All-map xs f h.1)

pub All-both {ℓ κ μ ν} :
    {A : Type ℓ} {P : A → Type κ} {Q : A → Type μ} {R : A → Type ν} (xs : List A)
    → ((x : A) → P x → Q x → R x)
    → All P xs
    → All Q xs
    → All R xs
All-both [] f h k = tt
All-both (x ∷ xs) f h k = (f x h.0 k.0, All-both xs f h.1 k.1)

mem-skip {ℓ} : {A : Type ℓ} {t s : A} {xs : List A} (x : A) → Mem t (s ∷ xs) → Mem t (s ∷ x ∷ xs)
mem-skip {s} x m =
    Or.elim Mem-prop (mem-cons.0 m) (λ e. rw e mem-cons_self)
      (λ h. mem-cons_of_mem s (mem-cons_of_mem x h))

module _ {A : Type 0} (eligible : A → Bool) (better : A → A → Bool) where
  -- Keep the first eligible element, and later any that is better than the one kept.
  abbrev pub visit : Option A → A → Option A
  visit none x = if eligible x then some x else none
  visit (some s) x = if eligible x then if better x s then some x else some s else some s

  -- What the rules of comparison have to be for the loop to find a best element.
  pub record IsOrder : Type 0 where
    pub asym :
        (a b : A) → eligible a ≡ true → eligible b ≡ true → better a b ≡ true → better b a ≡ false
    pub trans :
        (a b c : A)
        → eligible a ≡ true
        → eligible b ≡ true
        → eligible c ≡ true
        → better b a ≡ false
        → better c b ≡ false
        → better c a ≡ false

  -- No eligible element of `xs` is better than `s`.
  abbrev pub Unbeaten : List A → A → Type 0
  Unbeaten xs s = All (λ x. eligible x ≡ true → better x s ≡ false) xs

  -- `s` is an eligible element of `xs` that no other one beats.
  abbrev pub Best : List A → Option A → Type 0
  Best xs none = All (λ x. eligible x ≡ false) xs
  Best xs (some s) = Mem s xs × (eligible s ≡ true) × Unbeaten xs s

  module _ (order : IsOrder) where
    irrefl : (a : A) → eligible a ≡ true → better a a ≡ false
    irrefl a e = elim (Bool-cases (better a a)) [ inl y ↦ order.asym a a e e y | inr n ↦ n ]

    -- The loop, once it has found `s`.
    Later : List A → A → A → Type 0
    Later xs s t = (eligible t ≡ true) × Mem t (s ∷ xs) × (better s t ≡ false) × Unbeaten xs t

    best_from :
        (xs : List A) (s : A)
        → eligible s ≡ true
        → (t : A) × (foldl visit (some s) xs ≡ some t) × Later xs s t
    unfolding Later
    best_from [] s e = (s, refl, (e, mem-cons_self, irrefl s e, tt))
    best_from (x ∷ xs) s e = elim (Bool-cases (eligible x)) [
      | inr skip ↦
          let (t, p, (et, m, b, u)) = best_from xs s e in
          (t, rw skip p, (et, mem-skip x m, b, (λ h. cc, u)))
      | inl take ↦ elim (Bool-cases (better x s)) [
        | inl up ↦
            let (t, p, (et, m, b, u)) = best_from xs x take in
            (
              t,
              rw (take, up) p,
              (
                et,
                mem-cons_of_mem s m,
                order.trans t x s et take e b (order.asym x s take e up),
                (λ h. b, u),
              ),
            )
        | inr stay ↦
            let (t, p, (et, m, b, u)) = best_from xs s e in
            (
              t,
              rw (take, stay) p,
              (et, mem-skip x m, b, (λ h. order.trans t s x et e take b stay, u)),
            )
      ]
    ]

    -- The loop finds a best element, and none only where no element is eligible.
    pub foldl-Best : (xs : List A) → Best xs (foldl visit none xs)
    unfolding Later
    foldl-Best [] = tt
    foldl-Best (x ∷ xs) = elim (Bool-cases (eligible x)) [
      | inl take ↦
          let (t, p, (et, m, b, u)) = best_from xs x take in rw (take, p) (m, et, (λ h. b, u))
      | inr skip ↦ rw skip (Best-skip x skip (foldl visit none xs) (foldl-Best xs))
    ]
      where
        Best-skip : (x : A) → eligible x ≡ false → (o : Option A) → Best xs o → Best (x ∷ xs) o
        Best-skip x e none h = (e, h)
        Best-skip x e (some s) h = (mem-cons_of_mem x h.0, h.1, (λ k. cc, h.2))

pub All-append {ℓ κ} :
    {A : Type ℓ} (P : A → Type κ) (xs ys : List A) → All P xs → All P ys → All P (xs ++ ys)
All-append P [] ys h k = k
All-append P (x ∷ xs) ys h k = (h.0, All-append P xs ys h.1 k)

pub All-split {ℓ κ} :
    {A : Type ℓ} (P : A → Type κ) (xs ys : List A) → All P (xs ++ ys) → All P xs × All P ys
All-split P [] ys h = (tt, h)
All-split P (x ∷ xs) ys h = let (a, b) = All-split P xs ys h.1 in ((h.0, a), b)
