-- ===== src/Files/Refs.antt =====
-- What the reference counts of mp4/kernel/file.c promise.
use spring_os_mp.Prelude.{
  ℕ, zero, suc, ◌+◌, ◌-◌, ◌<◌, ◌≤◌, true, false, Option, some, none, List, [], ◌∷◌, ◌≡◌, refl, sym,
  ◌∙◌, ap, length, get_elem?, get_elem?-set_self, set, arith, ◌==◌, ltb, Bool-cases, inl, inr,
}
use spring_os_mp.Files.Defs.{File, Closing, filealloc, past, filedup, fileclose, close_at}

-- Every file in front of index `n` is in use.
abbrev pub InUse : List File → ℕ → Type 0
InUse [] n = Unit
InUse (f ∷ fs) zero = Unit
InUse (f ∷ fs) (suc n) = ((f.ref == 0) ≡ false) × InUse fs n

-- The first file that is not in use gets one reference; none is found only where all are in use.
abbrev pub Allocated : List File → Option (ℕ × List File) → Type 0
Allocated fs none = InUse fs (length fs)
Allocated fs (some (i, gs)) =
    InUse fs i
    × ((f : File) × (get_elem? fs i ≡ some f)
        × ((f.ref == 0) ≡ true)
        × (gs ≡ set fs i (record f { ref = 1 })))

Allocated-past :
    (f : File) (fs : List File) (r : Option (ℕ × List File))
    → (f.ref == 0) ≡ false
    → Allocated fs r
    → Allocated (f ∷ fs) (past f r)
Allocated-past f fs none e h = (e, h)
Allocated-past f fs (some (i, gs)) e (used, (g, at, free, same)) =
    ((e, used), (g, at, free, ap (λ l. f ∷ l) same))

-- For every table, `filealloc` gives one reference to the first file that has none and changes nothing
-- else; it fails only where every file is in use.
pub filealloc-Allocated : (fs : List File) → Allocated fs (filealloc fs)
unfolding filealloc
filealloc-Allocated [] = tt
filealloc-Allocated (f ∷ fs) = elim (Bool-cases (f.ref == 0)) [
  | inl free ↦ simp free (tt, (f, refl, free, refl))
  | inr used ↦ simp used (Allocated-past f fs (filealloc fs) used (filealloc-Allocated fs))
]

set-set : (fs : List File) (i : ℕ) (f g : File) → set (set fs i f) i g ≡ set fs i g
set-set [] i f g = refl
set-set (x ∷ fs) zero f g = refl
set-set (x ∷ fs) (suc i) f g = ap (λ l. x ∷ l) (set-set fs i f g)

set-get : (fs : List File) (i : ℕ) (f : File) → get_elem? fs i ≡ some f → set fs i f ≡ fs
set-get [] i f e = refl
set-get (x ∷ fs) zero f e = ap (λ y. y ∷ fs) (sym (some-injective e))
  where
    some-injective : {a b : File} → some a ≡ some b → a ≡ b
    some-injective e = cc
set-get (x ∷ fs) (suc i) f e = ap (λ l. x ∷ l) (set-get fs i f e)

inside : (fs : List File) (i : ℕ) (f : File) → get_elem? fs i ≡ some f → i < length fs
inside [] i f e = absurd (none-some e)
  where
    none-some : none ≡ some f → ⊥
    none-some e = cc
inside (x ∷ fs) zero f e = omega arith
inside (x ∷ fs) (suc i) f e = let h = inside fs i f e in omega arith

-- For every file of the table with a reference, `filedup` succeeds, and a `fileclose` of it then gives
-- back the table as it was and closes nothing.
pub filedup-fileclose :
    (fs : List File) (i : ℕ) (f : File)
    → get_elem? fs i ≡ some f
    → 1 ≤ f.ref
    → (gs : List File) × (filedup fs i ≡ some gs) × (fileclose gs i ≡ some (fs, Closing.nothing))
unfolding filedup fileclose
filedup-fileclose fs i f e h =
    let more : File = record f { ref = f.ref + 1 } in
    let held : ltb f.ref 1 ≡ false = ground arith in
    let held_more : ltb (f.ref + 1) 1 ≡ false = ground arith in
    let still : ltb 0 (f.ref + 1 - 1) ≡ true = ground arith in
    let back : f.ref + 1 - 1 ≡ f.ref = omega arith in
    let at : get_elem? (set fs i more) i ≡ some more =
      get_elem?-set_self fs i more (inside fs i f e) in
    (
      set fs i more,
      simp e (simp held refl),
      ap (close_at (set fs i more) i) at
          ∙ simp held_more (
              simp still (
                ap (λ n. some (set (set fs i more) i (record f { ref = n }), Closing.nothing)) back
                ∙ ap (λ l. some (l, Closing.nothing)) (set-set fs i more f ∙ set-get fs i f e))),
    )
