-- ===== src/Fs/Counts.antt =====
-- How `iget`, `idup`, `ilock` and `iput` of mp4/kernel/fs.c move the counts of references.
use spring_os_mp.Prelude.{
  ℕ, ◌+◌, ◌-◌, ◌%◌, ◌^◌, ◌<◌, true, false, Option, some, none, ◌≡◌, refl, sym, ◌∙◌, ap, arith, ◌==◌,
  ◌&&◌, ◌||◌, leb, Bool-cases, inl, inr, if◌then◌else◌,
}
use spring_os_mp.Prelude.Maps.{update_at}
use spring_os_mp.Fs.Defs.{Fs, Entry, iget, idup, ilock, iput, int_mod}
use spring_os_mp.Prelude.{==_iff}

-- The numbers of references are those of a table.
abbrev pub Counts : Fs → (ℕ → ℕ) → Type 0
Counts s f = (j : ℕ) → (s.entry j).ref ≡ f j

-- One more reference at an inode.
abbrev pub and_one : (ℕ → ℕ) → ℕ → ℕ → ℕ
and_one f i j = f j + (if j == i then 1 else 0)

-- No count is near the end of its range.
abbrev pub Small : (ℕ → ℕ) → Type 0
Small f = (j : ℕ) → f j < 2 ^ 29

-- An operation that changes the count at one inode.
counted :
    (s : Fs) (f g : ℕ → ℕ) (i : ℕ) (e : Entry)
    → Counts s f
    → e.ref ≡ g i
    → ((j : ℕ) → (j == i) ≡ false → f j ≡ g j)
    → (j : ℕ) → (update_at s.entry i e j).ref ≡ g j
counted s f g i e h q r j = elim (Bool-cases (j == i)) [
  | inl y ↦ simp y (q ∙ ap g (sym ((==_iff j i).0 y)))
  | inr n ↦ simp n (h j ∙ r j n)
]

one_here : (f : ℕ → ℕ) (i : ℕ) → and_one f i i ≡ f i + 1
one_here f i = ground arith

one_elsewhere : (f : ℕ → ℕ) (i j : ℕ) → (j == i) ≡ false → f j ≡ and_one f i j
one_elsewhere f i j n = ground arith

-- A count that `iget` takes for no reference is 0.
dead : (r : ℕ) → r < 2 ^ 30 → (r == 0 || leb (2 ^ 31) r) ≡ true → r ≡ 0
dead r h e = ground arith

more : (r : ℕ) → r < 2 ^ 30 → (r + 1) % int_mod ≡ r + 1
more r h = omega arith

pub iget-Counts :
    (s : Fs) (f : ℕ → ℕ) (i : ℕ) → f i < 2 ^ 30 → Counts s f → Counts (iget s i) (and_one f i)
unfolding iget
iget-Counts s f i lt h j =
    let r = (s.entry i).ref in
    let small : r < 2 ^ 30 = omega (arith, h i) in
    elim (Bool-cases (r == 0 || leb (2 ^ 31) r)) [
      | inl y ↦ simp y (
          counted s f (and_one f i) i (record { ref = 1; valid = false }) h
            (sym (one_here f i ∙ ap (λ n. n + 1) (sym (h i) ∙ dead r small y))) (one_elsewhere f i)
            j)
      | inr n ↦ simp n (
          counted s f (and_one f i) i
            (record { ref = (r + 1) % int_mod; valid = (s.entry i).valid }) h
            (more r small ∙ ap (λ n. n + 1) (h i) ∙ sym (one_here f i)) (one_elsewhere f i) j)
    ]

pub idup-Counts :
    (s : Fs) (f : ℕ → ℕ) (i : ℕ) → f i < 2 ^ 30 → Counts s f → Counts (idup s i) (and_one f i)
unfolding idup
idup-Counts s f i lt h j =
    let r = (s.entry i).ref in
    let small : r < 2 ^ 30 = omega (arith, h i) in
    counted s f (and_one f i) i (record { ref = (r + 1) % int_mod; valid = (s.entry i).valid }) h
      (more r small ∙ ap (λ n. n + 1) (h i) ∙ sym (one_here f i)) (one_elsewhere f i) j

pub iput-Counts :
    (s : Fs) (f : ℕ → ℕ) (i : ℕ) → f i < 2 ^ 30 → Counts s (and_one f i) → Counts (iput s i) f
unfolding iput
iput-Counts s f i lt h j =
    let e = s.entry i in
    let less : ℕ = (e.ref + int_mod - 1) % int_mod in
    let back : less ≡ f i = fewer e.ref (f i) lt (h i ∙ one_here f i) in
    elim (Bool-cases (e.ref == 1 && e.valid && (s.inode i).nlink == 0)) [
      | inl y ↦ simp y (
          counted s (and_one f i) f i (record { ref = less; valid = false }) h back
            (λ k n. sym (one_elsewhere f i k n)) j)
      | inr n ↦ simp n (
          counted s (and_one f i) f i (record { ref = less; valid = e.valid }) h back
            (λ k n. sym (one_elsewhere f i k n)) j)
    ]
  where
    fewer : (r k : ℕ) → k < 2 ^ 30 → r ≡ k + 1 → (r + int_mod - 1) % int_mod ≡ k
    fewer r k lt e = omega arith

-- What a lock leaves alone: every inode and every count.
abbrev pub Locked : Fs → Option Fs → Type 0
Locked s none = Unit
Locked s (some s') = (s'.inode ≡ s.inode) × ((j : ℕ) → (s'.entry j).ref ≡ (s.entry j).ref)

pub ilock-Locked : (s : Fs) (i : ℕ) → Locked s (ilock s i)
unfolding ilock
ilock-Locked s i =
    let e = s.entry i in
    elim (Bool-cases (e.ref == 0 || leb (2 ^ 31) e.ref)) [
      | inl y ↦ simp y tt
      | inr n ↦ elim (Bool-cases e.valid) [
        | inl v ↦ simp n (simp v (refl, (λ j. refl)))
        | inr w ↦ elim (Bool-cases ((s.inode i).type == 0)) [
          | inl z ↦ simp n (simp w (simp z tt))
          | inr t ↦ simp n (simp w (simp t (refl, same)))
        ]
      ]
    ]
  where
    same :
        (j : ℕ)
        → (update_at s.entry i (record { ref = (s.entry i).ref; valid = true }) j).ref
          ≡ (s.entry j).ref
    same j =
        counted s (λ k. (s.entry k).ref) (λ k. (s.entry k).ref) i
          (record { ref = (s.entry i).ref; valid = true }) (λ k. refl) refl (λ k n. refl) j
