-- ===== src/Fs/Stable.antt =====
-- While every inode that is not free has a link, the references of mp4/kernel/fs.c come and go without
-- a change of any inode.
use spring_os_mp.Prelude.{
  ℕ, ◌+◌, ◌-◌, ◌%◌, ◌^◌, Bool, true, false, Option, some, none, ◌≡◌, refl, sym, ◌∙◌, ap, subst,
  ◌==◌, ==_iff, ◌&&◌, ◌||◌, leb, Bool-cases, inl, inr,
}
use spring_os_mp.Prelude.Maps.{update_at}
use spring_os_mp.Fs.Defs.{Fs, Inode, Entry, iget, idup, ilock, iput, int_mod}

-- The inodes are those of a table, every valid entry is of one that is not free, and every inode that is
-- not free has a link.
pub record IsStable (t : ℕ → Inode) (s : Fs) : Type 0 where
  pub same : s.inode ≡ t
  pub typed : (j : ℕ) → (s.entry j).valid ≡ true → ((t j).type == 0) ≡ false
  pub linked : (j : ℕ) → ((t j).type == 0) ≡ false → ((t j).nlink == 0) ≡ false

entries :
    (t : ℕ → Inode) (s : Fs) (i : ℕ) (e : Entry)
    → IsStable t s
    → (e.valid ≡ true → ((t i).type == 0) ≡ false)
    → IsStable t (record s { entry = update_at s.entry i e })
entries t s i e v h = record { same = v.same; typed = typed; linked = v.linked }
  where
    typed : (j : ℕ) → (update_at s.entry i e j).valid ≡ true → ((t j).type == 0) ≡ false
    typed j = elim (Bool-cases (j == i)) [
      | inl y ↦
          simp y
            (subst (λ k. e.valid ≡ true → ((t k).type == 0) ≡ false) (sym ((==_iff j i).0 y)) h)
      | inr n ↦ simp n (v.typed j)
    ]

pub iget-IsStable : (t : ℕ → Inode) (s : Fs) (i : ℕ) → IsStable t s → IsStable t (iget s i)
unfolding iget
iget-IsStable t s i v =
    let e = s.entry i in
    elim (Bool-cases (e.ref == 0 || leb (2 ^ 31) e.ref)) [
      | inl y ↦ simp y (entries t s i (record { ref = 1; valid = false }) v (λ h. cc))
      | inr n ↦
          simp n
            (entries t s i (record { ref = (e.ref + 1) % int_mod; valid = e.valid }) v (v.typed i))
    ]

pub idup-IsStable : (t : ℕ → Inode) (s : Fs) (i : ℕ) → IsStable t s → IsStable t (idup s i)
unfolding idup
idup-IsStable t s i v =
    let e = s.entry i in
    entries t s i (record { ref = (e.ref + 1) % int_mod; valid = e.valid }) v (v.typed i)

-- `iput` frees no inode.
pub iput-IsStable : (t : ℕ → Inode) (s : Fs) (i : ℕ) → IsStable t s → IsStable t (iput s i)
unfolding iput
iput-IsStable t s i v =
    let e = s.entry i in
    let less : ℕ = (e.ref + int_mod - 1) % int_mod in
    elim (Bool-cases (e.ref == 1 && e.valid && (s.inode i).nlink == 0)) [
      | inl y ↦ absurd (kept (e.ref == 1) e.valid ((s.inode i).nlink == 0) y links)
      | inr n ↦ simp n (entries t s i (record { ref = less; valid = e.valid }) v (v.typed i))
    ]
  where
    links : (s.entry i).valid ≡ true → ((s.inode i).nlink == 0) ≡ false
    links h = ap (λ u. (u i).nlink == 0) v.same ∙ v.linked i (v.typed i h)

    kept : (a b c : Bool) → (a && b && c) ≡ true → (b ≡ true → c ≡ false) → ⊥
    kept true true true y h = cc (h refl)
    kept true true false y h = cc
    kept true false c y h = cc
    kept false b c y h = cc

-- What `ilock` does to an inode with a reference: it panics where the inode is free, and only there.
abbrev pub LockOutcome : (ℕ → Inode) → Fs → ℕ → Option Fs → Type 0
LockOutcome t s i none = ((t i).type == 0) ≡ true
LockOutcome t s i (some s') =
    (((t i).type == 0) ≡ false) × IsStable t s' × ((j : ℕ) → (s'.entry j).ref ≡ (s.entry j).ref)

pub ilock-LockOutcome :
    (t : ℕ → Inode) (s : Fs) (i : ℕ)
    → IsStable t s
    → ((s.entry i).ref == 0 || leb (2 ^ 31) (s.entry i).ref) ≡ false
    → LockOutcome t s i (ilock s i)
unfolding ilock
ilock-LockOutcome t s i v live =
    let e = s.entry i in
    elim (Bool-cases e.valid) [
      | inl y ↦ simp live (simp y (v.typed i y, v, (λ j. refl)))
      | inr n ↦ elim (Bool-cases ((s.inode i).type == 0)) [
        | inl z ↦ simp live (simp n (simp z (type_of ∙ z)))
        | inr w ↦ simp live (
            simp n (
              simp w (
                type_of ∙ w,
                entries t s i (record { ref = e.ref; valid = true }) v (λ h. type_of ∙ w),
                refs,
              )))
      ]
    ]
  where
    type_of : ((t i).type == 0) ≡ ((s.inode i).type == 0)
    type_of = ap (λ u. (u i).type == 0) (sym v.same)

    refs :
        (j : ℕ)
        → (update_at s.entry i (record { ref = (s.entry i).ref; valid = true }) j).ref
          ≡ (s.entry j).ref
    refs j = elim (Bool-cases (j == i)) [
      | inl y ↦ simp y (ap (λ k. (s.entry k).ref) (sym ((==_iff j i).0 y)))
      | inr n ↦ simp n refl
    ]
