-- ===== src/Fs/Chmod/Reach.antt =====
-- Which inodes `chmod_recursive` of mp4/kernel/sysfile.c changes: those below a directory, by the names
-- in it and in the directories below it.
use spring_os_mp.Prelude.{
  ℕ, zero, suc, ◌*◌, ◌^◌, ◌<◌, Bool, true, false, Option, some, none, ◌≡◌, refl, sym, ◌∙◌, ap,
  subst, drop, ◌==◌, ==_iff, ◌&&◌, ◌||◌, not, ◌⊎◌, inl, inr, leb, Bool-cases,
}
use spring_os_mp.Prelude.Maps.{update_at, update_at-same}
use spring_os_mp.Fs.Defs.{Fs, Inode, Mode, ilock, t_dir}
use spring_os_mp.Fs.Dir.{dirent_size, entry_inum, rounds}
use spring_os_mp.Fs.Stable.{IsStable, LockOutcome, ilock-LockOutcome}
use spring_os_mp.Fs.Chmod.{change, change_inode, is_passed}

-- An entry of a directory that has a name of its own, and its inode.
abbrev pub NamesAt : (ℕ → Inode) → ℕ → ℕ → ℕ → Type 0
NamesAt t d k i =
    (k < rounds (t d).content)
    × (is_passed (drop (dirent_size * k) (t d).content) ≡ false)
    × (i ≡ entry_inum (drop (dirent_size * k) (t d).content))

abbrev pub IsDir : (ℕ → Inode) → ℕ → Type 0
IsDir t i = ((t i).type == t_dir) ≡ true

pub data Below (t : ℕ → Inode) : ℕ → ℕ → Type 0 where
  child : {d i : ℕ} → (k : ℕ) → NamesAt t d k i → Below t d i
  deeper : {d c i : ℕ} → (k : ℕ) → NamesAt t d k c → IsDir t c → Below t c i → Below t d i

-- At most so many directories lie on a way down.
abbrev pub Shallow : (ℕ → Inode) → ℕ → ℕ → Type 0
Shallow t zero d = ⊥
Shallow t (suc n) d = (k c : ℕ) → NamesAt t d k c → IsDir t c → Shallow t n c

abbrev pub with_mode : Mode → Bool → Inode → Inode
with_mode mode set x = record x { mode = change mode set x.mode }

with_mode_twice :
    (mode : Mode) (set : Bool) (x : Inode)
    → with_mode mode set (with_mode mode set x) ≡ with_mode mode set x
with_mode_twice mode set x = ap (λ m. record x { mode = m }) (twice mode set x.mode)
  where
    or_twice : (a b : Bool) → ((a || b) || b) ≡ (a || b)
    or_twice true b = refl
    or_twice false true = refl
    or_twice false false = refl

    and_twice : (a b : Bool) → ((a && b) && b) ≡ (a && b)
    and_twice true true = refl
    and_twice true false = refl
    and_twice false b = refl

    twice :
        (mode : Mode) (set : Bool) (m : Mode)
        → change mode set (change mode set m) ≡ change mode set m
    twice mode true m i = record {
      read = or_twice m.read mode.read i;
      write = or_twice m.write mode.write i;
    }
    twice mode false m i = record {
      read = and_twice m.read (not mode.read) i;
      write = and_twice m.write (not mode.write) i;
    }

abbrev pub LockStable : (ℕ → Inode) → Option Fs → Type 0
LockStable u none = Unit
LockStable u (some s) = IsStable u s

lock_stable :
    (u : ℕ → Inode) (s : Fs) (i : ℕ) (r : Option Fs) → LockOutcome u s i r → LockStable u r
lock_stable u s i none h = tt
lock_stable u s i (some s') h = h.1

pub ilock-LockStable : (u : ℕ → Inode) (s : Fs) (i : ℕ) → IsStable u s → LockStable u (ilock s i)
unfolding ilock
ilock-LockStable u s i v =
    elim (Bool-cases ((s.entry i).ref == 0 || leb (2 ^ 31) (s.entry i).ref)) [
      | inl y ↦ simp y tt
      | inr n ↦ lock_stable u s i (ilock s i) (ilock-LockOutcome u s i v n)
    ]

module _ (t : ℕ → Inode) (mode : Mode) (set : Bool) (Target : ℕ → Type 0) where
  -- The state on the way: every inode is as at the start, or is a target with its mode changed.
  pub record OnWay (s : Fs) : Type 0 where
    pub stable : IsStable s.inode s
    pub moved : (j : ℕ) → (s.inode j ≡ t j) ⊎ (Target j × (s.inode j ≡ with_mode mode set (t j)))

  abbrev pub Marked : Fs → ℕ → Type 0
  Marked s i = s.inode i ≡ with_mode mode set (t i)

  abbrev pub Later : Fs → Fs → Type 0
  Later s s' = OnWay s' × ((i : ℕ) → Marked s i → Marked s' i)

  pub type_same : (s : Fs) (j : ℕ) → OnWay s → (s.inode j).type ≡ (t j).type
  type_same s j v = elim (v.moved j) [
    | inl e ↦ ap (λ x. x.type) e
    | inr (y, e) ↦ ap (λ x. x.type) e
  ]

  pub content_same : (s : Fs) (j : ℕ) → OnWay s → (s.inode j).content ≡ (t j).content
  content_same s j v = elim (v.moved j) [
    | inl e ↦ ap (λ x. x.content) e
    | inr (y, e) ↦ ap (λ x. x.content) e
  ]

  -- A step that changes no inode.
  pub still : (s s' : Fs) → OnWay s → IsStable s.inode s' → Later s s'
  still s s' v w = (
    record {
      stable = subst (λ u. IsStable u s') (sym w.same) w;
      moved =
          subst (λ u. (j : ℕ) → (u j ≡ t j) ⊎ (Target j × (u j ≡ with_mode mode set (t j))))
            (sym w.same) v.moved;
    },
    (λ i m. ap (λ u. u i) w.same ∙ m),
  )

  -- A change of the mode of a target.
  pub change_inode-Later :
      (s : Fs) (i : ℕ)
      → OnWay s
      → Target i
      → Later s (change_inode mode set s i) × Marked (change_inode mode set s i) i
  change_inode-Later s i v target = ((record { stable = stable; moved = moved }, kept), here)
    where
      new : ℕ → Inode
      new = update_at s.inode i (with_mode mode set (s.inode i))

      again : (j : ℕ) → Marked s j → with_mode mode set (s.inode j) ≡ with_mode mode set (t j)
      again j m = ap (with_mode mode set) m ∙ with_mode_twice mode set (t j)

      at : (j : ℕ) → with_mode mode set (s.inode j) ≡ with_mode mode set (t j)
      at j = elim (v.moved j) [ inl e ↦ ap (with_mode mode set) e | inr (y, e) ↦ again j e ]

      here : new i ≡ with_mode mode set (t i)
      here = update_at-same s.inode i (with_mode mode set (s.inode i)) ∙ at i

      kept : (j : ℕ) → Marked s j → new j ≡ with_mode mode set (t j)
      kept j m = elim (Bool-cases (j == i)) [
        | inl y ↦ subst (λ k. new k ≡ with_mode mode set (t k)) (sym ((==_iff j i).0 y)) here
        | inr n ↦ simp n m
      ]

      moved : (j : ℕ) → (new j ≡ t j) ⊎ (Target j × (new j ≡ with_mode mode set (t j)))
      moved j = elim (Bool-cases (j == i)) [
        | inl y ↦
            let e : j ≡ i = (==_iff j i).0 y in
            inr (
              subst Target (sym e) target,
              subst (λ k. new k ≡ with_mode mode set (t k)) (sym e) here,
            )
        | inr n ↦ simp n (v.moved j)
      ]

      type_kept : (j : ℕ) → (new j).type ≡ (s.inode j).type
      type_kept j = elim (Bool-cases (j == i)) [
        | inl y ↦ simp y (ap (λ k. (s.inode k).type) (sym ((==_iff j i).0 y)))
        | inr n ↦ simp n refl
      ]

      nlink_kept : (j : ℕ) → (new j).nlink ≡ (s.inode j).nlink
      nlink_kept j = elim (Bool-cases (j == i)) [
        | inl y ↦ simp y (ap (λ k. (s.inode k).nlink) (sym ((==_iff j i).0 y)))
        | inr n ↦ simp n refl
      ]

      stable : IsStable new (change_inode mode set s i)
      stable = record {
        same = refl;
        typed = λ j h. ap (λ n. n == 0) (type_kept j) ∙ v.stable.typed j h;
        linked = λ j h.
            ap (λ n. n == 0) (nlink_kept j)
            ∙ v.stable.linked j (ap (λ n. n == 0) (sym (type_kept j)) ∙ h);
      }
