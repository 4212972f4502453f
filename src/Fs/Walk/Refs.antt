-- ===== src/Fs/Walk/Refs.antt =====
-- The references that `namex` of mp4/kernel/fs.c holds when it returns.
use spring_os_mp.Prelude.{
  ℕ, zero, suc, ◌+◌, ◌-◌, ◌^◌, ◌<◌, Bool, true, false, Option, some, none, List, [], ◌∷◌, ◌≡◌, refl,
  ◌∙◌, length, arith, ◌==◌, not, ◌&&◌, Bool-cases, inl, inr, if◌then◌else◌,
}
use spring_os_mp.Strings.Defs.{Memory}
use spring_os_mp.Fs.Defs.{Fs, iget, idup, ilock, iput, t_dir, t_symlink, root_ino}
use spring_os_mp.Fs.Dir.{Lookup, dirlookup}
use spring_os_mp.Fs.Path.{skipelem, max_path, string_at}
use spring_os_mp.Fs.Walk.{
  Call, Outcome, Next, start, at_link, at_entry, at_dir, at_elem, walk, namex, is_nil,
}
use spring_os_mp.Prelude.{◌++◌}
use spring_os_mp.Fs.Path.{concat_path}
use spring_os_mp.Fs.Path.{store_bytes}
use spring_os_mp.Fs.Path.{concat_buf}
use spring_os_mp.Fs.Path.{target_buf}
use spring_os_mp.Fs.Path.{slash}
use spring_os_mp.Fs.Dir.{cstring}
use spring_os_mp.Fs.Defs.{dirsiz}
use spring_os_mp.Fs.Counts.{
  Counts, and_one, Small, iget-Counts, idup-Counts, iput-Counts, Locked, ilock-Locked,
}

-- The references when a walk ends: one more at the inode that it returns, none more if it returns
-- none.
abbrev pub Balanced : (ℕ → ℕ) → Outcome → Type 0
Balanced f (Outcome.result (some i) name m s) = Counts s (and_one f i)
Balanced f (Outcome.result none name m s) = Counts s f
Balanced f Outcome.panic = Unit
Balanced f Outcome.out_of_fuel = Unit

module _ (f : ℕ → ℕ) (small : Small f) where
  pub fits : (j : ℕ) → f j < 2 ^ 30
  fits j = omega (arith, small j)

  -- The rest of the walk is balanced from any inode that it holds.
  KeepsBalance : Next → Type 0
  KeepsBalance next =
      (s : Fs) (m : Memory) (i p : ℕ) (name : List ℕ)
      → Counts s (and_one f i)
      → Balanced f (next s m i p name)

  start-Balanced :
      (c : Call) (next : Next) (s : Fs) (m : Memory) (p : ℕ) (name : List ℕ)
      → KeepsBalance next
      → Counts s f
      → Balanced f (start c next s m p name)
  unfolding KeepsBalance
  start-Balanced c next s m p name k h = elim (Bool-cases (m p == slash)) [
    | inl y ↦
        simp y (k (iget s root_ino) m root_ino p name (iget-Counts s f root_ino (fits root_ino) h))
    | inr n ↦ simp n (k (idup s c.cwd) m c.cwd p name (idup-Counts s f c.cwd (fits c.cwd) h))
  ]

  at_link-Balanced :
      (c : Call) (next : Next) (m : Memory) (i p : ℕ) (name rest : List ℕ) (s : Fs) (r : Option Fs)
      → KeepsBalance next
      → Locked s r
      → Counts s (and_one f i)
      → Balanced f (at_link c next m i p name rest r)
  unfolding KeepsBalance
  at_link-Balanced c next m i p name rest s none k l h = tt
  at_link-Balanced c next m i p name rest s (some t) k l h =
      let counts : Counts t (and_one f i) = (λ j. l.1 j ∙ h j) in
      elim (Bool-cases ((t.inode i).type == t_symlink && not (is_nil rest))) [
        | inl y ↦
            let target = cstring dirsiz (t.inode i).content in
            simp y (
              start-Balanced c next (iput t i)
                (concat_path (store_bytes m target_buf (target ++ 0 ∷ [])) target_buf p) concat_buf
                name k (iput-Counts t f i (fits i) counts))
        | inr n ↦ simp n (k t m i p name counts)
      ]

  pub grown : (a b : ℕ) → and_one f a b < 2 ^ 30
  grown a b = under (f b) (b == a) (small b)
    where
      under : (k : ℕ) (t : Bool) → k < 2 ^ 29 → k + (if t then 1 else 0) < 2 ^ 30
      under k true h = omega arith
      under k false h = omega arith

  pub swapped : (ip i j : ℕ) → and_one (and_one f ip) i j ≡ and_one (and_one f i) ip j
  swapped ip i j = omega arith

  pub entered :
      (s : Fs) (ip i : ℕ) → Counts s (and_one f ip) → Counts (iput (iget s i) ip) (and_one f i)
  entered s ip i h =
      iput-Counts (iget s i) (and_one f i) ip (grown i ip)
        (λ j. iget-Counts s (and_one f ip) i (grown ip i) h j ∙ swapped ip i j)

  at_entry-Balanced :
      (c : Call) (next : Next) (s : Fs) (m : Memory) (ip p : ℕ) (name rest : List ℕ) (l : Lookup)
      → KeepsBalance next
      → Counts s (and_one f ip)
      → Balanced f (at_entry c next s m ip p name rest l)
  unfolding KeepsBalance
  at_entry-Balanced c next s m ip p name rest Lookup.missing k h = iput-Counts s f ip (fits ip) h
  at_entry-Balanced c next s m ip p name rest Lookup.broken k h = tt
  at_entry-Balanced c next s m ip p name rest (Lookup.entry off i) k h =
      let s' : Fs = iput (iget s i) ip in
      let counts : Counts s' (and_one f i) = entered s ip i h in
      elim (Bool-cases c.follow) [
        | inl y ↦
            simp y
              (at_link-Balanced c next m i p name rest s' (ilock s' i) k (ilock-Locked s' i) counts)
        | inr n ↦ simp n (k s' m i p name counts)
      ]

  at_dir-Balanced :
      (c : Call) (next : Next) (m : Memory) (ip p : ℕ) (name rest : List ℕ) (s : Fs) (r : Option Fs)
      → KeepsBalance next
      → Locked s r
      → Counts s (and_one f ip)
      → Balanced f (at_dir c next m ip p name rest r)
  at_dir-Balanced c next m ip p name rest s none k l h = tt
  at_dir-Balanced c next m ip p name rest s (some t) k l h =
      let counts : Counts t (and_one f ip) = (λ j. l.1 j ∙ h j) in
      let put = iput-Counts t f ip (fits ip) counts in
      elim (Bool-cases (not ((t.inode ip).type == t_dir))) [
        | inl y ↦ simp y put
        | inr dir ↦ elim (Bool-cases (not (t.inode ip).mode.read)) [
          | inl y ↦ simp dir (simp y put)
          | inr readable ↦ elim (Bool-cases (c.parent && is_nil rest)) [
            | inl y ↦ simp dir (simp readable (simp y counts))
            | inr on ↦ simp dir (
                simp readable (
                  simp on (
                    at_entry-Balanced c next t m ip p name rest
                      (dirlookup (t.inode ip).content name) k counts)))
          ]
        ]
      ]

  at_elem-Balanced :
      (c : Call) (next : Next) (s : Fs) (m : Memory) (ip p len : ℕ) (name : List ℕ)
      (r : Option (List ℕ × List ℕ))
      → KeepsBalance next
      → Counts s (and_one f ip)
      → Balanced f (at_elem c next s m ip p len name r)
  at_elem-Balanced c next s m ip p len name none k h = elim (Bool-cases c.parent) [
    | inl y ↦ simp y (iput-Counts s f ip (fits ip) h)
    | inr n ↦ simp n h
  ]
  at_elem-Balanced c next s m ip p len old (some (name, rest)) k h =
      at_dir-Balanced c next m ip (p + (len - length rest)) name rest s (ilock s ip) k
        (ilock-Locked s ip) h

  walk-Balanced : (fuel : ℕ) (c : Call) → KeepsBalance (walk fuel c)
  unfolding walk KeepsBalance
  walk-Balanced zero c s m ip p name h = tt
  walk-Balanced (suc n) c s m ip p name h =
      at_elem-Balanced c (walk n c) s m ip p (length (string_at m p max_path)) name
        (skipelem (string_at m p max_path)) (walk-Balanced n c) h

-- The references around a call of `namex`.
pub namex-Balances :
    (f : ℕ → ℕ) (fuel : ℕ) (c : Call) (s : Fs) (m : Memory) (p : ℕ)
    → Small f
    → Counts s f
    → Balanced f (namex fuel c s m p)
unfolding namex
namex-Balances f fuel c s m p small h =
    start-Balanced f small c (walk fuel c) s m p [] (walk-Balanced f small fuel c) h

-- For every state whose counts of references are below 2^29, every path and every amount of fuel, if
-- `namex` returns an inode it holds one more reference to it and no other more or less than before, and
-- if it returns none all counts are as before.
pub namex-Balanced :
    (fuel : ℕ) (c : Call) (s : Fs) (m : Memory) (p : ℕ)
    → Small (λ j. (s.entry j).ref)
    → Balanced (λ j. (s.entry j).ref) (namex fuel c s m p)
namex-Balanced fuel c s m p small =
    namex-Balances (λ j. (s.entry j).ref) fuel c s m p small (λ j. refl)
