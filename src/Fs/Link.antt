-- ===== src/Fs/Link.antt =====
-- `follow_symlink` of mp4/kernel/fs.c: a chain of at most eleven links, each target resolved from the
-- working directory without following links on the way. A target of 128 bytes or more, which leaves no
-- zero byte in the array that it is read into, is cut at 127.
use spring_os_mp.Prelude.{
  ℕ, zero, suc, ◌-◌, ◌≤◌, length, arith, Bool, false, Option, some, none, [], ◌∷◌, ◌++◌, ◌≡◌, refl,
  ◌∙◌, ◌==◌, not, Bool-cases, inl, inr, if◌then◌else◌,
}
use spring_os_mp.Strings.Defs.{Memory}
use spring_os_mp.Fs.Defs.{Fs, ilock, iput, t_symlink}
use spring_os_mp.Fs.Dir.{cstring}
use spring_os_mp.Fs.Path.{store_bytes, max_path, string_at}
use spring_os_mp.Fs.Counts.{Counts, and_one, Small, iput-Counts, ilock-Locked, Locked}
use spring_os_mp.Fs.Walk.{Call, Outcome, namex, is_nil}
use spring_os_mp.Fs.Walk.Ends.{Ends, namex-Ends, stored-le}
use spring_os_mp.Fs.Walk.Refs.{Balanced, fits, namex-Balances}

-- Where the array `target` of `follow_symlink` stands.
abbrev pub link_buf : ℕ
link_buf = 512

-- One round for each byte of a path, and one.
abbrev pub path_fuel : ℕ
path_fuel = 129

abbrev pub plain_call : ℕ → Call
plain_call cwd = record { parent = false; follow = false; cwd = cwd }

abbrev pub Follow : Type 0
Follow = Fs → Memory → ℕ → Outcome

-- The end of a round, with the inode that the target names locked.
abbrev pub at_next : Follow → Bool → Memory → ℕ → ℕ → Option Fs → Outcome
at_next again read m ip next none = Outcome.panic
at_next again read m ip next (some s) =
    if (s.inode next).type == t_symlink
    then again s m next
    else if read
    then Outcome.result (some ip) [] m (iput s next)
    else Outcome.result (some next) [] m s

abbrev pub at_target : Follow → Bool → ℕ → Outcome → Outcome
at_target again read ip Outcome.panic = Outcome.panic
at_target again read ip Outcome.out_of_fuel = Outcome.out_of_fuel
at_target again read ip (Outcome.result none name m s) = Outcome.result none [] m s
at_target again read ip (Outcome.result (some next) name m s) =
    at_next again read m ip next (ilock s next)

-- With the rounds left, 11 - depth.
unfoldable pub follow_symlink : ℕ → Bool → ℕ → Follow
follow_symlink zero read cwd s m ip = Outcome.result none [] m (iput s ip)
follow_symlink (suc n) read cwd s m ip =
    let x = s.inode ip in
    if not (x.type == t_symlink)
    then Outcome.result (some ip) [] m s
    else if is_nil x.content
    then Outcome.result none [] m (iput s ip)
    else at_target (follow_symlink n read cwd) read ip (
        namex path_fuel (plain_call cwd) (iput s ip)
          (store_bytes m link_buf (cstring (max_path - 1) x.content ++ 0 ∷ [])) link_buf)

-- What a call that is to open the target promises: it gives an inode that is no link, and holds one
-- more reference to that inode alone.
abbrev pub IsTarget : (ℕ → ℕ) → Outcome → Type 0
IsTarget f (Outcome.result (some i) name m s) =
    (((s.inode i).type == t_symlink) ≡ false) × Counts s (and_one f i)
IsTarget f (Outcome.result none name m s) = Counts s f
IsTarget f Outcome.panic = Unit
IsTarget f Outcome.out_of_fuel = ⊥

module _ (f : ℕ → ℕ) (small : Small f) (cwd : ℕ) where
  abbrev Targets : Follow → Type 0
  Targets again = (s : Fs) (m : Memory) (i : ℕ) → Counts s (and_one f i) → IsTarget f (again s m i)

  at_next-IsTarget :
      (again : Follow) (m : Memory) (ip next : ℕ) (s : Fs) (r : Option Fs)
      → Targets again
      → Locked s r
      → Counts s (and_one f next)
      → IsTarget f (at_next again false m ip next r)
  at_next-IsTarget again m ip next s none k l h = tt
  at_next-IsTarget again m ip next s (some t) k l h =
      let counts : Counts t (and_one f next) = (λ j. l.1 j ∙ h j) in
      elim (Bool-cases ((t.inode next).type == t_symlink)) [
        | inl y ↦ simp y (k t m next counts)
        | inr n ↦ simp n (refl, counts)
      ]

  at_target-IsTarget :
      (again : Follow) (ip : ℕ) (o : Outcome)
      → Targets again
      → Balanced f o
      → Ends o
      → IsTarget f (at_target again false ip o)
  at_target-IsTarget again ip Outcome.panic k h e = tt
  at_target-IsTarget again ip Outcome.out_of_fuel k h e = elim e [ ]
  at_target-IsTarget again ip (Outcome.result none name m s) k h e = h
  at_target-IsTarget again ip (Outcome.result (some next) name m s) k h e =
      at_next-IsTarget again m ip next s (ilock s next) k (ilock-Locked s next) h

  Targets-follow : (n : ℕ) → Targets (follow_symlink n false cwd)
  unfolding follow_symlink
  Targets-follow zero s m i h = iput-Counts s f i (fits f small i) h
  Targets-follow (suc n) s m i h = elim (Bool-cases ((s.inode i).type == t_symlink)) [
    | inr y ↦ simp y (refl, h)
    | inl link ↦ elim (Bool-cases (is_nil (s.inode i).content)) [
      | inl e ↦ simp link (simp e (iput-Counts s f i (fits f small i) h))
      | inr full ↦
          let m' : Memory =
            store_bytes m link_buf (cstring (max_path - 1) (s.inode i).content ++ 0 ∷ []) in
          let short : length (string_at m' link_buf max_path) ≤ max_path - 1 =
            stored-le m link_buf (max_path - 1) max_path (s.inode i).content in
          simp link (
            simp full (
              at_target-IsTarget (follow_symlink n false cwd) i
                (namex path_fuel (plain_call cwd) (iput s i) m' link_buf) (Targets-follow n)
                (namex-Balances f path_fuel (plain_call cwd) (iput s i) m' link_buf small
                  (iput-Counts s f i (fits f small i) h))
                (namex-Ends (plain_call cwd) refl path_fuel (iput s i) m' link_buf (omega arith)
                  (omega arith))))
    ]
  ]

-- For every state that holds a reference to an inode, with counts below 2^29, `follow_symlink` to open
-- ends within eleven links: it answers an inode that is no symbolic link and holds one reference to it in
-- the place of the given one, or it answers none and holds no reference, or it panics.
pub follow_symlink-IsTarget :
    (f : ℕ → ℕ) (cwd : ℕ) (s : Fs) (m : Memory) (ip : ℕ)
    → Small f
    → Counts s (and_one f ip)
    → IsTarget f (follow_symlink 11 false cwd s m ip)
follow_symlink-IsTarget f cwd s m ip small h = Targets-follow f small cwd 11 s m ip h
