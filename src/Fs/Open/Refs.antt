-- ===== src/Fs/Open/Refs.antt =====
-- `sys_open` of mp4/kernel/sysfile.c holds the references that it should.
use spring_os_mp.Prelude.{
  ℕ, ◌≡◌, refl, ◌∙◌, true, false, Option, some, none, List, ◌==◌, not, ◌&&◌, Bool-cases, inl, inr,
  subst, sym,
}
use spring_os_mp.Prelude.Int.{pos}
use spring_os_mp.Strings.Defs.{Memory}
use spring_os_mp.Files.Defs.{File}
use spring_os_mp.Fs.Defs.{Fs, ilock, t_symlink, t_file}
use spring_os_mp.Fs.Counts.{Counts, and_one, Small, iput-Counts, Locked, ilock-Locked}
use spring_os_mp.Fs.Walk.{Call, Outcome, namex}
use spring_os_mp.Fs.Walk.Refs.{Balanced, fits, namex-Balances}
use spring_os_mp.Fs.Link.{IsTarget, follow_symlink, follow_symlink-IsTarget}
use spring_os_mp.Fs.Create.Refs.{create-Balances}
use spring_os_mp.Fs.Open.{
  Os, Result, has, o_create, o_noaccess, o_trunc, is_denied, through, permit, lock_target, locate,
  finish, sys_open, truncated,
}
use spring_os_mp.Fs.Open.Placed.{file_of, FreeAreNone, Placed, finish-Placed}

-- What a call leaves of the counts: one more at the inode of the file that it opens, and none more where
-- it fails.
abbrev pub Held : (ℕ → ℕ) → Result → Type 0
Held f (Result.opens fd os) = (g : File) × (file_of os fd ≡ some g) × Counts os.fs (and_one f g.ip)
Held f (Result.fails os) = Counts os.fs f
Held f Result.panics = Unit
Held f Result.endless = Unit

truncated-Counts :
    (omode : ℕ) (s : Fs) (ip : ℕ) (f : ℕ → ℕ) → Counts s f → Counts (truncated omode s ip) f
truncated-Counts omode s ip f h =
    elim (Bool-cases (has omode o_trunc && (s.inode ip).type == t_file)) [
      | inl y ↦ simp y h
      | inr n ↦ simp n h
    ]

module _ (f : ℕ → ℕ) (small : Small f) where
  target-Balanced : (o : Outcome) → IsTarget f o → Balanced f o
  target-Balanced Outcome.panic h = tt
  target-Balanced Outcome.out_of_fuel h = tt
  target-Balanced (Outcome.result none name m s) h = h
  target-Balanced (Outcome.result (some i) name m s) h = h.1

  through-Balanced :
      (omode cwd : ℕ) (m : Memory) (ip : ℕ) (s : Fs) (r : Option Fs)
      → Locked s r
      → Counts s (and_one f ip)
      → Balanced f (through omode cwd m ip r)
  through-Balanced omode cwd m ip s none l h = tt
  through-Balanced omode cwd m ip s (some t) l h =
      let counts : Counts t (and_one f ip) = (λ j. l.1 j ∙ h j) in
      elim (Bool-cases ((t.inode ip).type == t_symlink && not (has omode o_noaccess))) [
        | inl y ↦ simp y (
            target-Balanced (follow_symlink 11 false cwd t m ip)
              (follow_symlink-IsTarget f cwd t m ip small counts))
        | inr n ↦ simp n counts
      ]

  lock_target-Balanced :
      (omode cwd : ℕ) (o : Outcome) → Balanced f o → Balanced f (lock_target omode cwd o)
  lock_target-Balanced omode cwd Outcome.panic h = tt
  lock_target-Balanced omode cwd Outcome.out_of_fuel h = tt
  lock_target-Balanced omode cwd (Outcome.result none name m s) h = h
  lock_target-Balanced omode cwd (Outcome.result (some ip) name m s) h =
      through-Balanced omode cwd m ip s (ilock s ip) (ilock-Locked s ip) h

  permit-Balanced : (omode : ℕ) (o : Outcome) → Balanced f o → Balanced f (permit omode o)
  permit-Balanced omode Outcome.panic h = tt
  permit-Balanced omode Outcome.out_of_fuel h = tt
  permit-Balanced omode (Outcome.result none name m s) h = h
  permit-Balanced omode (Outcome.result (some ip) name m s) h =
      elim (Bool-cases (is_denied omode (s.inode ip))) [
        | inl y ↦ simp y (iput-Counts s f ip (fits f small ip) h)
        | inr n ↦ simp n h
      ]

  locate-Balanced :
      (fuel : ℕ) (os : Os) (p omode : ℕ) → Counts os.fs f → Balanced f (locate fuel os p omode)
  unfolding locate
  locate-Balanced fuel os p omode h =
      let c : Call = record { parent = false; follow = true; cwd = os.cwd } in
      let o : Outcome = namex fuel c os.fs os.memory p in
      elim (Bool-cases (has omode o_create)) [
        | inl y ↦ simp y (create-Balances f fuel os.cwd os.fs os.memory p t_file (pos 0) small h)
        | inr n ↦ simp n (
            permit-Balanced omode (lock_target omode os.cwd o) (
              lock_target-Balanced omode os.cwd o
                (namex-Balances f fuel c os.fs os.memory p small h)))
      ]

  Placed-Held :
      (omode : ℕ) (s : Fs) (fs : List File) (ip : ℕ) (r : Result)
      → FreeAreNone fs
      → Counts s (and_one f ip)
      → Placed omode s fs ip r
      → Held f r
  Placed-Held omode s fs ip (Result.opens fd os) free h (g, at, state) = (
    _,
    at,
    subst (λ t. Counts t (and_one f ip)) (sym state) (truncated-Counts omode s ip (and_one f ip) h),
  )
  Placed-Held omode s fs ip (Result.fails os) free h put =
      subst (λ t. Counts t f) (sym (put free)) (iput-Counts s f ip (fits f small ip) h)
  Placed-Held omode s fs ip Result.panics free h p = tt
  Placed-Held omode s fs ip Result.endless free h p = tt

  finish-Held :
      (omode : ℕ) (os : Os) (o : Outcome)
      → FreeAreNone os.files
      → Balanced f o
      → Held f (finish omode os o)
  finish-Held omode os Outcome.panic free h = tt
  finish-Held omode os Outcome.out_of_fuel free h = tt
  finish-Held omode os (Outcome.result none name m s) free h = h
  finish-Held omode os (Outcome.result (some ip) name m s) free h =
      Placed-Held omode s os.files ip (finish omode os (Outcome.result (some ip) name m s)) free h
        (finish-Placed omode os ip name m s)

-- For every state with counts of references below 2^29, in which the files that are not in use have no
-- type, and every path and mode of opening, if `sys_open` gives a descriptor, its file is there and holds
-- one more reference to its inode and no other more or less than before; if it fails, all counts are as
-- before.
pub sys_open-Held :
    (fuel : ℕ) (os : Os) (p omode : ℕ)
    → Small (λ j. (os.fs.entry j).ref)
    → FreeAreNone os.files
    → Held (λ j. (os.fs.entry j).ref) (sys_open fuel os p omode)
unfolding sys_open
sys_open-Held fuel os p omode small free =
    let f : ℕ → ℕ = λ j. (os.fs.entry j).ref in
    finish-Held f small omode os (locate fuel os p omode) free
      (locate-Balanced f small fuel os p omode (λ j. refl))
