-- ===== src/Fs/Calls/Refs.antt =====
-- The references that the calls of mp4/kernel/sysfile.c hold when they return.
use spring_os_mp.Prelude.{
  ℕ, ◌+◌, ◌^◌, ◌<◌, arith, Bool, true, false, Option, some, none, List, ◌≡◌, refl, ◌∙◌, ◌==◌, not,
  Bool-cases, inl, inr, if◌then◌else◌,
}
use spring_os_mp.Prelude.Int.{ℤ, pos}
use spring_os_mp.Strings.Defs.{Memory}
use spring_os_mp.Fs.Defs.{Fs, ilock, t_dir, t_device, t_symlink}
use spring_os_mp.Fs.Counts.{Counts, and_one, Small, iput-Counts, Locked, ilock-Locked}
use spring_os_mp.Fs.Walk.{Outcome, namex}
use spring_os_mp.Fs.Walk.Refs.{Balanced, fits, grown, swapped, namex-Balances}
use spring_os_mp.Fs.Link.{plain_call}
use spring_os_mp.Fs.Create.{create}
use spring_os_mp.Fs.Create.Refs.{create-Balances}
use spring_os_mp.Fs.Open.{Os}
use spring_os_mp.Fs.Calls.{
  Return, minus_one, put_made, sys_mkdir, sys_mknod, enter, change_dir, sys_chdir, make_link,
  write_target, sys_symlink,
}

-- The counts when a call returns.
abbrev pub Leaves : (Os → Type 0) → Return → Type 0
Leaves P (Return.answers v os) = P os
Leaves P Return.panics = Unit
Leaves P Return.endless = Unit

-- The counts are those of a table, and one more at the working directory.
abbrev pub HoldsCwd : (ℕ → ℕ) → Os → Type 0
HoldsCwd f os = Counts os.fs (and_one f os.cwd)

abbrev pub Leaked : (ℕ → ℕ) → ℕ → Return → Type 0
Leaked f i (Return.answers v os) = (v ≡ minus_one) × Counts os.fs (and_one f i)
Leaked f i Return.panics = ⊥
Leaked f i Return.endless = ⊥

-- What `sys_symlink` leaves, by what `namei` of its path finds.
abbrev pub Leaks : (ℕ → ℕ) → Outcome → Return → Type 0
Leaks f (Outcome.result (some i) name m s) r = Leaked f i r
Leaks f (Outcome.result none name m s) r = Leaves (λ x. Counts x.fs f) r
Leaks f Outcome.panic r = Unit
Leaks f Outcome.out_of_fuel r = Unit

module _ (f : ℕ → ℕ) (small : Small f) where
  put_made-Leaves :
      (os : Os) (o : Outcome) → Balanced f o → Leaves (λ x. Counts x.fs f) (put_made os o)
  put_made-Leaves os Outcome.panic h = tt
  put_made-Leaves os Outcome.out_of_fuel h = tt
  put_made-Leaves os (Outcome.result none name m s) h = h
  put_made-Leaves os (Outcome.result (some ip) name m s) h = iput-Counts s f ip (fits f small ip) h

  write_target-Balanced :
      (target : List ℕ) (o : Outcome) → Balanced f o → Balanced f (write_target target o)
  write_target-Balanced target Outcome.panic h = tt
  write_target-Balanced target Outcome.out_of_fuel h = tt
  write_target-Balanced target (Outcome.result none name m s) h = h
  write_target-Balanced target (Outcome.result (some ip) name m s) h = h

  make_link-Leaves :
      (fuel : ℕ) (os : Os) (p : ℕ) (target : List ℕ) (o : Outcome)
      → Balanced f o
      → Leaks f o (make_link fuel os p target o)
  make_link-Leaves fuel os p target Outcome.panic h = tt
  make_link-Leaves fuel os p target Outcome.out_of_fuel h = tt
  make_link-Leaves fuel os p target (Outcome.result (some ip) name m s) h = (refl, h)
  make_link-Leaves fuel os p target (Outcome.result none name m s) h =
      let o : Outcome = create fuel os.cwd s m p t_symlink (pos 0) in
      put_made-Leaves os (write_target target o) (
        write_target-Balanced target o
          (create-Balances f fuel os.cwd s m p t_symlink (pos 0) small h))

  enter-HoldsCwd :
      (os : Os) (m : Memory) (ip : ℕ) (s : Fs) (r : Option Fs)
      → Locked s r
      → Counts s (and_one (and_one f os.cwd) ip)
      → Leaves (HoldsCwd f) (enter os m ip r)
  enter-HoldsCwd os m ip s none l h = tt
  enter-HoldsCwd os m ip s (some t) l h =
      let counts : Counts t (and_one (and_one f os.cwd) ip) = (λ j. l.1 j ∙ h j) in
      elim (Bool-cases (not ((t.inode ip).type == t_dir))) [
        | inl y ↦ simp y (iput-Counts t (and_one f os.cwd) ip (grown f small os.cwd ip) counts)
        | inr n ↦ simp n (
            iput-Counts t (and_one f ip) os.cwd (grown f small ip os.cwd)
              (λ j. counts j ∙ swapped f small os.cwd ip j))
      ]

  change_dir-HoldsCwd :
      (os : Os) (o : Outcome)
      → Balanced (and_one f os.cwd) o
      → Leaves (HoldsCwd f) (change_dir os o)
  change_dir-HoldsCwd os Outcome.panic h = tt
  change_dir-HoldsCwd os Outcome.out_of_fuel h = tt
  change_dir-HoldsCwd os (Outcome.result none name m s) h = h
  change_dir-HoldsCwd os (Outcome.result (some ip) name m s) h =
      enter-HoldsCwd os m ip s (ilock s ip) (ilock-Locked s ip) h

-- For every state in which a process holds one reference to its working directory, with the other counts
-- below 2^28, whatever `sys_chdir` answers, it holds one reference to the working directory that it then
-- has, and all other counts are as before.
pub sys_chdir-HoldsCwd :
    (f : ℕ → ℕ) (fuel : ℕ) (os : Os) (p : ℕ)
    → ((j : ℕ) → f j < 2 ^ 28)
    → HoldsCwd f os
    → Leaves (HoldsCwd f) (sys_chdir fuel os p)
unfolding sys_chdir
sys_chdir-HoldsCwd f fuel os p few h =
    change_dir-HoldsCwd f (λ j. omega (arith, few j)) os
      (namex fuel (plain_call os.cwd) os.fs os.memory p)
      (namex-Balances (and_one f os.cwd) fuel (plain_call os.cwd) os.fs os.memory p
        (λ j. below (f j) (j == os.cwd) (few j)) h)
  where
    below : (k : ℕ) (b : Bool) → k < 2 ^ 28 → k + (if b then 1 else 0) < 2 ^ 29
    below k true h = omega arith
    below k false h = omega arith

-- For every state whose counts of references are below 2^29, `sys_mkdir` and `sys_mknod` leave all counts
-- as before, whatever they answer. `sys_symlink` does so where its path is not there; where `namei` finds
-- an inode, it answers -1 and leaves one more reference to that inode.
pub sys_symlink-Leaks :
    (fuel : ℕ) (os : Os) (target : List ℕ) (p : ℕ) (major : ℤ)
    → Small (λ j. (os.fs.entry j).ref)
    → Leaves (λ x. Counts x.fs (λ j. (os.fs.entry j).ref)) (sys_mkdir fuel os p)
      × Leaves (λ x. Counts x.fs (λ j. (os.fs.entry j).ref)) (sys_mknod fuel os p major)
      × Leaks
          (λ j. (os.fs.entry j).ref)
          (namex fuel (plain_call os.cwd) os.fs os.memory p)
          (sys_symlink fuel os target p)
unfolding sys_mkdir sys_mknod sys_symlink
sys_symlink-Leaks fuel os target p major small =
    let f : ℕ → ℕ = λ j. (os.fs.entry j).ref in
    (
      put_made-Leaves f small os (create fuel os.cwd os.fs os.memory p t_dir (pos 0))
          (create-Balances f fuel os.cwd os.fs os.memory p t_dir (pos 0) small (λ j. refl)),
      put_made-Leaves f small os (create fuel os.cwd os.fs os.memory p t_device major)
          (create-Balances f fuel os.cwd os.fs os.memory p t_device major small (λ j. refl)),
      make_link-Leaves f small fuel os p target (namex fuel (plain_call os.cwd) os.fs os.memory p)
          (namex-Balances f fuel (plain_call os.cwd) os.fs os.memory p small (λ j. refl)),
    )
