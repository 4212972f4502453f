-- ===== src/Fs/Open/Access.antt =====
-- What `sys_open` of mp4/kernel/sysfile.c lets a process do with a file that it does not create.
use spring_os_mp.Prelude.{
  ℕ, ◌≡◌, refl, ap, ◌∙◌, arith, true, false, some, none, List, [], ◌==◌, ◌&&◌, ◌||◌, inl, inr,
  Bool-cases,
}
use spring_os_mp.Prelude.Maps.{update_at-same}
use spring_os_mp.Files.Defs.{File}
use spring_os_mp.Fs.Open.Placed.{file_of, Placed, finish-Placed}
use spring_os_mp.Fs.Defs.{Inode, Fs, t_dir, t_file}
use spring_os_mp.Fs.Walk.{Outcome, namex}
use spring_os_mp.Fs.Open.{
  Os, Result, has, o_rdonly, o_rdwr, o_noaccess, o_create, is_denied, permit, opened_file, locate,
  finish, sys_open, truncated, o_trunc,
}
use spring_os_mp.Fs.Open.{lock_target}

-- What the mode of opening and the mode of an inode make of a file: none of both ways with
-- O_NOACCESS; writing only where the inode may be written and is no directory; and with O_RDONLY or
-- O_RDWR, reading only where it may be read.
abbrev pub Grants : ℕ → Inode → File → Type 0
Grants omode x f =
    (has omode o_noaccess ≡ true → (f.readable ≡ false) × (f.writable ≡ false))
    × (f.writable ≡ true → (x.mode.write ≡ true) × ((x.type == t_dir) ≡ false))
    × ((omode == o_rdonly || has omode o_rdwr) ≡ true → f.readable ≡ true → x.mode.read ≡ true)

opened_file-Grants :
    (omode : ℕ) (x y : Inode) (ip : ℕ) (f : File)
    → is_denied omode y ≡ false
    → Grants omode y (opened_file omode x ip f)
opened_file-Grants omode x y ip f h = (ground arith, ground arith, ground arith)

-- The same in the state that a call leaves.
abbrev pub Granted : ℕ → Result → Type 0
Granted omode (Result.opens fd os) =
    (f : File) × (file_of os fd ≡ some f) × Grants omode (os.fs.inode f.ip) f
Granted omode (Result.fails os) = Unit
Granted omode Result.panics = Unit
Granted omode Result.endless = Unit

abbrev Permits : ℕ → Outcome → Type 0
Permits omode (Outcome.result (some ip) name m s) = is_denied omode (s.inode ip) ≡ false
Permits omode (Outcome.result none name m s) = Unit
Permits omode Outcome.panic = Unit
Permits omode Outcome.out_of_fuel = Unit

permit-Permits : (omode : ℕ) (o : Outcome) → Permits omode (permit omode o)
permit-Permits omode Outcome.panic = tt
permit-Permits omode Outcome.out_of_fuel = tt
permit-Permits omode (Outcome.result none name m s) = tt
permit-Permits omode (Outcome.result (some ip) name m s) =
    elim (Bool-cases (is_denied omode (s.inode ip))) [ inl y ↦ simp y tt | inr n ↦ simp n refl ]

-- Truncation changes nothing that the checks look at.
is_denied-truncated :
    (omode : ℕ) (s : Fs) (ip : ℕ)
    → is_denied omode ((truncated omode s ip).inode ip) ≡ is_denied omode (s.inode ip)
is_denied-truncated omode s ip =
    let x : Inode = record (s.inode ip) { content = [] } in
    elim (Bool-cases (has omode o_trunc && (s.inode ip).type == t_file)) [
      | inl y ↦ simp y (ap (is_denied omode) (update_at-same s.inode ip x))
      | inr n ↦ simp n refl
    ]

Placed-Granted :
    (omode : ℕ) (s : Fs) (fs : List File) (ip : ℕ) (r : Result)
    → is_denied omode (s.inode ip) ≡ false
    → Placed omode s fs ip r
    → Granted omode r
Placed-Granted omode s fs ip (Result.opens fd os) ok (f, at, state) = (
  opened_file omode (s.inode ip) ip f,
  at,
  opened_file-Grants omode (s.inode ip) (os.fs.inode ip) ip f
      (ap (λ t. is_denied omode (t.inode ip)) state ∙ is_denied-truncated omode s ip ∙ ok),
)
Placed-Granted omode s fs ip (Result.fails os) ok h = tt
Placed-Granted omode s fs ip Result.panics ok h = tt
Placed-Granted omode s fs ip Result.endless ok h = tt

finish-Granted :
    (omode : ℕ) (os : Os) (o : Outcome) → Permits omode o → Granted omode (finish omode os o)
finish-Granted omode os Outcome.panic h = tt
finish-Granted omode os Outcome.out_of_fuel h = tt
finish-Granted omode os (Outcome.result none name m s) h = tt
finish-Granted omode os (Outcome.result (some ip) name m s) h =
    Placed-Granted omode s os.files ip (finish omode os (Outcome.result (some ip) name m s)) h
      (finish-Placed omode os ip name m s)

-- For every state, path and mode of opening without O_CREATE, if `sys_open` gives a descriptor, its file
-- is there. With O_NOACCESS it is neither readable nor writable. It is writable only where the inode
-- may be written and is no directory. With O_RDONLY alone or with O_RDWR it is readable only where the
-- inode may be read.
pub sys_open-Granted :
    (fuel : ℕ) (os : Os) (p omode : ℕ)
    → has omode o_create ≡ false
    → Granted omode (sys_open fuel os p omode)
unfolding sys_open locate
sys_open-Granted fuel os p omode h = simp h (
    finish-Granted omode os
      (permit omode (
        lock_target omode os.cwd
          (namex fuel (record { parent = false; follow = true; cwd = os.cwd }) os.fs os.memory p)))
      (permit-Permits omode (
        lock_target omode os.cwd
          (namex fuel (record { parent = false; follow = true; cwd = os.cwd }) os.fs os.memory p))))
