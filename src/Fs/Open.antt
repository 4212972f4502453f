-- ===== src/Fs/Open.antt =====
-- `sys_open` of mp4/kernel/sysfile.c, once its arguments are fetched. A mode of opening is the bit
-- pattern of its `int`. What `fileclose` would do to a pipe is left out: it is called for a file that was
-- free, which has none.
pub mod Placed
pub mod Access
pub mod Refs
use spring_os_mp.Prelude.{
  ℕ, zero, suc, ◌+◌, ◌*◌, ◌/◌, ◌%◌, Bool, true, false, Option, some, none, List, [], ◌∷◌, set,
  get_elem?, ◌==◌, leb, not, ◌&&◌, ◌||◌, if◌then◌else◌,
}
use spring_os_mp.Prelude.Int.{ℤ, pos, negsuc}
use spring_os_mp.Strings.Defs.{Memory}
use spring_os_mp.Files.Defs.{File, FileType, Closing, filealloc, fileclose}
use spring_os_mp.Fs.Defs.{Fs, Inode, ilock, iput, put_inode, t_dir, t_file, t_device, t_symlink}
use spring_os_mp.Fs.Walk.{Call, Outcome, namex}
use spring_os_mp.Fs.Link.{follow_symlink}
use spring_os_mp.Fs.Create.{create}

-- The file system, the kernel's memory, the table of open files, and of the process that calls the
-- files by descriptor and the working directory.
pub record Os : Type 0 where
  pub fs : Fs
  pub memory : Memory
  pub files : List File
  pub ofile : List (Option ℕ)
  pub cwd : ℕ

abbrev pub o_rdonly : ℕ
o_rdonly = 0

abbrev pub o_wronly : ℕ
o_wronly = 1

abbrev pub o_rdwr : ℕ
o_rdwr = 2

abbrev pub o_noaccess : ℕ
o_noaccess = 4

abbrev pub o_create : ℕ
o_create = 512

abbrev pub o_trunc : ℕ
o_trunc = 1024

-- `NDEV`
abbrev pub ndev : ℕ
ndev = 10

-- Whether a flag of one bit is set.
abbrev pub has : ℕ → ℕ → Bool
has omode flag = omode / flag % 2 == 1

abbrev pub past_fd : ℕ → Option (ℕ × List (Option ℕ)) → Option (ℕ × List (Option ℕ))
past_fd g none = none
past_fd g (some (fd, fds)) = some (suc fd, some g ∷ fds)

-- The first free descriptor takes the file.
unfoldable pub fdalloc : List (Option ℕ) → ℕ → Option (ℕ × List (Option ℕ))
fdalloc [] f = none
fdalloc (some g ∷ fds) f = past_fd g (fdalloc fds f)
fdalloc (none ∷ fds) f = some (0, some f ∷ fds)

-- The inode that is to be opened, once it is locked: a link is followed.
abbrev pub through : ℕ → ℕ → Memory → ℕ → Option Fs → Outcome
through omode cwd m ip none = Outcome.panic
through omode cwd m ip (some s) =
    if (s.inode ip).type == t_symlink && not (has omode o_noaccess)
    then follow_symlink 11 false cwd s m ip
    else Outcome.result (some ip) [] m s

-- The checks on an inode that exists.
abbrev pub is_denied : ℕ → Inode → Bool
is_denied omode x =
    x.type == t_dir && not (omode == o_rdonly) && not (omode == o_noaccess)
    || not (has omode o_noaccess)
      && ((has omode o_wronly || has omode o_rdwr) && not x.mode.write
          || (omode == o_rdonly || has omode o_rdwr) && not x.mode.read)

abbrev pub permit : ℕ → Outcome → Outcome
permit omode Outcome.panic = Outcome.panic
permit omode Outcome.out_of_fuel = Outcome.out_of_fuel
permit omode (Outcome.result none name m s) = Outcome.result none [] m s
permit omode (Outcome.result (some ip) name m s) =
    if is_denied omode (s.inode ip)
    then Outcome.result none [] m (iput s ip)
    else Outcome.result (some ip) [] m s

abbrev pub lock_target : ℕ → ℕ → Outcome → Outcome
lock_target omode cwd Outcome.panic = Outcome.panic
lock_target omode cwd Outcome.out_of_fuel = Outcome.out_of_fuel
lock_target omode cwd (Outcome.result none name m s) = Outcome.result none [] m s
lock_target omode cwd (Outcome.result (some ip) name m s) = through omode cwd m ip (ilock s ip)

-- `sys_open` up to where it has the inode, locked and allowed.
unfoldable pub locate : ℕ → Os → ℕ → ℕ → Outcome
unfolding create namex follow_symlink
locate fuel os p omode =
    if has omode o_create
    then create fuel os.cwd os.fs os.memory p t_file (pos 0)
    else permit omode (
        lock_target omode os.cwd
          (namex fuel (record { parent = false; follow = true; cwd = os.cwd }) os.fs os.memory p))

-- What a call returns, -1 as `fails`, and the state.
pub data Result : Type 0 where
  fails : Os → Result
  opens : ℕ → Os → Result
  panics : Result
  endless : Result

abbrev pub bad_major : ℤ → Bool
bad_major (pos n) = leb ndev n
bad_major (negsuc n) = true

-- A major number that is in range.
abbrev pub device_number : ℤ → ℕ
device_number (pos n) = n
device_number (negsuc n) = 0

abbrev pub on_closing : Closing → Fs → Fs
on_closing (Closing.puts_inode i) s = iput s i
on_closing (Closing.closes_pipe p w) s = s
on_closing Closing.nothing s = s

-- The file is closed where there is no descriptor for it.
abbrev pub no_descriptor : Os → ℕ → Option (List File × Closing) → Result
no_descriptor os ip none = Result.panics
no_descriptor os ip (some (files, closing)) =
    Result.fails (record os { files = files; fs = iput (on_closing closing os.fs) ip })

abbrev pub opened_file : ℕ → Inode → ℕ → File → File
opened_file omode x ip f = record f {
  type = if x.type == t_device then FileType.fd_device else FileType.fd_inode;
  major = if x.type == t_device then device_number x.major else f.major;
  off = if x.type == t_device then f.off else 0;
  ip = ip;
  readable = not (has omode o_noaccess) && not (has omode o_wronly);
  writable = not (has omode o_noaccess) && (has omode o_wronly || has omode o_rdwr);
}

abbrev pub at_file : (File → File) → List File → ℕ → Option File → List File
at_file change files i none = files
at_file change files i (some f) = set files i (change f)

-- `itrunc` where the mode of opening asks for it.
abbrev pub truncated : ℕ → Fs → ℕ → Fs
truncated omode s ip =
    if has omode o_trunc && (s.inode ip).type == t_file
    then put_inode s ip (record (s.inode ip) { content = [] })
    else s

abbrev pub with_descriptor : ℕ → Os → ℕ → ℕ → Option (ℕ × List (Option ℕ)) → Result
with_descriptor omode os ip i none = no_descriptor os ip (fileclose os.files i)
with_descriptor omode os ip i (some (fd, fds)) = Result.opens fd (record os {
  ofile = fds;
  files = at_file (opened_file omode (os.fs.inode ip) ip) os.files i (get_elem? os.files i);
  fs = truncated omode os.fs ip;
})

abbrev pub with_file : ℕ → Os → ℕ → Option (ℕ × List File) → Result
with_file omode os ip none = Result.fails (record os { fs = iput os.fs ip })
with_file omode os ip (some (i, files)) =
    with_descriptor omode (record os { files = files }) ip i (fdalloc os.ofile i)

abbrev pub finish : ℕ → Os → Outcome → Result
finish omode os Outcome.panic = Result.panics
finish omode os Outcome.out_of_fuel = Result.endless
finish omode os (Outcome.result none name m s) = Result.fails (record os { memory = m; fs = s })
finish omode os (Outcome.result (some ip) name m s) =
    let os' = record os { memory = m; fs = s } in
    if (s.inode ip).type == t_device && bad_major (s.inode ip).major
    then Result.fails (record os' { fs = iput s ip })
    else with_file omode os' ip (filealloc os.files)

unfoldable pub sys_open : ℕ → Os → ℕ → ℕ → Result
unfolding locate fdalloc filealloc fileclose
sys_open fuel os p omode = finish omode os (locate fuel os p omode)
