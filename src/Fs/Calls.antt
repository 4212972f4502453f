-- ===== src/Fs/Calls.antt =====
-- The system calls of mp4/kernel/sysfile.c that make files and directories, once their arguments are
-- fetched.
pub mod Refs
use spring_os_mp.Prelude.{ℕ, Option, some, none, List, ◌==◌, not, if◌then◌else◌}
use spring_os_mp.Prelude.Int.{ℤ, pos, negsuc}
use spring_os_mp.Strings.Defs.{Memory}
use spring_os_mp.Fs.Defs.{Fs, ilock, iput, put_inode, t_dir, t_device, t_symlink}
use spring_os_mp.Fs.Dir.{overwrite}
use spring_os_mp.Fs.Walk.{Outcome, namex}
use spring_os_mp.Fs.Link.{plain_call}
use spring_os_mp.Fs.Create.{create}
use spring_os_mp.Fs.Open.{Os}

-- What a call returns, and the state.
pub data Return : Type 0 where
  answers : ℤ → Os → Return
  panics : Return
  endless : Return

abbrev pub minus_one : ℤ
minus_one = negsuc 0

abbrev pub on_fs : Os → Memory → Fs → Os
on_fs os m s = record os { memory = m; fs = s }

-- The end of a call that has made an inode and does not keep it.
abbrev pub put_made : Os → Outcome → Return
put_made os Outcome.panic = Return.panics
put_made os Outcome.out_of_fuel = Return.endless
put_made os (Outcome.result none name m s) = Return.answers minus_one (on_fs os m s)
put_made os (Outcome.result (some ip) name m s) = Return.answers (pos 0) (on_fs os m (iput s ip))

unfoldable pub sys_mkdir : ℕ → Os → ℕ → Return
unfolding create
sys_mkdir fuel os p = put_made os (create fuel os.cwd os.fs os.memory p t_dir (pos 0))

-- The major number is the `short` that `create` takes.
unfoldable pub sys_mknod : ℕ → Os → ℕ → ℤ → Return
unfolding create
sys_mknod fuel os p major = put_made os (create fuel os.cwd os.fs os.memory p t_device major)

abbrev pub enter : Os → Memory → ℕ → Option Fs → Return
enter os m ip none = Return.panics
enter os m ip (some s) =
    if not ((s.inode ip).type == t_dir)
    then Return.answers minus_one (on_fs os m (iput s ip))
    else Return.answers (pos 0) (record os { memory = m; fs = iput s os.cwd; cwd = ip })

abbrev pub change_dir : Os → Outcome → Return
change_dir os Outcome.panic = Return.panics
change_dir os Outcome.out_of_fuel = Return.endless
change_dir os (Outcome.result none name m s) = Return.answers minus_one (on_fs os m s)
change_dir os (Outcome.result (some ip) name m s) = enter os m ip (ilock s ip)

unfoldable pub sys_chdir : ℕ → Os → ℕ → Return
unfolding namex
sys_chdir fuel os p = change_dir os (namex fuel (plain_call os.cwd) os.fs os.memory p)

-- The write of the target into a new link.
abbrev pub write_target : List ℕ → Outcome → Outcome
write_target target Outcome.panic = Outcome.panic
write_target target Outcome.out_of_fuel = Outcome.out_of_fuel
write_target target (Outcome.result none name m s) = Outcome.result none name m s
write_target target (Outcome.result (some ip) name m s) =
    Outcome.result (some ip) name m
      (put_inode s ip (record (s.inode ip) { content = overwrite (s.inode ip).content 0 target }))

-- Where `namei` finds the path, `sys_symlink` does not put what it found.
abbrev pub make_link : ℕ → Os → ℕ → List ℕ → Outcome → Return
make_link fuel os p target Outcome.panic = Return.panics
make_link fuel os p target Outcome.out_of_fuel = Return.endless
make_link fuel os p target (Outcome.result (some ip) name m s) =
    Return.answers minus_one (on_fs os m s)
make_link fuel os p target (Outcome.result none name m s) =
    put_made os (write_target target (create fuel os.cwd s m p t_symlink (pos 0)))

-- `sys_symlink` of a path that stands at an address, with the bytes of the target.
unfoldable pub sys_symlink : ℕ → Os → List ℕ → ℕ → Return
unfolding namex
sys_symlink fuel os target p =
    make_link fuel os p target (namex fuel (plain_call os.cwd) os.fs os.memory p)
