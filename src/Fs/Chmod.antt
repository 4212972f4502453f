-- ===== src/Fs/Chmod.antt =====
-- `chmod_recursive` and `sys_chmod` of mp4/kernel/sysfile.c. A mode of the call is its two bits. The
-- recursion into directories runs on fuel; in a directory that is below itself the code waits for its
-- own lock.
pub mod Reach
pub mod Total
use spring_os_mp.Prelude.{
  ℕ, zero, suc, ◌+◌, Bool, true, false, Option, some, none, List, [], ◌∷◌, length, drop, ◌==◌, ltb,
  not, ◌&&◌, ◌||◌, if◌then◌else◌,
}
use spring_os_mp.Prelude.Int.{pos}
use spring_os_mp.Strings.Defs.{Memory}
use spring_os_mp.Fs.Defs.{Fs, Mode, iget, ilock, iput, put_inode, t_dir, t_symlink}
use spring_os_mp.Fs.Dir.{dirent_size, entry_inum, entry_name, same_name, rounds}
use spring_os_mp.Fs.Walk.{Outcome, namex}
use spring_os_mp.Fs.Link.{follow_symlink}
use spring_os_mp.Fs.Open.{Os}
use spring_os_mp.Fs.Calls.{Return, on_fs}

-- `|=` and `&= ~` of the mode of an inode.
abbrev pub change : Mode → Bool → Mode → Mode
change mode set x =
    if set
    then record { read = x.read || mode.read; write = x.write || mode.write }
    else record { read = x.read && not mode.read; write = x.write && not mode.write }

abbrev pub change_inode : Mode → Bool → Fs → ℕ → Fs
change_inode mode set s i =
    put_inode s i (record (s.inode i) { mode = change mode set (s.inode i).mode })

pub data Changed : Type 0 where
  changed : Fs → Changed
  panic : Changed
  out_of_fuel : Changed

abbrev pub then_put : ℕ → Changed → Changed
then_put i (Changed.changed s) = Changed.changed (iput s i)
then_put i Changed.panic = Changed.panic
then_put i Changed.out_of_fuel = Changed.out_of_fuel

-- The inode of an entry, once it is locked.
abbrev pub change_child : (Fs → ℕ → Changed) → Mode → Bool → ℕ → Option Fs → Changed
change_child again mode set i none = Changed.panic
change_child again mode set i (some s) =
    let s' = change_inode mode set s i in
    then_put i (if (s'.inode i).type == t_dir then again s' i else Changed.changed s')

-- An entry that the loop passes over: a part of one, an empty one, "." and "..".
abbrev pub is_passed : List ℕ → Bool
is_passed bs =
    ltb (length bs) dirent_size
    || entry_inum bs == 0
    || same_name (entry_name bs) (b'.' ∷ [])
    || same_name (entry_name bs) (b'.' ∷ b'.' ∷ [])

abbrev pub change_entry : (Fs → ℕ → Changed) → Mode → Bool → Fs → List ℕ → Changed
change_entry again mode set s bs =
    if is_passed bs
    then Changed.changed s
    else change_child again mode set (entry_inum bs)
        (ilock (iget s (entry_inum bs)) (entry_inum bs))

-- The loop over the entries of a directory, from an offset on.
unfoldable pub change_from : (Fs → ℕ → Changed) → Mode → Bool → ℕ → ℕ → ℕ → Changed → Changed
change_from again mode set dp zero off r = r
change_from again mode set dp (suc n) off Changed.panic = Changed.panic
change_from again mode set dp (suc n) off Changed.out_of_fuel = Changed.out_of_fuel
change_from again mode set dp (suc n) off (Changed.changed s) =
    change_from again mode set dp n (off + dirent_size)
      (change_entry again mode set s (drop off (s.inode dp).content))

unfoldable pub chmod_recursive : ℕ → Mode → Bool → Fs → ℕ → Changed
unfolding change_from
chmod_recursive zero mode set s dp = Changed.out_of_fuel
chmod_recursive (suc fuel) mode set s dp =
    change_from (chmod_recursive fuel mode set) mode set dp (rounds (s.inode dp).content) 0
      (Changed.changed s)

abbrev pub put_changed : Os → Memory → ℕ → Changed → Return
put_changed os m ip (Changed.changed s) = Return.answers (pos 0) (on_fs os m (iput s ip))
put_changed os m ip Changed.panic = Return.panics
put_changed os m ip Changed.out_of_fuel = Return.endless

abbrev pub change_all : ℕ → Mode → Bool → Bool → Os → Memory → Fs → ℕ → Return
change_all fuel mode recursive set os m s ip =
    let s' = change_inode mode set s ip in
    put_changed os m ip (
      if recursive && (s'.inode ip).type == t_dir
      then chmod_recursive fuel mode set s' ip
      else Changed.changed s')

-- After `follow_symlink`: where it answers none, `iunlockput` of a null pointer panics.
abbrev pub change_target : ℕ → Mode → Bool → Bool → Os → Outcome → Return
change_target fuel mode recursive set os Outcome.panic = Return.panics
change_target fuel mode recursive set os Outcome.out_of_fuel = Return.endless
change_target fuel mode recursive set os (Outcome.result none name m s) = Return.panics
change_target fuel mode recursive set os (Outcome.result (some ip) name m s) =
    if not (s.inode ip).mode.read && (s.inode ip).type == t_dir && recursive
    then Return.answers (pos 2) (on_fs os m (iput s ip))
    else change_all fuel mode recursive set os m s ip

abbrev pub change_found : ℕ → Mode → Bool → Bool → Os → Memory → ℕ → Option Fs → Return
change_found fuel mode recursive set os m ip none = Return.panics
change_found fuel mode recursive set os m ip (some s) =
    if (s.inode ip).type == t_symlink
    then change_target fuel mode recursive set os (follow_symlink 11 false os.cwd s m ip)
    else change_all fuel mode recursive set os m s ip

abbrev pub change_path : ℕ → Mode → Bool → Bool → Os → Outcome → Return
change_path fuel mode recursive set os Outcome.panic = Return.panics
change_path fuel mode recursive set os Outcome.out_of_fuel = Return.endless
change_path fuel mode recursive set os (Outcome.result none name m s) =
    Return.answers (pos 2) (on_fs os m s)
change_path fuel mode recursive set os (Outcome.result (some ip) name m s) =
    change_found fuel mode recursive set os m ip (ilock s ip)

-- `sys_chmod` of the path at an address, once the arguments are fetched.
unfoldable pub sys_chmod : ℕ → Os → ℕ → Mode → Bool → Bool → Return
unfolding namex chmod_recursive follow_symlink
sys_chmod fuel os p mode recursive set =
    change_path fuel mode recursive set os
      (namex fuel (record { parent = false; follow = true; cwd = os.cwd }) os.fs os.memory p)
