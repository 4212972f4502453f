-- ===== src/Fs/Names.antt =====
-- `sys_link`, `isdirempty` and `sys_unlink` of mp4/kernel/sysfile.c, once their arguments are fetched.
pub mod Refs
use spring_os_mp.Prelude.{
  ℕ, zero, suc, ◌+◌, ◌-◌, ◌%◌, ◌^◌, Bool, true, false, Option, some, none, List, [], ◌∷◌, length,
  drop, replicate, ◌==◌, ltb, leb, not, ◌&&◌, ◌||◌, if◌then◌else◌,
}
use spring_os_mp.Prelude.Int.{ℤ, pos}
use spring_os_mp.Strings.Defs.{Memory}
use spring_os_mp.Fs.Defs.{Fs, Inode, iget, ilock, iput, put_inode, t_dir, short_mod}
use spring_os_mp.Fs.Dir.{
  Lookup, dirent_size, dirlookup, dirlink, cstring, same_name, entry_inum, overwrite, rounds,
}
use spring_os_mp.Fs.Defs.{dirsiz}
use spring_os_mp.Fs.Walk.{Call, Outcome, namex}
use spring_os_mp.Fs.Link.{plain_call}
use spring_os_mp.Fs.Create.{parent_call}
use spring_os_mp.Fs.Open.{Os}
use spring_os_mp.Fs.Calls.{Return, on_fs, minus_one}
use spring_os_mp.Prelude.{◌*◌}

-- `nlink++` and `nlink--`.
abbrev pub more_links : Fs → ℕ → Fs
more_links s i = put_inode s i (record (s.inode i) { nlink = ((s.inode i).nlink + 1) % short_mod })

abbrev pub fewer_links : Fs → ℕ → Fs
fewer_links s i =
    put_inode s i (record (s.inode i) { nlink = ((s.inode i).nlink + short_mod - 1) % short_mod })

-- The end of `sys_link` at its label `bad`.
abbrev pub unlink_back : Os → Memory → ℕ → Option Fs → Return
unlink_back os m ip none = Return.panics
unlink_back os m ip (some s) = Return.answers minus_one (on_fs os m (iput (fewer_links s ip) ip))

-- The entry in the parent, by what `dirlink` does. Its `iget` and `iput` of an inode that has the name
-- cancel.
abbrev pub name_entry : Os → Memory → ℕ → ℕ → Fs → Option (Option (List ℕ)) → Return
name_entry os m ip dp s none = Return.panics
name_entry os m ip dp s (some none) = let s' = iput s dp in unlink_back os m ip (ilock s' ip)
name_entry os m ip dp s (some (some content)) =
    let s' = put_inode s dp (record (s.inode dp) { content = content }) in
    Return.answers (pos 0) (on_fs os m (iput (iput s' dp) ip))

abbrev pub name_in : Os → Memory → ℕ → ℕ → List ℕ → Option Fs → Return
name_in os m ip dp name none = Return.panics
name_in os m ip dp name (some s) =
    if not ((s.inode dp).type == t_dir)
    then Return.panics
    else name_entry os m ip dp s (dirlink (s.stores dp) (s.inode dp).content name ip)

abbrev pub name_parent : Os → ℕ → Outcome → Return
name_parent os ip Outcome.panic = Return.panics
name_parent os ip Outcome.out_of_fuel = Return.endless
name_parent os ip (Outcome.result none name m s) = unlink_back os m ip (ilock s ip)
name_parent os ip (Outcome.result (some dp) name m s) = name_in os m ip dp name (ilock s dp)

abbrev pub link_old : ℕ → Os → ℕ → Memory → ℕ → Option Fs → Return
link_old fuel os new m ip none = Return.panics
link_old fuel os new m ip (some s) =
    if (s.inode ip).type == t_dir
    then Return.answers minus_one (on_fs os m (iput s ip))
    else name_parent os ip (namex fuel (parent_call os.cwd) (more_links s ip) m new)

abbrev pub link_found : ℕ → Os → ℕ → Outcome → Return
link_found fuel os new Outcome.panic = Return.panics
link_found fuel os new Outcome.out_of_fuel = Return.endless
link_found fuel os new (Outcome.result none name m s) = Return.answers minus_one (on_fs os m s)
link_found fuel os new (Outcome.result (some ip) name m s) = link_old fuel os new m ip (ilock s ip)

-- `sys_link` of two paths at addresses. The device is the same for all inodes.
unfoldable pub sys_link : ℕ → Os → ℕ → ℕ → Return
unfolding namex
sys_link fuel os old new =
    link_found fuel os new (namex fuel (plain_call os.cwd) os.fs os.memory old)

-- The loop of `isdirempty`, with the rounds left; `none` is its panic.
unfoldable pub all_free : ℕ → List ℕ → Option Bool
all_free zero bs = some true
all_free (suc n) bs =
    let rest = all_free n (drop dirent_size bs) in
    if ltb (length bs) dirent_size
    then none
    else if not (entry_inum bs == 0)
    then some false
    else rest

unfoldable pub isdirempty : List ℕ → Option Bool
unfolding all_free
isdirempty content = let bs = drop (2 * dirent_size) content in all_free (rounds bs) bs

-- The end of `sys_unlink` at its label `bad`.
abbrev pub not_removed : Os → Memory → Fs → ℕ → Return
not_removed os m s dp = Return.answers minus_one (on_fs os m (iput s dp))

abbrev pub remove : Os → Memory → Fs → ℕ → ℕ → ℕ → Return
remove os m s dp off ip =
    let is_dir = (s.inode ip).type == t_dir in
    let s1 = put_inode s dp (record (s.inode dp) {
      content = overwrite (s.inode dp).content off (replicate dirent_size 0);
    }) in
    let s2 = if is_dir then fewer_links s1 dp else s1 in
    Return.answers (pos 0) (on_fs os m (iput (fewer_links (iput s2 dp) ip) ip))

-- What is done by what `isdirempty` of a directory answers.
abbrev pub remove_if : Os → Memory → Fs → ℕ → ℕ → ℕ → Option Bool → Return
remove_if os m s dp off ip none = Return.panics
remove_if os m s dp off ip (some true) = remove os m s dp off ip
remove_if os m s dp off ip (some false) = not_removed os m (iput s ip) dp

abbrev pub remove_entry : Os → Memory → ℕ → ℕ → ℕ → Option Fs → Return
remove_entry os m dp off ip none = Return.panics
remove_entry os m dp off ip (some s) =
    let x = s.inode ip in
    if x.nlink == 0 || leb (2 ^ 15) x.nlink
    then Return.panics
    else remove_if os m s dp off ip (if x.type == t_dir then isdirempty x.content else some true)

abbrev pub remove_found : Os → Memory → Fs → ℕ → Lookup → Return
remove_found os m s dp Lookup.broken = Return.panics
remove_found os m s dp Lookup.missing = not_removed os m s dp
remove_found os m s dp (Lookup.entry off i) = remove_entry os m dp off i (ilock (iget s i) i)

abbrev pub is_dots : List ℕ → Bool
is_dots name =
    let n = cstring dirsiz name in same_name n (b'.' ∷ []) || same_name n (b'.' ∷ b'.' ∷ [])

abbrev pub remove_in : Os → Memory → ℕ → List ℕ → Option Fs → Return
remove_in os m dp name none = Return.panics
remove_in os m dp name (some s) =
    if is_dots name
    then not_removed os m s dp
    else if not ((s.inode dp).type == t_dir)
    then Return.panics
    else remove_found os m s dp (dirlookup (s.inode dp).content name)

abbrev pub remove_path : Os → Outcome → Return
remove_path os Outcome.panic = Return.panics
remove_path os Outcome.out_of_fuel = Return.endless
remove_path os (Outcome.result none name m s) = Return.answers minus_one (on_fs os m s)
remove_path os (Outcome.result (some dp) name m s) = remove_in os m dp name (ilock s dp)

unfoldable pub sys_unlink : ℕ → Os → ℕ → Return
unfolding namex isdirempty
sys_unlink fuel os p = remove_path os (namex fuel (parent_call os.cwd) os.fs os.memory p)
