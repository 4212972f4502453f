-- ===== src/Fs/Walk.antt =====
-- `namex` of mp4/kernel/fs.c. Its loop and its recursion at symbolic links run on fuel: the loop needs
-- one round for each element, the recursion has no bound in the source, since `symlink_depth` starts
-- again at 0 in each call and is raised at most once in it, so that its test never fires.
pub mod Refs
pub mod Resolve
pub mod Ends
use spring_os_mp.Prelude.{
  ℕ, zero, suc, ◌+◌, ◌-◌, Bool, true, false, Option, some, none, List, [], ◌∷◌, ◌++◌, length, ◌==◌,
  not, ◌&&◌, if◌then◌else◌,
}
use spring_os_mp.Strings.Defs.{Memory}
use spring_os_mp.Fs.Defs.{Fs, Inode, iget, idup, ilock, iput, t_dir, t_symlink, root_ino, dirsiz}
use spring_os_mp.Fs.Dir.{Lookup, dirlookup, cstring}
use spring_os_mp.Fs.Path.{
  slash, skipelem, concat_path, concat_buf, target_buf, max_path, string_at, store_bytes,
}

-- The arguments of a call that stay the same, and the working directory of the process.
pub record Call : Type 0 where
  pub parent : Bool
  pub follow : Bool
  pub cwd : ℕ

-- The inode that is returned, if any, what is in the caller's `name`, and the state.
pub data Outcome : Type 0 where
  result : Option ℕ → List ℕ → Memory → Fs → Outcome
  panic : Outcome
  out_of_fuel : Outcome

abbrev pub is_nil : List ℕ → Bool
is_nil [] = true
is_nil (x ∷ xs) = false

-- The rest of the loop: from an inode, the path at an address, and the last name.
abbrev pub Next : Type 0
Next = Fs → Memory → ℕ → ℕ → List ℕ → Outcome

abbrev pub start : Call → Next → Fs → Memory → ℕ → List ℕ → Outcome
start c next s m p name =
    if m p == slash
    then next (iget s root_ino) m root_ino p name
    else next (idup s c.cwd) m c.cwd p name

-- From here on the branches of the loop's body, the last first. At a symbolic link, which is not the
-- last element, the walk starts again.
abbrev pub at_link : Call → Next → Memory → ℕ → ℕ → List ℕ → List ℕ → Option Fs → Outcome
at_link c next m i p name rest none = Outcome.panic
at_link c next m i p name rest (some s) =
    let target = cstring dirsiz (s.inode i).content in
    if (s.inode i).type == t_symlink && not (is_nil rest)
    then start c next (iput s i)
        (concat_path (store_bytes m target_buf (target ++ 0 ∷ [])) target_buf p) concat_buf name
    else next s m i p name

abbrev pub at_entry : Call → Next → Fs → Memory → ℕ → ℕ → List ℕ → List ℕ → Lookup → Outcome
at_entry c next s m ip p name rest Lookup.missing = Outcome.result none name m (iput s ip)
at_entry c next s m ip p name rest Lookup.broken = Outcome.panic
at_entry c next s m ip p name rest (Lookup.entry off i) =
    let s' = iput (iget s i) ip in
    if c.follow then at_link c next m i p name rest (ilock s' i) else next s' m i p name

abbrev pub at_dir : Call → Next → Memory → ℕ → ℕ → List ℕ → List ℕ → Option Fs → Outcome
at_dir c next m ip p name rest none = Outcome.panic
at_dir c next m ip p name rest (some s) =
    let x = s.inode ip in
    if not (x.type == t_dir)
    then Outcome.result none name m (iput s ip)
    else if not x.mode.read
    then Outcome.result none name m (iput s ip)
    else if c.parent && is_nil rest
    then Outcome.result (some ip) name m s
    else at_entry c next s m ip p name rest (dirlookup x.content name)

-- The body of the loop, after `skipelem` of a path of `len` bytes at `p`.
abbrev pub at_elem :
    Call → Next → Fs → Memory → ℕ → ℕ → ℕ → List ℕ → Option (List ℕ × List ℕ) → Outcome
at_elem c next s m ip p len name none =
    if c.parent then Outcome.result none name m (iput s ip) else Outcome.result (some ip) name m s
at_elem c next s m ip p len old (some (name, rest)) =
    at_dir c next m ip (p + (len - length rest)) name rest (ilock s ip)

unfoldable pub walk : ℕ → Call → Next
unfolding skipelem
walk zero c s m ip p name = Outcome.out_of_fuel
walk (suc k) c s m ip p name =
    let path = string_at m p max_path in
    at_elem c (walk k c) s m ip p (length path) name (skipelem path)

unfoldable pub namex : ℕ → Call → Fs → Memory → ℕ → Outcome
unfolding walk
namex fuel c s m p = start c (walk fuel c) s m p []
