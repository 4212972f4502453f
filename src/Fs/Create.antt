-- ===== src/Fs/Create.antt =====
-- `ialloc` of mp4/kernel/fs.c and `create` of mp4/kernel/sysfile.c. The panic of `balloc` on a full disk
-- is left out.
pub mod Refs
use spring_os_mp.Prelude.{
  ℕ, zero, suc, ◌+◌, ◌-◌, Bool, true, false, Option, some, none, List, [], ◌∷◌, ◌==◌, not, ◌&&◌,
  ◌||◌, if◌then◌else◌,
}
use spring_os_mp.Prelude.Int.{ℤ, pos}
use spring_os_mp.Strings.Defs.{Memory}
use spring_os_mp.Fs.Defs.{
  Fs, Inode, iget, ilock, iput, put_inode, m_all, t_dir, t_file, t_device, t_symlink,
}
use spring_os_mp.Fs.Dir.{Lookup, dirlookup, dirlink}
use spring_os_mp.Fs.Walk.{Call, Outcome, namex}
use spring_os_mp.Fs.Defs.{short_mod}
use spring_os_mp.Prelude.{◌%◌}

-- The loop of `ialloc` from an inode number on, with the rounds left.
unfoldable pub first_free : (ℕ → Inode) → ℕ → ℕ → Option ℕ
first_free t i zero = none
first_free t i (suc n) =
    let rest = first_free t (i + 1) n in if (t i).type == 0 then some i else rest

abbrev pub claim : Fs → ℕ → Option ℕ → Option (ℕ × Fs)
claim s type none = none
claim s type (some i) = some (
  i,
  iget
      (put_inode s i (record { type = type; major = pos 0; mode = m_all; nlink = 0; content = [] }))
      i,
)

-- `ialloc`, with `none` for its panic.
unfoldable pub ialloc : Fs → ℕ → Option (ℕ × Fs)
unfolding first_free
ialloc s type = claim s type (first_free s.inode 1 (s.ninodes - 1))

-- `dirlink` where `create` calls it, which panics where it fails.
abbrev pub with_content : Fs → ℕ → Option (Option (List ℕ)) → Option Fs
with_content s d none = none
with_content s d (some none) = none
with_content s d (some (some content)) =
    some (put_inode s d (record (s.inode d) { content = content }))

abbrev pub link_in : Fs → ℕ → List ℕ → ℕ → Option Fs
link_in s d name i = with_content s d (dirlink (s.stores d) (s.inode d).content name i)

abbrev pub then_link : Option Fs → ℕ → List ℕ → ℕ → Option Fs
then_link none d name i = none
then_link (some s) d name i = link_in s d name i

-- "." and ".." in a new directory, and the link from ".." to the parent.
abbrev pub dots : Fs → ℕ → ℕ → Option Fs
dots s dp i =
    let s' =
      put_inode s dp (record (s.inode dp) { nlink = ((s.inode dp).nlink + 1) % short_mod }) in
    then_link (link_in s' i (b'.' ∷ []) i) i (b'.' ∷ b'.' ∷ []) dp

abbrev pub created : Memory → ℕ → ℕ → Option Fs → Outcome
created m dp i none = Outcome.panic
created m dp i (some s) = Outcome.result (some i) [] m (iput s dp)

-- A new inode, once it is locked.
abbrev pub fill_new : ℕ → ℤ → Memory → ℕ → List ℕ → ℕ → Option Fs → Outcome
fill_new type major m dp name i none = Outcome.panic
fill_new type major m dp name i (some s) =
    let s' = put_inode s i (record (s.inode i) { major = major; nlink = 1; mode = m_all }) in
    let s'' = if type == t_dir then dots s' dp i else some s' in
    created m dp i (then_link s'' dp name i)

abbrev pub make_new : ℕ → ℤ → Memory → ℕ → List ℕ → Option (ℕ × Fs) → Outcome
make_new type major m dp name none = Outcome.panic
make_new type major m dp name (some (i, s)) = fill_new type major m dp name i (ilock s i)

-- The inode that has the name already, once it is locked.
abbrev pub take_old : ℕ → Memory → ℕ → Option Fs → Outcome
take_old type m i none = Outcome.panic
take_old type m i (some s) =
    let x = s.inode i in
    if type == t_file && (x.type == t_file || x.type == t_device)
    then Outcome.result (some i) [] m s
    else Outcome.result none [] m (iput s i)

abbrev pub by_name : ℕ → ℤ → Fs → Memory → ℕ → List ℕ → Lookup → Outcome
by_name type major s m dp name Lookup.broken = Outcome.panic
by_name type major s m dp name (Lookup.entry off i) =
    let s' = iput (iget s i) dp in take_old type m i (ilock s' i)
by_name type major s m dp name Lookup.missing = make_new type major m dp name (ialloc s type)

abbrev pub at_parent : ℕ → ℤ → Memory → ℕ → List ℕ → Option Fs → Outcome
at_parent type major m dp name none = Outcome.panic
at_parent type major m dp name (some s) =
    if not ((s.inode dp).type == t_dir)
    then Outcome.panic
    else by_name type major s m dp name (dirlookup (s.inode dp).content name)

abbrev pub in_parent : ℕ → ℤ → Outcome → Outcome
in_parent type major Outcome.panic = Outcome.panic
in_parent type major Outcome.out_of_fuel = Outcome.out_of_fuel
in_parent type major (Outcome.result none name m s) = Outcome.result none [] m s
in_parent type major (Outcome.result (some dp) name m s) =
    at_parent type major m dp name (ilock s dp)

abbrev pub parent_call : ℕ → Call
parent_call cwd = record { parent = true; follow = false; cwd = cwd }

-- `create` of the path at an address. The inode is returned locked.
unfoldable pub create : ℕ → ℕ → Fs → Memory → ℕ → ℕ → ℤ → Outcome
unfolding ialloc
create fuel cwd s m p type major = in_parent type major (namex fuel (parent_call cwd) s m p)
