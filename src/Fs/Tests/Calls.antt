-- ===== src/Fs/Tests/Calls.antt =====
-- Calls on the small tree.
use spring_os_mp.Prelude.{
  ℕ, zero, suc, Bool, true, false, Option, some, none, [], ◌∷◌, ◌≡◌, refl, ap, sym, subst, arith,
}
use spring_os_mp.Prelude.Int.{pos, negsuc, ℤ}
use spring_os_mp.Prelude.Maps.{update_at}
use spring_os_mp.Strings.Defs.{Memory}
use spring_os_mp.Files.Defs.{File, FileType, filealloc}
use spring_os_mp.Fs.Defs.{Fs, Mode, iget, idup, ilock, iput, m_all}
use spring_os_mp.Fs.Dir.{dirlookup, lookup_from, dirlink, empty_from}
use spring_os_mp.Fs.Path.{skipelem, skip_slashes, split_elem}
use spring_os_mp.Fs.Counts.{Counts}
use spring_os_mp.Fs.Walk.{walk, namex}
use spring_os_mp.Fs.Link.{plain_call}
use spring_os_mp.Fs.Create.{create, ialloc, first_free}
use spring_os_mp.Fs.Open.{Os, Result, fdalloc, locate, sys_open}
use spring_os_mp.Fs.Open.Placed.{file_of, FreeAreNone}
use spring_os_mp.Fs.Open.Access.{Granted, sys_open-Granted}
use spring_os_mp.Fs.Open.Refs.{Held, sys_open-Held}
use spring_os_mp.Fs.Calls.{Return, sys_mkdir, sys_mknod, sys_chdir, sys_symlink}
use spring_os_mp.Fs.Calls.Refs.{Leaves, Leaks, HoldsCwd, sys_chdir-HoldsCwd, sys_symlink-Leaks}
use spring_os_mp.Fs.Chmod.{chmod_recursive, change_from, Changed}
use spring_os_mp.Fs.Names.{sys_link, sys_unlink, isdirempty, all_free}
use spring_os_mp.Fs.Names.Refs.{Keeps, sys_unlink-Keeps}
use spring_os_mp.Fs.Tests.{tree, cwd_only, holding, path_in, d_f, holding-Small}
use spring_os_mp.Prelude.{ap}
use spring_os_mp.Prelude.{sym}
use spring_os_mp.Prelude.{subst}
use spring_os_mp.Prelude.{◌^◌}
use spring_os_mp.Prelude.{◌++◌}
use spring_os_mp.Prelude.{replicate}
use spring_os_mp.Prelude.{if◌then◌else◌}
use spring_os_mp.Prelude.{List}
use spring_os_mp.Fs.Dir.{dirent_bytes}
use spring_os_mp.Prelude.{◌==◌}
use spring_os_mp.Prelude.{◌<◌}

abbrev unused : File
unused = record {
  type = FileType.fd_none;
  ref = 0;
  readable = false;
  writable = false;
  pipe = 0;
  ip = 0;
  off = 0;
  major = 0;
}

abbrev process : Fs → Memory → Os
process s m = record {
  fs = s;
  memory = m;
  files = unused ∷ unused ∷ [];
  ofile = none ∷ none ∷ [];
  cwd = 1;
}

abbrev type_in : Option File → FileType
type_in none = FileType.fd_none
type_in (some f) = f.type

process-FreeAreNone : FreeAreNone (unused ∷ unused ∷ [])
process-FreeAreNone zero f at free = ap type_in (sym at)
process-FreeAreNone (suc zero) f at free = ap type_in (sym at)
process-FreeAreNone (suc (suc i)) f at free = cc

abbrev plain : Os
plain = process (holding cwd_only) d_f

sys_open-Granted_example : Granted 2 (sys_open 20 plain 1024 2)
sys_open-Granted_example = sys_open-Granted 20 plain 1024 2 refl

sys_open-Held_example : Held cwd_only (sys_open 20 plain 1024 2)
sys_open-Held_example = sys_open-Held 20 plain 1024 2 holding-Small process-FreeAreNone

abbrev both : Option File → Option (Bool × Bool)
both none = none
both (some f) = some (f.readable, f.writable)

-- Whether a file is opened for reading and writing.
abbrev ways : Result → Option (Option (Bool × Bool))
ways (Result.opens fd os) = some (both (file_of os fd))
ways (Result.fails os) = some none
ways Result.panics = none
ways Result.endless = none

-- The file /d/f may be neither read nor written.
abbrev closed : Fs
closed = record (holding cwd_only) {
  inode = update_at tree 3 (record (tree 3) { mode = record { read = false; write = false } });
}

denied : ways (sys_open 20 (process closed d_f) 1024 2) ≡ some none
unfolding sys_open locate namex walk skipelem skip_slashes split_elem dirlookup lookup_from iget
    idup ilock iput
denied = refl

-- With O_TRUNC it is opened for reading.
truncating : ways (sys_open 20 (process closed d_f) 1024 1024) ≡ some (some (true, false))
unfolding sys_open locate namex walk skipelem skip_slashes split_elem dirlookup lookup_from iget
    idup ilock iput filealloc fdalloc
truncating = refl

-- With O_CREATE it is opened for both.
creating : ways (sys_open 20 (process closed d_f) 1024 514) ≡ some (some (true, true))
unfolding sys_open locate create namex walk skipelem skip_slashes split_elem dirlookup lookup_from
    iget idup ilock iput filealloc fdalloc
creating = refl

sys_chdir-HoldsCwd_example :
    Leaves (HoldsCwd (λ j. 0)) (sys_chdir 20 (process (holding cwd_only) (path_in (100 ∷ []))) 1024)
sys_chdir-HoldsCwd_example =
    sys_chdir-HoldsCwd (λ j. 0) 20 (process (holding cwd_only) (path_in (100 ∷ []))) 1024
      (λ j. omega arith) (λ j. omega arith)

sys_symlink-Leaks_example :
    Leaves (λ x. Counts x.fs cwd_only) (sys_mkdir 20 plain 1024)
    × Leaves (λ x. Counts x.fs cwd_only) (sys_mknod 20 plain 1024 (pos 1))
    × Leaks cwd_only
        (namex 20 (plain_call 1) (holding cwd_only) d_f 1024)
        (sys_symlink 20 plain (108 ∷ []) 1024)
sys_symlink-Leaks_example = sys_symlink-Leaks 20 plain (108 ∷ []) 1024 (pos 1) holding-Small

abbrev answer : Return → ℕ → Option (ℤ × ℕ)
answer (Return.answers v os) i = some (v, (os.fs.entry i).ref)
answer Return.panics i = none
answer Return.endless i = none

-- One reference to /d/f is left.
leaks : answer (sys_symlink 20 plain (108 ∷ []) 1024) 3 ≡ some (negsuc 0, 1)
unfolding sys_symlink namex walk skipelem skip_slashes split_elem dirlookup lookup_from iget idup
    ilock iput
leaks = refl

made :
    answer (sys_mkdir 20 (process (holding cwd_only) (path_in (97 ∷ []))) 1024) 6 ≡ some (pos 0, 0)
unfolding sys_mkdir create ialloc first_free namex walk skipelem skip_slashes split_elem dirlookup
    lookup_from dirlink empty_from iget idup ilock iput
made = refl

abbrev only_read : Mode
only_read = record { read = false; write = true }

abbrev modes : Changed → Option (Mode × Mode)
modes (Changed.changed s) = some ((s.inode 1).mode, (s.inode 3).mode)
modes Changed.panic = none
modes Changed.out_of_fuel = none

-- `chmod -w` of the root leaves the root itself alone.
changed_below :
    modes (chmod_recursive 3 only_read false (holding cwd_only) 1)
    ≡ some (m_all, record { read = true; write = false })
unfolding chmod_recursive change_from iget ilock iput
changed_below = refl

sys_unlink-Keeps_example :
    Keeps cwd_only (sys_link 20 plain 1024 1024) × Keeps cwd_only (sys_unlink 20 plain 1024)
sys_unlink-Keeps_example = sys_unlink-Keeps 20 plain 1024 1024 1024 few
  where
    few : (j : ℕ) → (if j == 1 then 1 else 0) < 2 ^ 28
    few j = ground arith

abbrev left : Return → List ℕ
left (Return.answers v os) = (os.fs.inode 2).content ++ (os.fs.inode 3).type ∷ []
left Return.panics = []
left Return.endless = []

-- The last link of /d/f is removed, and the file is freed.
removed : left (sys_unlink 20 plain 1024) ≡ replicate 16 0 ++ 0 ∷ []
unfolding sys_unlink namex walk skipelem skip_slashes split_elem dirlookup lookup_from iget idup
    ilock iput
removed = refl

-- The first two entries are taken for "." and "..".
in_use : isdirempty (replicate 32 0 ++ dirent_bytes (102 ∷ []) 3) ≡ some false
unfolding isdirempty all_free
in_use = refl
