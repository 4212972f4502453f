-- ===== src/Files/Defs.antt =====
-- `struct file` and the operations on its reference count in mp4/kernel/file.c. The table is the list
-- of its files, and a pointer to a file its index. What `fileclose` does to the pipe or the inode once
-- the file is free is its answer. `none` is a panic, or an index outside the table.
use spring_os_mp.Prelude.{
  ℕ, suc, ◌+◌, ◌-◌, Bool, Option, some, none, List, [], ◌∷◌, get_elem?, set, ◌==◌, ltb,
  if◌then◌else◌,
}

pub data FileType : Type 0 where
  fd_none : FileType
  fd_pipe : FileType
  fd_inode : FileType
  fd_device : FileType

-- The pipe and the inode are named by numbers.
pub record File : Type 0 where
  pub type : FileType
  pub ref : ℕ
  pub readable : Bool
  pub writable : Bool
  pub pipe : ℕ
  pub ip : ℕ
  pub off : ℕ
  pub major : ℕ

abbrev pub past : File → Option (ℕ × List File) → Option (ℕ × List File)
past f none = none
past f (some (i, fs)) = some (suc i, f ∷ fs)

unfoldable pub filealloc : List File → Option (ℕ × List File)
filealloc [] = none
filealloc (f ∷ fs) =
    let rest = filealloc fs in
    if f.ref == 0 then some (0, record f { ref = 1 } ∷ fs) else past f rest

abbrev pub dup_at : List File → ℕ → Option File → Option (List File)
dup_at fs i none = none
dup_at fs i (some f) = if ltb f.ref 1 then none else some (set fs i (record f { ref = f.ref + 1 }))

unfoldable pub filedup : List File → ℕ → Option (List File)
filedup fs i = dup_at fs i (get_elem? fs i)

-- What is left for `fileclose` to do when the table is unlocked.
pub data Closing : Type 0 where
  nothing : Closing
  closes_pipe : ℕ → Bool → Closing
  puts_inode : ℕ → Closing

abbrev pub closing : FileType → File → Closing
closing FileType.fd_pipe f = Closing.closes_pipe f.pipe f.writable
closing FileType.fd_inode f = Closing.puts_inode f.ip
closing FileType.fd_device f = Closing.puts_inode f.ip
closing FileType.fd_none f = Closing.nothing

abbrev pub close_at : List File → ℕ → Option File → Option (List File × Closing)
close_at fs i none = none
close_at fs i (some f) =
    if ltb f.ref 1
    then none
    else if ltb 0 (f.ref - 1)
    then some (set fs i (record f { ref = f.ref - 1 }), Closing.nothing)
    else some (set fs i (record f { ref = 0; type = FileType.fd_none }), closing f.type f)

unfoldable pub fileclose : List File → ℕ → Option (List File × Closing)
fileclose fs i = close_at fs i (get_elem? fs i)
