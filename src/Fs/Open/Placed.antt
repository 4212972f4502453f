-- ===== src/Fs/Open/Placed.antt =====
-- Where `sys_open` of mp4/kernel/sysfile.c puts the file that it opens.
use spring_os_mp.Prelude.{
  ℕ, zero, suc, ◌≡◌, refl, ap, ◌∙◌, true, Option, some, none, List, [], ◌∷◌, set, get_elem?, ◌==◌,
  ◌&&◌, inl, inr, Bool-cases,
}
use spring_os_mp.Strings.Defs.{Memory}
use spring_os_mp.Files.Defs.{File, FileType, Closing, filealloc, fileclose}
use spring_os_mp.Files.Refs.{Allocated, filealloc-Allocated}
use spring_os_mp.Fs.Defs.{Fs, iput, t_device}
use spring_os_mp.Fs.Walk.{Outcome}
use spring_os_mp.Fs.Open.{
  Os, Result, fdalloc, past_fd, opened_file, finish, truncated, with_descriptor, with_file, at_file,
  no_descriptor, bad_major, on_closing,
}

abbrev pub at_index : List File → Option (Option ℕ) → Option File
at_index files none = none
at_index files (some none) = none
at_index files (some (some i)) = get_elem? files i

-- The file of a descriptor.
abbrev pub file_of : Os → ℕ → Option File
file_of os fd = at_index os.files (get_elem? os.ofile fd)

-- The new descriptor is that of the file.
abbrev Given : ℕ → Option (ℕ × List (Option ℕ)) → Type 0
Given i none = Unit
Given i (some (fd, fds)) = get_elem? fds fd ≡ some (some i)

past_fd-Given : (i g : ℕ) (r : Option (ℕ × List (Option ℕ))) → Given i r → Given i (past_fd g r)
past_fd-Given i g none h = tt
past_fd-Given i g (some (fd, fds)) h = h

fdalloc-Given : (fds : List (Option ℕ)) (i : ℕ) → Given i (fdalloc fds i)
unfolding fdalloc
fdalloc-Given [] i = tt
fdalloc-Given (some g ∷ fds) i = past_fd-Given i g (fdalloc fds i) (fdalloc-Given fds i)
fdalloc-Given (none ∷ fds) i = refl

set-there :
    (fs : List File) (i : ℕ) (f g : File)
    → get_elem? fs i ≡ some f
    → get_elem? (set fs i g) i ≡ some g
set-there [] i f g h = cc
set-there (x ∷ fs) zero f g h = refl
set-there (x ∷ fs) (suc i) f g h = set-there fs i f g h

-- A file that is not in use has no type.
abbrev pub FreeAreNone : List File → Type 0
FreeAreNone fs =
    (i : ℕ) (f : File) → get_elem? fs i ≡ some f → (f.ref == 0) ≡ true → f.type ≡ FileType.fd_none

-- What is left of an open of the inode `ip` in the state `s` with the table `fs`: the descriptor of a
-- file that is set up for it, or a state with its reference put.
abbrev pub Placed : ℕ → Fs → List File → ℕ → Result → Type 0
Placed omode s fs ip (Result.opens fd os) =
    (f : File) × (file_of os fd ≡ some (opened_file omode (s.inode ip) ip f))
    × (os.fs ≡ truncated omode s ip)
Placed omode s fs ip (Result.fails os) = FreeAreNone fs → os.fs ≡ iput s ip
Placed omode s fs ip Result.panics = Unit
Placed omode s fs ip Result.endless = Unit

-- A file of no type with one reference closes nothing.
abbrev ClosesNothing : Option (List File × Closing) → Type 0
ClosesNothing none = Unit
ClosesNothing (some (fs, c)) = c ≡ Closing.nothing

fileclose-nothing :
    (fs : List File) (i : ℕ) (f : File)
    → get_elem? fs i ≡ some f
    → f.ref ≡ 1
    → f.type ≡ FileType.fd_none
    → ClosesNothing (fileclose fs i)
unfolding fileclose
fileclose-nothing fs i f at one none_type = simp at (simp one (simp none_type refl))

no_descriptor-Placed :
    (omode : ℕ) (os : Os) (fs : List File) (ip : ℕ) (r : Option (List File × Closing))
    → (FreeAreNone fs → ClosesNothing r)
    → Placed omode os.fs fs ip (no_descriptor os ip r)
no_descriptor-Placed omode os fs ip none h = tt
no_descriptor-Placed omode os fs ip (some (files, closing)) h =
    λ free. ap (λ c. iput (on_closing c os.fs) ip) (h free)

with_descriptor-Placed :
    (omode : ℕ) (os : Os) (fs : List File) (ip i : ℕ) (f : File) (r : Option (ℕ × List (Option ℕ)))
    → get_elem? os.files i ≡ some f
    → (FreeAreNone fs → ClosesNothing (fileclose os.files i))
    → Given i r
    → Placed omode os.fs fs ip (with_descriptor omode os ip i r)
with_descriptor-Placed omode os fs ip i f none at closes given =
    no_descriptor-Placed omode os fs ip (fileclose os.files i) closes
with_descriptor-Placed omode os fs ip i f (some (fd, fds)) at closes given =
    let change : File → File = opened_file omode (os.fs.inode ip) ip in
    (
      f,
      ap (at_index (at_file change os.files i (get_elem? os.files i))) given
          ∙ ap (λ r. get_elem? (at_file change os.files i r) i) at
          ∙ set-there os.files i f (change f) at,
      refl,
    )

with_file-Placed :
    (omode : ℕ) (os : Os) (ip : ℕ) (r : Option (ℕ × List File))
    → Allocated os.files r
    → Placed omode os.fs os.files ip (with_file omode os ip r)
with_file-Placed omode os ip none h = λ free. refl
with_file-Placed omode os ip (some (i, files)) (used, (f, at, unused, same)) =
    let f' : File = record f { ref = 1 } in
    let there : get_elem? files i ≡ some f' =
      ap (λ l. get_elem? l i) same ∙ set-there os.files i f f' at in
    with_descriptor-Placed omode (record os { files = files }) os.files ip i f' (fdalloc os.ofile i)
      there (λ free. fileclose-nothing files i f' there refl (free i f at unused))
      (fdalloc-Given os.ofile i)

-- The end of `sys_open` once it has its inode.
pub finish-Placed :
    (omode : ℕ) (os : Os) (ip : ℕ) (name : List ℕ) (m : Memory) (s : Fs)
    → Placed omode s os.files ip (finish omode os (Outcome.result (some ip) name m s))
finish-Placed omode os ip name m s =
    elim (Bool-cases ((s.inode ip).type == t_device && bad_major (s.inode ip).major)) [
      | inl y ↦ simp y (λ free. refl)
      | inr n ↦ simp n (
          with_file-Placed omode (record os { memory = m; fs = s }) ip (filealloc os.files)
            (filealloc-Allocated os.files))
    ]
