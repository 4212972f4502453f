-- ===== src/Fs/Dir.antt =====
-- Directories of mp4/kernel/fs.c: a directory's content is a sequence of entries of 16 bytes.
pub mod Chunks
pub mod Write
pub mod Linked
pub mod Stored
use spring_os_mp.Prelude.{
  ℕ, zero, suc, ◌+◌, ◌-◌, ◌*◌, ◌/◌, ◌%◌, Bool, true, false, Option, some, none, List, [], ◌∷◌, ◌++◌,
  length, take, drop, replicate, get_or, ◌==◌, ltb, ◌&&◌, not, if◌then◌else◌,
}
use spring_os_mp.Fs.Defs.{dirsiz}

abbrev pub dirent_size : ℕ
dirent_size = 16

-- `MAXFILE * BSIZE`
abbrev pub max_file_bytes : ℕ
max_file_bytes = 268 * 1024

-- The bytes of a string of at most `n` bytes, in front of the zero byte.
abbrev pub cstring : ℕ → List ℕ → List ℕ
cstring zero bs = []
cstring (suc n) [] = []
cstring (suc n) (b ∷ bs) = if b == 0 then [] else b ∷ cstring n bs

abbrev pub same_name : List ℕ → List ℕ → Bool
same_name [] [] = true
same_name [] (y ∷ ys) = false
same_name (x ∷ xs) [] = false
same_name (x ∷ xs) (y ∷ ys) = x == y && same_name xs ys

-- `de.inum` and `de.name` of the entry at the front of some bytes.
abbrev pub entry_inum : List ℕ → ℕ
entry_inum bs = get_or bs 0 0 + 256 * get_or bs 1 0

abbrev pub entry_name : List ℕ → List ℕ
entry_name bs = cstring dirsiz (drop 2 bs)

-- What a search of a directory ends in; `broken` is the panic at a part of an entry.
pub data Lookup : Type 0 where
  missing : Lookup
  broken : Lookup
  entry : (off inum : ℕ) → Lookup

-- The loop of `dirlookup` from offset `off` on, with the bytes from there and the rounds left.
unfoldable pub lookup_from : ℕ → List ℕ → List ℕ → ℕ → Lookup
lookup_from zero name bs off = Lookup.missing
lookup_from (suc n) name bs off =
    let rest = lookup_from n name (drop dirent_size bs) (off + dirent_size) in
    if ltb (length bs) dirent_size
    then Lookup.broken
    else if entry_inum bs == 0
    then rest
    else if same_name (cstring dirsiz name) (entry_name bs)
    then Lookup.entry off (entry_inum bs)
    else rest

-- How many entries the loops over a directory look at.
abbrev pub rounds : List ℕ → ℕ
rounds bs = (length bs + 15) / dirent_size

-- `dirlookup` in the content of a directory, without the `iget` of what it finds.
unfoldable pub dirlookup : List ℕ → List ℕ → Lookup
unfolding lookup_from
dirlookup content name = lookup_from (rounds content) name content 0

-- The second loop of `dirlink`: the offset of the first empty entry, or of the end. `none` is the
-- panic at a part of an entry.
unfoldable pub empty_from : ℕ → List ℕ → ℕ → Option ℕ
empty_from zero bs off = some off
empty_from (suc n) bs off =
    let rest = empty_from n (drop dirent_size bs) (off + dirent_size) in
    if ltb (length bs) dirent_size then none else if entry_inum bs == 0 then some off else rest

-- `strncpy` of a name into the field of an entry.
abbrev pub padded : List ℕ → List ℕ
padded name = let s = cstring dirsiz name in s ++ replicate (dirsiz - length s) 0

abbrev pub dirent_bytes : List ℕ → ℕ → List ℕ
dirent_bytes name inum = inum % 256 ∷ inum / 256 % 256 ∷ padded name

-- A write of some bytes over the content, from `off` on, which is at most its length.
abbrev pub overwrite : List ℕ → ℕ → List ℕ → List ℕ
overwrite content off bytes = take off content ++ bytes ++ drop (off + length bytes) content

-- The write of `dirlink`, which panics where the file would grow past MAXFILE blocks, and, in `writei`,
-- where `bmap` finds no block or `log_write` has no room: `stores` is whether they do at an offset.
abbrev pub link_at : (ℕ → Bool) → List ℕ → List ℕ → ℕ → Option ℕ → Option (Option (List ℕ))
link_at stores content name inum none = none
link_at stores content name inum (some off) =
    if ltb max_file_bytes (off + dirent_size)
    then none
    else if not (stores off)
    then none
    else some (some (overwrite content off (dirent_bytes name inum)))

abbrev pub linked_after : (ℕ → Bool) → List ℕ → List ℕ → ℕ → Lookup → Option (Option (List ℕ))
linked_after stores content name inum Lookup.broken = none
linked_after stores content name inum (Lookup.entry off i) = some none
linked_after stores content name inum Lookup.missing =
    link_at stores content name inum (empty_from (rounds content) content 0)

-- What `dirlink` does: `none` is a panic, `some none` its -1 where the name is there, else the new
-- content of the directory.
unfoldable pub dirlink : (ℕ → Bool) → List ℕ → List ℕ → ℕ → Option (Option (List ℕ))
unfolding dirlookup empty_from
dirlink stores content name inum = linked_after stores content name inum (dirlookup content name)
