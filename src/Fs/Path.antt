-- ===== src/Fs/Path.antt =====
-- Path names of mp4/kernel/fs.c: `skipelem`, and `concat_path` with its static buffer. A string is the
-- list of its bytes in front of the zero byte, or stands in a memory.
pub mod Elements
pub mod Suffix
pub mod Concat
use spring_os_mp.Prelude.{
  ℕ, zero, suc, ◌+◌, ◌-◌, Bool, true, false, Option, some, none, List, [], ◌∷◌, length, take, ◌==◌,
  ltb, ◌&&◌, if◌then◌else◌,
}
use spring_os_mp.Strings.Defs.{Memory, store, safestrcpy}
use spring_os_mp.Fs.Defs.{dirsiz}

abbrev pub slash : ℕ
slash = b'/'

unfoldable pub skip_slashes : List ℕ → List ℕ
skip_slashes [] = []
skip_slashes (c ∷ cs) = let rest = skip_slashes cs in if c == slash then rest else c ∷ cs

abbrev pub longer : ℕ → List ℕ × List ℕ → List ℕ × List ℕ
longer c (s, rest) = (c ∷ s, rest)

-- The bytes in front of the next slash, and those from it on.
unfoldable pub split_elem : List ℕ → List ℕ × List ℕ
split_elem [] = ([], [])
split_elem (c ∷ cs) = let rest = split_elem cs in if c == slash then ([], c ∷ cs) else longer c rest

abbrev pub elem_of : List ℕ → Option (List ℕ × List ℕ)
elem_of [] = none
elem_of (c ∷ cs) = let (s, rest) = split_elem (c ∷ cs) in some (take dirsiz s, skip_slashes rest)

-- `skipelem`: the element, cut at DIRSIZ bytes, and the path after it.
unfoldable pub skipelem : List ℕ → Option (List ℕ × List ℕ)
unfolding skip_slashes split_elem
skipelem path = elem_of (skip_slashes path)

-- `i` at the end of the first loop of `safestrcat`, with the rounds left.
unfoldable pub find_end : Memory → ℕ → ℕ → ℕ → ℕ
find_end m dest i zero = i
find_end m dest i (suc n) =
    let rest = find_end m dest (i + 1) n in if m (dest + i) == 0 then i else rest

-- Its second loop, and the zero byte: with the rounds left.
unfoldable pub append_from : Memory → ℕ → ℕ → ℕ → Memory
append_from m dest src zero = store m dest 0
append_from m dest src (suc n) =
    let rest = append_from (store m dest (m src)) (dest + 1) (src + 1) n in
    if m src == 0 then store m dest 0 else rest

unfoldable pub safestrcat : Memory → ℕ → ℕ → ℕ → Memory
unfolding find_end append_from
safestrcat m dest src max =
    let i = find_end m dest 0 max in append_from m (dest + i) src (max - 1 - i)

-- Where the strings of `concat_path` stand: its static `buf`, the literal "/" and the caller's
-- `target`.
abbrev pub concat_buf : ℕ
concat_buf = 0

abbrev pub slash_literal : ℕ
slash_literal = 128

abbrev pub target_buf : ℕ
target_buf = 256

abbrev pub max_path : ℕ
max_path = 128

-- `rest` may point into `buf`, where an earlier call has put the path.
unfoldable pub concat_path : Memory → ℕ → ℕ → Memory
unfolding safestrcpy safestrcat
concat_path m target rest =
    let m' = safestrcpy m concat_buf target max_path in
    if m' rest == 0
    then m'
    else safestrcat (safestrcat m' concat_buf slash_literal max_path) concat_buf rest max_path

-- The string at an address, of at most `n` bytes.
abbrev pub string_at : Memory → ℕ → ℕ → List ℕ
string_at m p zero = []
string_at m p (suc n) = let rest = string_at m (p + 1) n in if m p == 0 then [] else m p ∷ rest

abbrev pub store_bytes : Memory → ℕ → List ℕ → Memory
store_bytes m p [] = m
store_bytes m p (b ∷ bs) = store_bytes (store m p b) (p + 1) bs
