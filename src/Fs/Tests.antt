-- ===== src/Fs/Tests.antt =====
-- Paths in a small tree: the root, the directory /d, the file /d/f, the link /l to /d, and the link /x to
-- x/y.
mod Calls
mod Blocks
use spring_os_mp.Prelude.{
  ℕ, ◌+◌, ◌-◌, Bool, true, false, Option, some, none, List, [], ◌∷◌, ◌++◌, ◌≡◌, refl, arith, ◌==◌,
  ==_iff, get_or, if◌then◌else◌, length, sym, subst,
}
use spring_os_mp.Prelude.Int.{pos}
use spring_os_mp.Strings.Defs.{Memory, safestrcpy, safe_copy}
use spring_os_mp.Fs.Defs.{Fs, Inode, iget, idup, ilock, iput, m_all, t_dir, t_file, t_symlink}
use spring_os_mp.Fs.Dir.{dirlookup, lookup_from, dirlink, empty_from, dirent_bytes}
use spring_os_mp.Fs.Dir.Linked.{Linked, dirlink-Linked}
use spring_os_mp.Fs.Path.{
  skipelem, skip_slashes, split_elem, concat_path, concat_buf, target_buf, max_path, string_at,
  store_bytes, safestrcat, find_end, append_from,
}
use spring_os_mp.Fs.Path.Elements.{elements, SkipOutcome, skipelem-SkipOutcome}
use spring_os_mp.Fs.Path.Concat.{concat_path_loses}
use spring_os_mp.Fs.Counts.{and_one, Small}
use spring_os_mp.Fs.Stable.{IsStable}
use spring_os_mp.Fs.Walk.{Call, Outcome, walk, namex}
use spring_os_mp.Fs.Walk.Refs.{Balanced, namex-Balanced}
use spring_os_mp.Fs.Walk.Resolve.{Matches, resolve, first_inode, namex-Matches}
use spring_os_mp.Fs.Link.{follow_symlink, IsTarget, follow_symlink-IsTarget}

-- "d", "f", "l", "x" and "y" are 100, 102, 108, 120 and 121, "/" is 47.
abbrev root_content : List ℕ
root_content =
    dirent_bytes (46 ∷ []) 1
    ++ dirent_bytes (108 ∷ []) 4
    ++ dirent_bytes (120 ∷ []) 5
    ++ dirent_bytes (100 ∷ []) 2

abbrev type_of : ℕ → ℕ
type_of i = get_or (0 ∷ t_dir ∷ t_dir ∷ t_file ∷ t_symlink ∷ t_symlink ∷ []) i 0

abbrev content_of : ℕ → List ℕ
content_of i =
    if i == 1
    then root_content
    else if i == 2
    then dirent_bytes (102 ∷ []) 3
    else if i == 4
    then 47 ∷ 100 ∷ []
    else if i == 5
    then 120 ∷ 47 ∷ 121 ∷ []
    else []

abbrev pub tree : ℕ → Inode
tree i = record { type = type_of i; major = pos 0; mode = m_all; nlink = 1; content = content_of i }

-- The working directory of a process is the root.
abbrev pub cwd_only : ℕ → ℕ
cwd_only j = if j == 1 then 1 else 0

abbrev pub holding : (ℕ → ℕ) → Fs
holding f = record {
  inode = tree;
  entry = λ j. record { ref = f j; valid = j == 1 };
  ninodes = 200;
  stores = λ i off. true;
}

abbrev pub path_in : List ℕ → Memory
path_in path = store_bytes (λ a. if a == 128 then 47 else 0) 1024 path

abbrev plainly : Bool → Call
plainly follow = record { parent = false; follow = follow; cwd = 1 }

-- What is returned, with the bytes of the path left over and the count at an inode.
abbrev answer : Outcome → ℕ → Option (Option ℕ × List ℕ × ℕ)
answer (Outcome.result r name m s) j = some (r, name, (s.entry j).ref)
answer Outcome.panic j = none
answer Outcome.out_of_fuel j = none

abbrev is_out : Outcome → Bool
is_out (Outcome.result r name m s) = false
is_out Outcome.panic = false
is_out Outcome.out_of_fuel = true

-- The third line of the comment on `skipelem`.
third_comment : skipelem (47 ∷ 47 ∷ 97 ∷ 47 ∷ 47 ∷ 98 ∷ 98 ∷ []) ≡ some (97 ∷ [], 98 ∷ 98 ∷ [])
unfolding skipelem skip_slashes split_elem
third_comment = refl

no_elements : skipelem (47 ∷ 47 ∷ []) ≡ none
unfolding skipelem skip_slashes split_elem
no_elements = refl

found :
    answer (namex 20 (plainly false) (holding cwd_only) (path_in (47 ∷ 100 ∷ 47 ∷ 102 ∷ [])) 1024) 3
    ≡ some (some 3, 102 ∷ [], 1)
unfolding namex walk skipelem skip_slashes split_elem dirlookup lookup_from iget idup ilock iput
found = refl

-- "l/f" goes through the link where links are followed, and else ends at it.
through_link :
    answer (namex 20 (plainly true) (holding cwd_only) (path_in (108 ∷ 47 ∷ 102 ∷ [])) 1024) 3
    ≡ some (some 3, 102 ∷ [], 1)
unfolding namex walk skipelem skip_slashes split_elem dirlookup lookup_from iget idup ilock iput
    concat_path safestrcpy safe_copy safestrcat find_end append_from
through_link = refl

ends_at_link :
    answer (namex 20 (plainly false) (holding cwd_only) (path_in (108 ∷ 47 ∷ 102 ∷ [])) 1024) 1
    ≡ some (none, 102 ∷ [], 1)
unfolding namex walk skipelem skip_slashes split_elem dirlookup lookup_from iget idup ilock iput
ends_at_link = refl

-- "x/a" leads to "x/y/a" again and again.
endless :
    is_out (namex 12 (plainly true) (holding cwd_only) (path_in (120 ∷ 47 ∷ 97 ∷ [])) 1024) ≡ true
unfolding namex walk skipelem skip_slashes split_elem dirlookup lookup_from iget idup ilock iput
    concat_path safestrcpy safe_copy safestrcat find_end append_from
endless = refl

linked_in_gap :
    dirlink (λ off. true) (dirent_bytes [] 0 ++ dirent_bytes (97 ∷ []) 9) (98 ∷ []) 7
    ≡ some (some (dirent_bytes (98 ∷ []) 7 ++ dirent_bytes (97 ∷ []) 9))
unfolding dirlink dirlookup lookup_from empty_from
linked_in_gap = refl

pub holding-Small : Small cwd_only
holding-Small j = ground arith

root_valid : (j : ℕ) → (j == 1) ≡ true → (type_of j == 0) ≡ false
root_valid j e = subst (λ i. (type_of i == 0) ≡ false) (sym ((==_iff j 1).0 e)) refl

pub holding-IsStable : IsStable tree (holding cwd_only)
holding-IsStable = record { same = refl; typed = root_valid; linked = λ j h. refl }

abbrev slash_a_slash_b : List ℕ
slash_a_slash_b = 47 ∷ 97 ∷ 47 ∷ 98 ∷ []

skipelem-SkipOutcome_example : SkipOutcome slash_a_slash_b (skipelem slash_a_slash_b)
skipelem-SkipOutcome_example = skipelem-SkipOutcome slash_a_slash_b

abbrev target_d : Memory
target_d = store_bytes (λ a. 0) target_buf (47 ∷ 100 ∷ [])

concat_path_loses_example :
    string_at
      (concat_path target_d target_buf
        (concat_buf + length (string_at target_d target_buf (max_path - 1)) + 1))
      concat_buf
      max_path
    ≡ string_at target_d target_buf (max_path - 1)
concat_path_loses_example = concat_path_loses target_d (omega arith)

namex-Balanced_example :
    Balanced cwd_only (namex 20 (plainly true) (holding cwd_only) (path_in (108 ∷ 47 ∷ [])) 1024)
namex-Balanced_example =
    namex-Balanced 20 (plainly true) (holding cwd_only) (path_in (108 ∷ 47 ∷ [])) 1024 holding-Small

abbrev pub d_f : Memory
d_f = path_in (47 ∷ 100 ∷ 47 ∷ 102 ∷ [])

namex-Matches_example :
    Matches
      (resolve tree (elements (string_at d_f 1024 max_path)) (first_inode (plainly false) d_f 1024))
      (namex 20 (plainly false) (holding cwd_only) d_f 1024)
namex-Matches_example =
    namex-Matches 20 (plainly false) (holding cwd_only) d_f 1024 refl refl holding-IsStable
      holding-Small (omega arith) (omega arith)

follow_symlink-IsTarget_example :
    IsTarget cwd_only (follow_symlink 11 false 1 (holding (and_one cwd_only 4)) (path_in []) 4)
follow_symlink-IsTarget_example =
    follow_symlink-IsTarget cwd_only 1 (holding (and_one cwd_only 4)) (path_in []) 4 holding-Small
      (λ j. refl)

dirlink-Linked_example :
    Linked (λ off. true) root_content (97 ∷ []) 6 (dirlink (λ off. true) root_content (97 ∷ []) 6)
dirlink-Linked_example = dirlink-Linked (λ off. true) root_content (97 ∷ []) 6 refl refl
