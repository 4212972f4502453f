-- ===== src/Fs/Dir/Linked.antt =====
-- `dirlink` of mp4/kernel/fs.c makes the entry that `dirlookup` then finds, and no other search of the
-- directory ends otherwise than before.
use spring_os_mp.Prelude.{
  ℕ, ◌+◌, ◌*◌, ◌/◌, ◌%◌, ◌<◌, ◌≤◌, true, false, Option, some, none, List, [], ◌∷◌, ◌≡◌, refl, sym,
  ◌∙◌, ap, subst, arith, length, ◌==◌, ltb, Bool-cases, Bool, ◌⊎◌, inl, inr, if◌then◌else◌, ==_iff,
}
use spring_os_mp.Fs.Defs.{dirsiz}
use spring_os_mp.Fs.Dir.{
  dirent_size, cstring, same_name, entry_inum, entry_name, Lookup, lookup_from, rounds, dirlookup,
  empty_from, dirent_bytes, dirlink, linked_after, link_at, max_file_bytes,
}
use spring_os_mp.Fs.Dir.Chunks.{
  join, AllEntries, chunks, chunks-AllEntries, join-chunks, length-join, look, vacant, fill_vacant,
  lookup_from-join, empty_from-join,
}
use spring_os_mp.Fs.Dir.Write.{
  length-dirent_bytes, entry_inum-dirent_bytes, entry_name-dirent_bytes, overwrite-join,
  fill_vacant-AllEntries,
}

-- A search ends at an entry with this inode.
abbrev pub Finds : ℕ → Lookup → Type 0
Finds i (Lookup.entry off j) = j ≡ i
Finds i Lookup.missing = ⊥
Finds i Lookup.broken = ⊥

look-fill_vacant :
    (name w : List ℕ) (cs : List (List ℕ)) (off : ℕ)
    → (entry_inum w == 0) ≡ false
    → same_name (cstring dirsiz name) (entry_name w) ≡ true
    → look name cs off ≡ Lookup.missing
    → Finds (entry_inum w) (look name (fill_vacant w cs) off)
look-fill_vacant name w [] off used same h = simp used (simp same refl)
look-fill_vacant name w (c ∷ cs) off used same h = elim (Bool-cases (entry_inum c == 0)) [
  | inl y ↦ simp y (simp used (simp same refl))
  | inr n ↦ elim (Bool-cases (same_name (cstring dirsiz name) (entry_name c))) [
    | inl y ↦
        let step : look name (c ∷ cs) off ≡ Lookup.entry off (entry_inum c) =
          simp n (simp y refl) in
        absurd (cc (step, h))
    | inr m ↦
        let step : look name (c ∷ cs) off ≡ look name cs (off + dirent_size) =
          simp n (simp m refl) in
        simp n (simp m (look-fill_vacant name w cs (off + dirent_size) used same (sym step ∙ h)))
  ]
]

look-fill_vacant_other :
    (name w : List ℕ) (cs : List (List ℕ)) (off : ℕ)
    → (entry_inum w == 0) ≡ false
    → same_name (cstring dirsiz name) (entry_name w) ≡ false
    → look name (fill_vacant w cs) off ≡ look name cs off
look-fill_vacant_other name w [] off used other = simp used (simp other refl)
look-fill_vacant_other name w (c ∷ cs) off used other = elim (Bool-cases (entry_inum c == 0)) [
  | inl y ↦ simp y (simp used (simp other refl))
  | inr n ↦ simp n (
      ap
        (λ r.
          if same_name (cstring dirsiz name) (entry_name c)
          then Lookup.entry off (entry_inum c)
          else r)
        (look-fill_vacant_other name w cs (off + dirent_size) used other))
]

same_name_refl : (xs : List ℕ) → same_name xs xs ≡ true
same_name_refl [] = refl
same_name_refl (x ∷ xs) = simp ((==_iff x x).1 refl) (same_name_refl xs)

abbrev IsWhole : Lookup → Type 0
IsWhole Lookup.broken = ⊥
IsWhole Lookup.missing = Unit
IsWhole (Lookup.entry off i) = Unit

look-IsWhole : (name : List ℕ) (cs : List (List ℕ)) (off : ℕ) → IsWhole (look name cs off)
look-IsWhole name [] off = tt
look-IsWhole name (c ∷ cs) off = elim (Bool-cases (entry_inum c == 0)) [
  | inl y ↦ simp y (look-IsWhole name cs (off + dirent_size))
  | inr n ↦ elim (Bool-cases (same_name (cstring dirsiz name) (entry_name c))) [
    | inl y ↦ simp n (simp y tt)
    | inr m ↦ simp n (simp m (look-IsWhole name cs (off + dirent_size)))
  ]
]

vacant-le : (cs : List (List ℕ)) → vacant cs ≤ length cs
vacant-le [] = omega arith
vacant-le (c ∷ cs) = elim (Bool-cases (entry_inum c == 0)) [
  | inl y ↦ simp y (omega arith)
  | inr n ↦ simp n (omega (arith, vacant-le cs))
]

dirlookup-join :
    (name : List ℕ) (cs : List (List ℕ)) → AllEntries cs → dirlookup (join cs) name ≡ look name cs 0
unfolding dirlookup
dirlookup-join name cs h =
    let n : rounds (join cs) ≡ length cs = omega (arith, length-join cs h) in
    ap (λ k. lookup_from k name (join cs) 0) n ∙ lookup_from-join name cs 0 h

first_vacant :
    (cs : List (List ℕ))
    → AllEntries cs
    → empty_from (rounds (join cs)) (join cs) 0 ≡ some (dirent_size * vacant cs)
first_vacant cs h =
    let n : rounds (join cs) ≡ length cs = omega (arith, length-join cs h) in
    let z : 0 + dirent_size * vacant cs ≡ dirent_size * vacant cs = omega arith in
    ap (λ k. empty_from k (join cs) 0) n ∙ empty_from-join cs 0 h ∙ ap some z

-- What `dirlink` of a whole directory promises. It panics only where the directory cannot grow, or where
-- the entry at some offset up to its end cannot be stored. It fails only where the name is there. Else the name was not there, it is found now with the inode, every other
-- name is found or not as before, and the directory is whole.
abbrev pub Linked : (ℕ → Bool) → List ℕ → List ℕ → ℕ → Option (Option (List ℕ)) → Type 0
Linked stores content name inum none =
    (max_file_bytes < length content + dirent_size)
    ⊎ ((off : ℕ) × (off ≤ length content) × (off % dirent_size ≡ 0) × (stores off ≡ false))
Linked stores content name inum (some none) =
    (off : ℕ) × (i : ℕ) × (dirlookup content name ≡ Lookup.entry off i)
Linked stores content name inum (some (some after)) =
    (dirlookup content name ≡ Lookup.missing)
    × Finds (inum % 65536) (dirlookup after name)
    × ((other : List ℕ)
        → same_name (cstring dirsiz other) (cstring dirsiz name) ≡ false
        → dirlookup after other ≡ dirlookup content other)
    × (length after % dirent_size ≡ 0)

module _ (stores : ℕ → Bool) (cs : List (List ℕ)) (name : List ℕ) (inum : ℕ) (h : AllEntries cs)
    (used : (inum % 65536 == 0) ≡ false) where
  abbrev w : List ℕ
  w = dirent_bytes name inum

  filled-Linked :
      dirlookup (join cs) name ≡ Lookup.missing
      → Linked stores (join cs) name inum (some (some (join (fill_vacant w cs))))
  filled-Linked missing =
      let e : length w ≡ dirent_size = length-dirent_bytes name inum in
      let own : AllEntries (fill_vacant w cs) = fill_vacant-AllEntries w cs e h in
      let i : entry_inum w ≡ inum % 65536 = entry_inum-dirent_bytes name inum in
      let live : (entry_inum w == 0) ≡ false = ap (λ k. k == 0) i ∙ used in
      let s : entry_name w ≡ cstring dirsiz name = entry_name-dirent_bytes name inum in
      (
        missing,
        subst (λ k. Finds k (dirlookup (join (fill_vacant w cs)) name)) i
            (subst (Finds (entry_inum w)) (sym (dirlookup-join name (fill_vacant w cs) own)) (
              look-fill_vacant name w cs 0 live
                (ap (same_name (cstring dirsiz name)) s ∙ same_name_refl (cstring dirsiz name))
                (sym (dirlookup-join name cs h) ∙ missing))),
        (λ other differs.
            dirlookup-join other (fill_vacant w cs) own
            ∙ look-fill_vacant_other other w cs 0 live
                (ap (same_name (cstring dirsiz other)) s ∙ differs)
            ∙ sym (dirlookup-join other cs h)),
        omega (arith, length-join (fill_vacant w cs) own),
      )

  link_at-Linked :
      dirlookup (join cs) name ≡ Lookup.missing
      → Linked stores
          (join cs)
          name
          inum
          (link_at stores (join cs) name inum (some (dirent_size * vacant cs)))
  link_at-Linked missing =
      let off : ℕ = dirent_size * vacant cs in
      elim (Bool-cases (ltb max_file_bytes (off + dirent_size))) [
        | inl y ↦ simp y (inl (ground (arith, y, vacant-le cs, length-join cs h)))
        | inr n ↦ elim (Bool-cases (stores off)) [
          | inr f ↦
              simp n
                (simp f (inr (off, omega (arith, vacant-le cs, length-join cs h), omega arith, f)))
          | inl y ↦ simp n (
              simp y (
                subst (λ after. Linked stores (join cs) name inum (some (some after)))
                  (sym (overwrite-join w cs (length-dirent_bytes name inum) h))
                  (filled-Linked missing)))
        ]
      ]

  linked_after-Linked :
      (l : Lookup)
      → dirlookup (join cs) name ≡ l
      → Linked stores (join cs) name inum (linked_after stores (join cs) name inum l)
  linked_after-Linked Lookup.broken e =
      absurd (subst IsWhole (sym (dirlookup-join name cs h) ∙ e) (look-IsWhole name cs 0))
  linked_after-Linked (Lookup.entry off i) e = (off, i, e)
  linked_after-Linked Lookup.missing e =
      subst (λ o. Linked stores (join cs) name inum (link_at stores (join cs) name inum o))
        (sym (first_vacant cs h)) (link_at-Linked e)

-- For every directory of whole entries, every name, and every inode number that is not 0 as a `ushort`:
-- `dirlink` panics only where a file has no room for one more entry or the blocks and the log do not let
-- `writei` store an entry at some offset up to the directory's end, and fails only where
-- `dirlookup` finds the name. Else `dirlookup` did not find the name, finds it afterwards with that number,
-- and ends for every other name as before; the directory still has whole entries.
pub dirlink-Linked :
    (stores : ℕ → Bool) (content name : List ℕ) (inum : ℕ)
    → length content % dirent_size ≡ 0
    → (inum % 65536 == 0) ≡ false
    → Linked stores content name inum (dirlink stores content name inum)
unfolding dirlink
dirlink-Linked stores content name inum whole used =
    let n : ℕ = length content / dirent_size in
    let size : length content ≡ dirent_size * n = omega (arith, whole) in
    let cs : List (List ℕ) = chunks n content in
    subst (λ l. Linked stores l name inum (linked_after stores l name inum (dirlookup l name)))
      (join-chunks n content size)
      (linked_after-Linked stores cs name inum (chunks-AllEntries n content size) used
        (dirlookup (join cs) name) refl)
