-- ===== src/Fs/Dir/Chunks.antt =====
-- A directory of mp4/kernel/fs.c as the sequence of its entries of 16 bytes.
use spring_os_mp.Prelude.{
  ℕ, zero, suc, ◌+◌, ◌*◌, ◌≤◌, false, some, List, [], ◌∷◌, ◌++◌, ◌≡◌, refl, sym, ◌∙◌, ap, arith,
  length, length-append, length-take, length-drop, take-append-drop, take, drop, ◌==◌, ltb,
  Bool-cases, inl, inr, if◌then◌else◌,
}
use spring_os_mp.Fs.Defs.{dirsiz}
use spring_os_mp.Fs.Dir.{
  dirent_size, cstring, same_name, entry_inum, entry_name, Lookup, lookup_from, empty_from,
}

abbrev pub join : List (List ℕ) → List ℕ
join [] = []
join (c ∷ cs) = c ++ join cs

abbrev pub AllEntries : List (List ℕ) → Type 0
AllEntries [] = Unit
AllEntries (c ∷ cs) = (length c ≡ dirent_size) × AllEntries cs

abbrev pub chunks : ℕ → List ℕ → List (List ℕ)
chunks zero bs = []
chunks (suc n) bs = take dirent_size bs ∷ chunks n (drop dirent_size bs)

pub chunks-AllEntries :
    (n : ℕ) (bs : List ℕ) → length bs ≡ dirent_size * n → AllEntries (chunks n bs)
chunks-AllEntries zero bs h = tt
chunks-AllEntries (suc n) bs h = (
  length-take dirent_size bs ∙ omega (arith, h),
  chunks-AllEntries n (drop dirent_size bs) (length-drop dirent_size bs ∙ omega (arith, h)),
)

pub join-chunks : (n : ℕ) (bs : List ℕ) → length bs ≡ dirent_size * n → join (chunks n bs) ≡ bs
join-chunks zero [] h = refl
join-chunks zero (b ∷ bs) h = absurd (omega (arith, h))
join-chunks (suc n) bs h =
    ap (λ l. take dirent_size bs ++ l)
      (join-chunks n (drop dirent_size bs) (length-drop dirent_size bs ∙ omega (arith, h)))
    ∙ take-append-drop dirent_size bs

pub length-join : (cs : List (List ℕ)) → AllEntries cs → length (join cs) ≡ dirent_size * length cs
length-join [] h = refl
length-join (c ∷ cs) (e, h) = length-append c (join cs) ∙ omega (arith, e, length-join cs h)

-- A search through the entries.
abbrev pub look : List ℕ → List (List ℕ) → ℕ → Lookup
look name [] off = Lookup.missing
look name (c ∷ cs) off =
    if entry_inum c == 0
    then look name cs (off + dirent_size)
    else if same_name (cstring dirsiz name) (entry_name c)
    then Lookup.entry off (entry_inum c)
    else look name cs (off + dirent_size)

-- How many entries stand in front of the first empty one.
abbrev pub vacant : List (List ℕ) → ℕ
vacant [] = 0
vacant (c ∷ cs) = if entry_inum c == 0 then 0 else suc (vacant cs)

-- The first empty entry, or the end, is written.
abbrev pub fill_vacant : List ℕ → List (List ℕ) → List (List ℕ)
fill_vacant w [] = w ∷ []
fill_vacant w (c ∷ cs) = if entry_inum c == 0 then w ∷ cs else c ∷ fill_vacant w cs

pub drop-front : (n : ℕ) (xs ys : List ℕ) → length xs ≡ n → drop n (xs ++ ys) ≡ ys
drop-front zero [] ys h = refl
drop-front zero (x ∷ xs) ys h = absurd (omega (arith, h))
drop-front (suc n) [] ys h = absurd (omega (arith, h))
drop-front (suc n) (x ∷ xs) ys h = drop-front n xs ys (omega (arith, h))

cstring-front : (n : ℕ) (xs ys : List ℕ) → n ≤ length xs → cstring n (xs ++ ys) ≡ cstring n xs
cstring-front zero xs ys h = refl
cstring-front (suc n) [] ys h = absurd (omega arith)
cstring-front (suc n) (x ∷ xs) ys h = elim (Bool-cases (x == 0)) [
  | inl y ↦ simp y refl
  | inr k ↦ simp k (ap (λ l. x ∷ l) (cstring-front n xs ys (omega arith)))
]

-- An entry is that of its own bytes.
entry_name-front : (c r : List ℕ) → length c ≡ dirent_size → entry_name (c ++ r) ≡ entry_name c
entry_name-front [] r h = absurd (omega (arith, h))
entry_name-front (a ∷ []) r h = absurd (omega (arith, h))
entry_name-front (a ∷ b ∷ c) r h = cstring-front dirsiz c r (omega (arith, h))

entry_inum-front : (c r : List ℕ) → length c ≡ dirent_size → entry_inum (c ++ r) ≡ entry_inum c
entry_inum-front [] r h = absurd (omega (arith, h))
entry_inum-front (a ∷ []) r h = absurd (omega (arith, h))
entry_inum-front (a ∷ b ∷ c) r h = refl

enough : (c r : List ℕ) → length c ≡ dirent_size → ltb (length (c ++ r)) dirent_size ≡ false
enough c r h = ground (arith, h, length-append c r)

pub lookup_from-join :
    (name : List ℕ) (cs : List (List ℕ)) (off : ℕ)
    → AllEntries cs
    → lookup_from (length cs) name (join cs) off ≡ look name cs off
unfolding lookup_from
lookup_from-join name [] off h = refl
lookup_from-join name (c ∷ cs) off (e, h) =
    let rest : lookup_from (length cs) name (drop dirent_size (c ++ join cs)) (off + dirent_size)
        ≡ look name cs (off + dirent_size) =
      ap (λ l. lookup_from (length cs) name l (off + dirent_size))
        (drop-front dirent_size c (join cs) e)
      ∙ lookup_from-join name cs (off + dirent_size) h in
    simp (enough c (join cs) e) (
      simp (entry_inum-front c (join cs) e)
        (simp (entry_name-front c (join cs) e) (simp rest refl)))

pub empty_from-join :
    (cs : List (List ℕ)) (off : ℕ)
    → AllEntries cs
    → empty_from (length cs) (join cs) off ≡ some (off + dirent_size * vacant cs)
unfolding empty_from
empty_from-join [] off h = ap some (omega arith)
empty_from-join (c ∷ cs) off (e, h) =
    let rest : empty_from (length cs) (drop dirent_size (c ++ join cs)) (off + dirent_size)
        ≡ some (off + dirent_size + dirent_size * vacant cs) =
      ap (λ l. empty_from (length cs) l (off + dirent_size)) (drop-front dirent_size c (join cs) e)
      ∙ empty_from-join cs (off + dirent_size) h in
    simp (enough c (join cs) e) (
      simp (entry_inum-front c (join cs) e) (elim (Bool-cases (entry_inum c == 0)) [
        | inl y ↦ simp y (ap some (sym (plus_zero off)))
        | inr n ↦ simp n (rest ∙ ap some (next off (vacant cs)))
      ]))
  where
    plus_zero : (k : ℕ) → k + 0 ≡ k
    plus_zero k = omega arith

    next : (k v : ℕ) → k + dirent_size + dirent_size * v ≡ k + dirent_size * suc v
    next k v = omega arith
