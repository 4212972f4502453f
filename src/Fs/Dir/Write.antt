-- ===== src/Fs/Dir/Write.antt =====
-- The entry that `dirlink` of mp4/kernel/fs.c writes, and where.
use spring_os_mp.Prelude.{
  ℕ, zero, suc, ◌+◌, ◌-◌, ◌*◌, ◌%◌, ◌≤◌, List, [], ◌∷◌, ◌++◌, ◌≡◌, refl, ◌∙◌, ap, arith, length,
  length-append, length-replicate, take, replicate, drop, ◌==◌, Bool-cases, inl, inr,
}
use mathlib.Core.List.{append_assoc}
use spring_os_mp.Fs.Defs.{dirsiz}
use spring_os_mp.Fs.Dir.{dirent_size, cstring, entry_inum, entry_name, overwrite, dirent_bytes}
use spring_os_mp.Fs.Dir.Chunks.{join, AllEntries, vacant, fill_vacant, drop-front}

-- The bytes that are written.
cstring-bound : (n : ℕ) (xs : List ℕ) → length (cstring n xs) ≤ n
cstring-bound zero xs = omega arith
cstring-bound (suc n) [] = omega arith
cstring-bound (suc n) (x ∷ xs) = elim (Bool-cases (x == 0)) [
  | inl y ↦ simp y (omega arith)
  | inr k ↦ simp k (omega (arith, cstring-bound n xs))
]

zeros : (n k : ℕ) → cstring n (replicate k 0) ≡ []
zeros zero k = refl
zeros (suc n) zero = refl
zeros (suc n) (suc k) = refl

cstring-padded : (n k : ℕ) (xs : List ℕ) → cstring n (cstring n xs ++ replicate k 0) ≡ cstring n xs
cstring-padded zero k xs = refl
cstring-padded (suc n) k [] = zeros (suc n) k
cstring-padded (suc n) k (x ∷ xs) = elim (Bool-cases (x == 0)) [
  | inl y ↦ simp y (zeros (suc n) k)
  | inr o ↦ simp o ((ap (λ l. x ∷ l) (cstring-padded n k xs)))
]

pub length-dirent_bytes : (name : List ℕ) (inum : ℕ) → length (dirent_bytes name inum) ≡ dirent_size
length-dirent_bytes name inum =
    let s : List ℕ = cstring dirsiz name in
    omega (
      arith,
      length-append s (replicate (dirsiz - length s) 0),
      length-replicate {A = ℕ} (dirsiz - length s) 0,
      cstring-bound dirsiz name,
    )

pub entry_inum-dirent_bytes :
    (name : List ℕ) (inum : ℕ) → entry_inum (dirent_bytes name inum) ≡ inum % 65536
entry_inum-dirent_bytes name inum = omega arith

pub entry_name-dirent_bytes :
    (name : List ℕ) (inum : ℕ) → entry_name (dirent_bytes name inum) ≡ cstring dirsiz name
entry_name-dirent_bytes name inum =
    cstring-padded dirsiz (dirsiz - length (cstring dirsiz name)) name

-- The write of an entry, entry by entry.
drop-nil : (n : ℕ) → drop {A = ℕ} n [] ≡ []
drop-nil zero = refl
drop-nil (suc n) = refl

drop-past : (n k : ℕ) (xs ys : List ℕ) → length xs ≡ n → drop (n + k) (xs ++ ys) ≡ drop k ys
drop-past zero k [] ys h = let e : 0 + k ≡ k = omega arith in ap (λ j. drop j ys) e
drop-past zero k (x ∷ xs) ys h = absurd (omega (arith, h))
drop-past (suc n) k [] ys h = absurd (omega (arith, h))
drop-past (suc n) k (x ∷ xs) ys h =
    let e : suc n + k ≡ suc (n + k) = omega arith in
    ap (λ j. drop j (x ∷ xs ++ ys)) e ∙ drop-past n k xs ys (omega (arith, h))

take-past : (n k : ℕ) (xs ys : List ℕ) → length xs ≡ n → take (n + k) (xs ++ ys) ≡ xs ++ take k ys
take-past zero k [] ys h = let e : 0 + k ≡ k = omega arith in ap (λ j. take j ys) e
take-past zero k (x ∷ xs) ys h = absurd (omega (arith, h))
take-past (suc n) k [] ys h = absurd (omega (arith, h))
take-past (suc n) k (x ∷ xs) ys h =
    let e : suc n + k ≡ suc (n + k) = omega arith in
    ap (λ j. take j (x ∷ xs ++ ys)) e ∙ ap (λ l. x ∷ l) (take-past n k xs ys (omega (arith, h)))

pub overwrite-join :
    (w : List ℕ) (cs : List (List ℕ))
    → length w ≡ dirent_size
    → AllEntries cs
    → overwrite (join cs) (dirent_size * vacant cs) w ≡ join (fill_vacant w cs)
overwrite-join w [] e h = ap (λ l. w ++ l) (drop-nil (0 + length w))
overwrite-join w (c ∷ cs) e (d, h) = elim (Bool-cases (entry_inum c == 0)) [
  | inl y ↦
      let k : 0 + length w ≡ dirent_size = omega (arith, e) in
      simp y (
        ap (λ l. w ++ l) (ap (λ j. drop j (c ++ join cs)) k ∙ drop-front dirent_size c (join cs) d))
  | inr n ↦
      let v : ℕ = dirent_size * vacant cs in
      let k : dirent_size * suc (vacant cs) ≡ dirent_size + v = omega arith in
      let l : dirent_size * suc (vacant cs) + length w ≡ dirent_size + (v + length w) =
        omega arith in
      let front : take (dirent_size * suc (vacant cs)) (c ++ join cs) ≡ c ++ take v (join cs) =
        ap (λ j. take j (c ++ join cs)) k ∙ take-past dirent_size v c (join cs) d in
      let back : drop (dirent_size * suc (vacant cs) + length w) (c ++ join cs)
          ≡ drop (v + length w) (join cs) =
        ap (λ j. drop j (c ++ join cs)) l ∙ drop-past dirent_size (v + length w) c (join cs) d in
      let T : List ℕ = take v (join cs) in
      let D : List ℕ = drop (v + length w) (join cs) in
      let deep : ((c ++ T) ++ w) ++ D ≡ c ++ ((T ++ w) ++ D) =
        ap (λ r. r ++ D) (append_assoc c T w) ∙ append_assoc c (T ++ w) D in
      let last : c ++ ((T ++ w) ++ D) ≡ c ++ join (fill_vacant w cs) =
        ap (λ r. c ++ r) (overwrite-join w cs e h) in
      simp n (
        ap (λ f. f ++ w ++ drop (dirent_size * suc (vacant cs) + length w) (c ++ join cs)) front
        ∙ ap (λ b. (c ++ take v (join cs)) ++ w ++ b) back
        ∙ deep
        ∙ last)
]

pub fill_vacant-AllEntries :
    (w : List ℕ) (cs : List (List ℕ))
    → length w ≡ dirent_size
    → AllEntries cs
    → AllEntries (fill_vacant w cs)
fill_vacant-AllEntries w [] e h = (e, tt)
fill_vacant-AllEntries w (c ∷ cs) e (d, h) = elim (Bool-cases (entry_inum c == 0)) [
  | inl y ↦ simp y (e, h)
  | inr n ↦ simp n (d, fill_vacant-AllEntries w cs e h)
]
