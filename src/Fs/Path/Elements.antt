-- ===== src/Fs/Path/Elements.antt =====
-- `skipelem` of mp4/kernel/fs.c takes a path apart as its slashes do.
use spring_os_mp.Prelude.{
  ℕ, zero, suc, ◌+◌, ◌-◌, ◌<◌, false, Option, some, none, List, [], ◌∷◌, map, ◌≡◌, refl, sym, ◌∙◌,
  ap, length, take, drop, arith, ◌==◌, Bool-cases, inl, inr, if◌then◌else◌,
}
use spring_os_mp.Fs.Defs.{dirsiz}
use spring_os_mp.Fs.Path.{slash, skip_slashes, split_elem, elem_of, skipelem}

abbrev pub on_head : ℕ → List (List ℕ) → List (List ℕ)
on_head c [] = (c ∷ []) ∷ []
on_head c (x ∷ xs) = (c ∷ x) ∷ xs

-- The pieces of a path between its slashes, of which there is one at least.
abbrev pub pieces : List ℕ → List (List ℕ)
pieces [] = [] ∷ []
pieces (c ∷ cs) = if c == slash then [] ∷ pieces cs else on_head c (pieces cs)

abbrev pub nonempty : List (List ℕ) → List (List ℕ)
nonempty [] = []
nonempty ([] ∷ xs) = nonempty xs
nonempty ((c ∷ cs) ∷ xs) = (c ∷ cs) ∷ nonempty xs

-- The elements of a path, each cut at DIRSIZ bytes.
abbrev pub elements : List ℕ → List (List ℕ)
elements path = map (take dirsiz) (nonempty (pieces path))

-- What is left after the first piece.
abbrev tail_pieces : List ℕ → List (List ℕ)
tail_pieces [] = []
tail_pieces (c ∷ cs) = pieces cs

split_elem-pieces :
    (path : List ℕ) → pieces path ≡ (split_elem path).0 ∷ tail_pieces (split_elem path).1
unfolding split_elem
split_elem-pieces [] = refl
split_elem-pieces (c ∷ cs) = elim (Bool-cases (c == slash)) [
  | inl y ↦ simp y refl
  | inr n ↦ simp n (ap (on_head c) (split_elem-pieces cs))
]

skip_slashes-elements :
    (path : List ℕ) → nonempty (pieces (skip_slashes path)) ≡ nonempty (pieces path)
unfolding skip_slashes
skip_slashes-elements [] = refl
skip_slashes-elements (c ∷ cs) = elim (Bool-cases (c == slash)) [
  | inl y ↦ simp y (skip_slashes-elements cs)
  | inr n ↦ simp n refl
]

-- `rest` is `path` from byte `k` on.
abbrev pub Suffix : ℕ → List ℕ → List ℕ → Type 0
Suffix k path rest = (rest ≡ drop k path) × (length path ≡ k + length rest)

skip_slashes-Suffix : (path : List ℕ) → (k : ℕ) × Suffix k path (skip_slashes path)
unfolding skip_slashes
skip_slashes-Suffix [] = (0, (refl, omega arith))
skip_slashes-Suffix (c ∷ cs) = elim (Bool-cases (c == slash)) [
  | inl y ↦
      let (k, (e, l)) = skip_slashes-Suffix cs in
      let r : Suffix (suc k) (c ∷ cs) (skip_slashes cs) = (e, omega arith) in simp y (suc k, r)
  | inr n ↦ let r : Suffix 0 (c ∷ cs) (c ∷ cs) = (refl, omega arith) in simp n (0, r)
]

split_elem-Suffix : (path : List ℕ) → (k : ℕ) × Suffix k path (split_elem path).1
unfolding split_elem
split_elem-Suffix [] = (0, (refl, omega arith))
split_elem-Suffix (c ∷ cs) = elim (Bool-cases (c == slash)) [
  | inl y ↦ let r : Suffix 0 (c ∷ cs) (c ∷ cs) = (refl, omega arith) in simp y (0, r)
  | inr n ↦
      let (k, (e, l)) = split_elem-Suffix cs in
      let r : Suffix (suc k) (c ∷ cs) (split_elem cs).1 = (e, omega arith) in simp n (suc k, r)
]

drop_nil : (j : ℕ) → drop {A = ℕ} j [] ≡ []
drop_nil zero = refl
drop_nil (suc j) = refl

drop-drop : (k j : ℕ) (xs : List ℕ) → drop j (drop k xs) ≡ drop (k + j) xs
drop-drop zero j xs = let e : j ≡ 0 + j = omega arith in ap (λ n. drop n xs) e
drop-drop (suc k) j [] = drop_nil j ∙ sym (drop_nil (suc k + j))
drop-drop (suc k) j (x ∷ xs) =
    let e : suc (k + j) ≡ suc k + j = omega arith in drop-drop k j xs ∙ ap (λ n. drop n (x ∷ xs)) e

Suffix-trans :
    (k j : ℕ) (xs ys zs : List ℕ) → Suffix k xs ys → Suffix j ys zs → Suffix (k + j) xs zs
Suffix-trans k j xs ys zs (e, l) (f, m) = (f ∙ ap (drop j) e ∙ drop-drop k j xs, omega arith)

-- `skip_slashes` leaves no slash in front.
abbrev NoSlash : List ℕ → Type 0
NoSlash [] = Unit
NoSlash (c ∷ cs) = (c == slash) ≡ false

skip_slashes-NoSlash : (path : List ℕ) → NoSlash (skip_slashes path)
unfolding skip_slashes
skip_slashes-NoSlash [] = tt
skip_slashes-NoSlash (c ∷ cs) = elim (Bool-cases (c == slash)) [
  | inl y ↦ simp y (skip_slashes-NoSlash cs)
  | inr n ↦ simp n refl
]

-- What the first piece leaves is nothing or starts at a slash.
tail_pieces-nonempty :
    (path : List ℕ)
    → nonempty (tail_pieces (split_elem path).1) ≡ nonempty (pieces (split_elem path).1)
unfolding split_elem
tail_pieces-nonempty [] = refl
tail_pieces-nonempty (c ∷ cs) = elim (Bool-cases (c == slash)) [
  | inl y ↦ simp y refl
  | inr n ↦ simp n (tail_pieces-nonempty cs)
]

-- What `skipelem` promises: no element only where there is none; else the first, and a path of the
-- others, which is the end of the path it was given and shorter.
abbrev pub SkipOutcome : List ℕ → Option (List ℕ × List ℕ) → Type 0
SkipOutcome path none = elements path ≡ []
SkipOutcome path (some (name, rest)) =
    (elements path ≡ name ∷ elements rest)
    × (length rest < length path)
    × (rest ≡ drop (length path - length rest) path)

first_piece :
    (c : ℕ) (cs : List ℕ) (xs : List (List ℕ))
    → (c == slash) ≡ false
    → nonempty ((split_elem (c ∷ cs)).0 ∷ xs) ≡ (split_elem (c ∷ cs)).0 ∷ nonempty xs
unfolding split_elem
first_piece c cs xs n = simp n refl

split_elem-shorter :
    (c : ℕ) (cs : List ℕ) → (c == slash) ≡ false → length (split_elem (c ∷ cs)).1 < length (c ∷ cs)
unfolding split_elem
split_elem-shorter c cs n =
    let (k, (e, l)) = split_elem-Suffix cs in
    let h : length (split_elem cs).1 < suc (length cs) = omega arith in simp n h

elem_of-SkipOutcome :
    (path q : List ℕ) (k : ℕ)
    → Suffix k path q
    → nonempty (pieces q) ≡ nonempty (pieces path)
    → NoSlash q
    → SkipOutcome path (elem_of q)
elem_of-SkipOutcome path [] k s e n = ap (map (take dirsiz)) (sym e)
elem_of-SkipOutcome path (c ∷ cs) k s e n =
    let sp : List ℕ × List ℕ = split_elem (c ∷ cs) in
    let (j, t) = split_elem-Suffix (c ∷ cs) in
    let (i, u) = skip_slashes-Suffix sp.1 in
    let (ends, len) =
      Suffix-trans (k + j) i path sp.1 (skip_slashes sp.1) (Suffix-trans k j path (c ∷ cs) sp.1 s t)
        u in
    let shorter : length sp.1 < length (c ∷ cs) = split_elem-shorter c cs n in
    let at : k + j + i ≡ length path - length (skip_slashes sp.1) = omega arith in
    (
      ap (map (take dirsiz)) (
          sym e
          ∙ ap nonempty (split_elem-pieces (c ∷ cs))
          ∙ first_piece c cs (tail_pieces sp.1) n
          ∙ ap (λ l. sp.0 ∷ l) (tail_pieces-nonempty (c ∷ cs) ∙ sym (skip_slashes-elements sp.1))),
      under (length sp.1) i (length (skip_slashes sp.1)) (length (c ∷ cs)) k (length path) u.1
          shorter s.1,
      ends ∙ ap (λ m. drop m path) at,
    )
  where
    under : (l i r q k p : ℕ) → l ≡ i + r → l < q → p ≡ k + q → r < p
    under l i r q k p a b c = omega arith

-- For every path, `skipelem` answers its first element, cut at DIRSIZ bytes, and a shorter path that
-- is the end of the given one and has the other elements; it answers none only where the path has no
-- elements.
pub skipelem-SkipOutcome : (path : List ℕ) → SkipOutcome path (skipelem path)
unfolding skipelem
skipelem-SkipOutcome path =
    let (k, s) = skip_slashes-Suffix path in
    elem_of-SkipOutcome path (skip_slashes path) k s (skip_slashes-elements path)
      (skip_slashes-NoSlash path)
