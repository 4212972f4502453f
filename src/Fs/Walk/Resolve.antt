-- ===== src/Fs/Walk/Resolve.antt =====
-- `namei` of mp4/kernel/fs.c, where no link is followed, against the plain resolution of the elements of
-- the path.
use spring_os_mp.Prelude.{
  ℕ, zero, suc, ◌+◌, ◌-◌, ◌^◌, ◌<◌, false, Option, some, none, List, [], ◌∷◌, ◌≡◌, refl, sym, ◌∙◌,
  ap, subst, length, drop, arith, ◌==◌, ◌||◌, not, leb, Bool-cases, inl, inr, if◌then◌else◌,
}
use spring_os_mp.Strings.Defs.{Memory}
use spring_os_mp.Fs.Defs.{Fs, Inode, iget, idup, ilock, iput, t_dir, root_ino}
use spring_os_mp.Fs.Dir.{Lookup, dirlookup}
use spring_os_mp.Fs.Counts.{Counts, and_one, Small, iget-Counts, idup-Counts}
use spring_os_mp.Fs.Stable.{
  IsStable, iget-IsStable, idup-IsStable, iput-IsStable, LockOutcome, ilock-LockOutcome,
}
use spring_os_mp.Fs.Path.{skipelem, max_path, string_at, slash}
use spring_os_mp.Fs.Path.Suffix.{string_at-drop}
use spring_os_mp.Fs.Path.Elements.{elements, SkipOutcome, skipelem-SkipOutcome}
use spring_os_mp.Fs.Walk.{Call, Outcome, Next, at_entry, at_dir, at_elem, walk, namex}
use spring_os_mp.Fs.Walk.Refs.{fits, entered}

-- What the resolution of names answers; `broken` is where the code panics.
pub data Answer : Type 0 where
  found : ℕ → Answer
  absent : Answer
  broken : Answer

abbrev pub resolve_entry : (ℕ → Answer) → Lookup → Answer
resolve_entry next Lookup.missing = Answer.absent
resolve_entry next Lookup.broken = Answer.broken
resolve_entry next (Lookup.entry off i) = next i

abbrev pub resolve_in : (ℕ → Answer) → List ℕ → Inode → Answer
resolve_in next name x =
    if x.type == 0
    then Answer.broken
    else if not (x.type == t_dir)
    then Answer.absent
    else if not x.mode.read
    then Answer.absent
    else resolve_entry next (dirlookup x.content name)

-- Element by element from an inode, through directories that may be read.
abbrev pub resolve : (ℕ → Inode) → List (List ℕ) → ℕ → Answer
resolve t [] i = Answer.found i
resolve t (name ∷ names) i = resolve_in (resolve t names) name (t i)

-- The walk ends as the resolution does.
abbrev pub Matches : Answer → Outcome → Type 0
Matches (Answer.found j) (Outcome.result (some i) name m s) = i ≡ j
Matches (Answer.found j) (Outcome.result none name m s) = ⊥
Matches Answer.absent (Outcome.result none name m s) = Unit
Matches Answer.absent (Outcome.result (some i) name m s) = ⊥
Matches Answer.broken Outcome.panic = Unit
Matches Answer.broken (Outcome.result r name m s) = ⊥
Matches (Answer.found j) Outcome.panic = ⊥
Matches Answer.absent Outcome.panic = ⊥
Matches a Outcome.out_of_fuel = ⊥

module _ (t : ℕ → Inode) (f : ℕ → ℕ) (small : Small f) (c : Call) (plain : c.follow ≡ false)
    (whole : c.parent ≡ false) where
  -- The rest of the walk from any inode that it holds.
  abbrev Resolves : Next → List (List ℕ) → Memory → ℕ → Type 0
  Resolves next names m p =
      (s : Fs) (i : ℕ) (old : List ℕ)
      → IsStable t s
      → Counts s (and_one f i)
      → Matches (resolve t names i) (next s m i p old)

  at_entry-Matches :
      (next : Next) (s : Fs) (m : Memory) (ip p : ℕ) (name rest : List ℕ) (names : List (List ℕ))
      (l : Lookup)
      → Resolves next names m p
      → IsStable t s
      → Counts s (and_one f ip)
      → Matches (resolve_entry (resolve t names) l) (at_entry c next s m ip p name rest l)
  at_entry-Matches next s m ip p name rest names Lookup.missing k v h = tt
  at_entry-Matches next s m ip p name rest names Lookup.broken k v h = tt
  at_entry-Matches next s m ip p name rest names (Lookup.entry off i) k v h =
      let s' : Fs = iput (iget s i) ip in
      let kept : IsStable t s' = iput-IsStable t (iget s i) ip (iget-IsStable t s i v) in
      simp plain (k s' i name kept (entered f small s ip i h))

  live :
      (s : Fs) (ip : ℕ)
      → Counts s (and_one f ip)
      → ((s.entry ip).ref == 0 || leb (2 ^ 31) (s.entry ip).ref) ≡ false
  live s ip h = used (s.entry ip).ref (f ip) (fits f small ip) (h ip ∙ here (f ip) ip)
    where
      here : (n i : ℕ) → n + (if i == i then 1 else 0) ≡ n + 1
      here n i = ground arith

      used : (r n : ℕ) → n < 2 ^ 30 → r ≡ n + 1 → (r == 0 || leb (2 ^ 31) r) ≡ false
      used r n lt e = ground arith

  at_dir-Matches :
      (next : Next) (s : Fs) (m : Memory) (ip p : ℕ) (name rest : List ℕ) (names : List (List ℕ))
      (r : Option Fs)
      → Resolves next names m p
      → LockOutcome t s ip r
      → Counts s (and_one f ip)
      → Matches (resolve t (name ∷ names) ip) (at_dir c next m ip p name rest r)
  at_dir-Matches next s m ip p name rest names none k l h = simp l tt
  at_dir-Matches next s m ip p name rest names (some s') k (typed, v, refs) h =
      let counts : Counts s' (and_one f ip) = (λ j. refs j ∙ h j) in
      let same : s'.inode ip ≡ t ip = ap (λ u. u ip) v.same in
      let x : Inode = s'.inode ip in
      let used : (x.type == 0) ≡ false = ap (λ y. y.type == 0) same ∙ typed in
      subst
        (λ y.
          Matches (resolve_in (resolve t names) name y) (at_dir c next m ip p name rest (some s')))
        same
        (elim (Bool-cases (not (x.type == t_dir))) [
          | inl y ↦ simp used (simp y tt)
          | inr dir ↦ elim (Bool-cases (not x.mode.read)) [
            | inl y ↦ simp used (simp dir (simp y tt))
            | inr readable ↦ simp used (
                simp dir (
                  simp readable (
                    simp whole (
                      at_entry-Matches next s' m ip p name rest names (dirlookup x.content name) k v
                        counts))))
          ]
        ])

  at_elem-Matches :
      (next : Next) (s : Fs) (m : Memory) (ip p : ℕ) (path old : List ℕ)
      (r : Option (List ℕ × List ℕ))
      → SkipOutcome path r
      → ((rest : List ℕ)
          → length rest < length path
          → rest ≡ drop (length path - length rest) path
          → Resolves next (elements rest) m (p + (length path - length rest)))
      → IsStable t s
      → Counts s (and_one f ip)
      → Matches (resolve t (elements path) ip) (at_elem c next s m ip p (length path) old r)
  at_elem-Matches next s m ip p path old none e k v h =
      subst (λ names. Matches (resolve t names ip) (at_elem c next s m ip p (length path) old none))
        (sym e) (simp whole refl)
  at_elem-Matches next s m ip p path old (some (name, rest)) (e, shorter, ends) k v h =
      let q : ℕ = p + (length path - length rest) in
      subst
        (λ names.
          Matches (resolve t names ip)
            (at_elem c next s m ip p (length path) old (some (name, rest))))
        (sym e)
        (at_dir-Matches next s m ip q name rest (elements rest) (ilock s ip) (k rest shorter ends)
          (ilock-LockOutcome t s ip v (live s ip h)) h)

  walk-Resolves :
      (fuel : ℕ) (m : Memory) (p : ℕ)
      → length (string_at m p max_path) < fuel
      → length (string_at m p max_path) < max_path
      → Resolves (walk fuel c) (elements (string_at m p max_path)) m p
  unfolding walk
  walk-Resolves zero m p enough ends s i old v h = absurd (omega arith)
  walk-Resolves (suc n) m p enough ends s i old v h =
      let path : List ℕ = string_at m p max_path in
      at_elem-Matches (walk n c) s m i p path old (skipelem path) (skipelem-SkipOutcome path)
        (λ rest shorter at.
          let k : ℕ = length path - length rest in
          let moved : string_at m (p + k) max_path ≡ rest =
            string_at-drop m p max_path k ends (omega arith) ∙ sym at in
          subst (λ r. Resolves (walk n c) (elements r) m (p + k)) moved
            (walk-Resolves n m (p + k) (subst (λ r. length r < n) (sym moved) (omega arith))
              (subst (λ r. length r < max_path) (sym moved) (omega arith))))
        v h

-- Where the path that a call of `namei` is given starts.
abbrev pub first_inode : Call → Memory → ℕ → ℕ
first_inode c m p = if m p == slash then root_ino else c.cwd

-- For every state in which every inode that is not free has a link and the counts are below 2^29, and
-- every path that ends in its buffer, `namex` without links to follow and not for the parent ends within
-- as many rounds as the path has bytes, and one: it answers the inode that the elements of the path
-- resolve to, none where one is missing or a directory on the way is none or may not be read, and
-- panics where the resolution meets a free inode or a broken directory.
pub namex-Matches :
    (fuel : ℕ) (c : Call) (s : Fs) (m : Memory) (p : ℕ)
    → c.follow ≡ false
    → c.parent ≡ false
    → IsStable s.inode s
    → Small (λ j. (s.entry j).ref)
    → length (string_at m p max_path) < max_path
    → length (string_at m p max_path) < fuel
    → Matches
        (resolve s.inode (elements (string_at m p max_path)) (first_inode c m p))
        (namex fuel c s m p)
unfolding namex
namex-Matches fuel c s m p plain whole v small ends enough =
    let f : ℕ → ℕ = λ j. (s.entry j).ref in
    let fit = fits f small in
    let go = walk-Resolves s.inode f small c plain whole fuel m p enough ends in
    elim (Bool-cases (m p == slash)) [
      | inl y ↦ simp y (
          go (iget s root_ino) root_ino [] (iget-IsStable s.inode s root_ino v)
            (iget-Counts s f root_ino (fit root_ino) (λ j. refl)))
      | inr n ↦ simp n (
          go (idup s c.cwd) c.cwd [] (idup-IsStable s.inode s c.cwd v)
            (idup-Counts s f c.cwd (fit c.cwd) (λ j. refl)))
    ]
