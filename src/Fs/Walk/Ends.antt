-- ===== src/Fs/Walk/Ends.antt =====
-- Without links to follow, `namex` of mp4/kernel/fs.c ends within as many rounds as its path has bytes,
-- and one.
use spring_os_mp.Prelude.{
  ℕ, zero, suc, ◌+◌, ◌-◌, ◌<◌, ◌≤◌, true, false, Option, some, none, List, [], ◌∷◌, ◌++◌, ◌≡◌, refl,
  sym, ◌∙◌, ap, subst, length, drop, arith, ◌==◌, ==_iff, not, ◌&&◌, Bool-cases, inl, inr,
}
use spring_os_mp.Strings.Defs.{Memory, store}
use spring_os_mp.Strings.Move.{store-same, store-other}
use spring_os_mp.Fs.Defs.{Fs, iget, idup, ilock, iput, t_dir, root_ino}
use spring_os_mp.Fs.Dir.{Lookup, dirlookup, cstring}
use spring_os_mp.Fs.Path.{skipelem, max_path, string_at, slash, store_bytes}
use spring_os_mp.Fs.Path.Suffix.{string_at-drop}
use spring_os_mp.Fs.Path.Elements.{SkipOutcome, skipelem-SkipOutcome}
use spring_os_mp.Fs.Walk.{Call, Outcome, Next, at_entry, at_dir, at_elem, walk, namex, is_nil}

abbrev pub Ends : Outcome → Type 0
Ends (Outcome.result r name m s) = Unit
Ends Outcome.panic = Unit
Ends Outcome.out_of_fuel = ⊥

module _ (c : Call) (plain : c.follow ≡ false) where
  abbrev EndsAt : Next → Memory → ℕ → Type 0
  EndsAt next m p = (s : Fs) (i : ℕ) (old : List ℕ) → Ends (next s m i p old)

  at_entry-Ends :
      (next : Next) (s : Fs) (m : Memory) (ip p : ℕ) (name rest : List ℕ) (l : Lookup)
      → EndsAt next m p
      → Ends (at_entry c next s m ip p name rest l)
  at_entry-Ends next s m ip p name rest Lookup.missing k = tt
  at_entry-Ends next s m ip p name rest Lookup.broken k = tt
  at_entry-Ends next s m ip p name rest (Lookup.entry off i) k =
      simp plain (k (iput (iget s i) ip) i name)

  at_dir-Ends :
      (next : Next) (m : Memory) (ip p : ℕ) (name rest : List ℕ) (r : Option Fs)
      → EndsAt next m p
      → Ends (at_dir c next m ip p name rest r)
  at_dir-Ends next m ip p name rest none k = tt
  at_dir-Ends next m ip p name rest (some s) k =
      elim (Bool-cases (not ((s.inode ip).type == t_dir))) [
        | inl y ↦ simp y tt
        | inr dir ↦ elim (Bool-cases (not (s.inode ip).mode.read)) [
          | inl y ↦ simp dir (simp y tt)
          | inr r ↦ elim (Bool-cases (c.parent && is_nil rest)) [
            | inl y ↦ simp dir (simp r (simp y tt))
            | inr on ↦ simp dir (
                simp r (
                  simp on (
                    at_entry-Ends next s m ip p name rest (dirlookup (s.inode ip).content name) k)))
          ]
        ]
      ]

  at_elem-Ends :
      (next : Next) (s : Fs) (m : Memory) (ip p : ℕ) (path old : List ℕ)
      (r : Option (List ℕ × List ℕ))
      → SkipOutcome path r
      → ((rest : List ℕ)
          → length rest < length path
          → rest ≡ drop (length path - length rest) path
          → EndsAt next m (p + (length path - length rest)))
      → Ends (at_elem c next s m ip p (length path) old r)
  at_elem-Ends next s m ip p path old none e k = elim (Bool-cases c.parent) [
    | inl y ↦ simp y tt
    | inr n ↦ simp n tt
  ]
  at_elem-Ends next s m ip p path old (some (name, rest)) (e, shorter, ends) k =
      at_dir-Ends next m ip (p + (length path - length rest)) name rest (ilock s ip)
        (k rest shorter ends)

  walk-Ends :
      (fuel : ℕ) (m : Memory) (p : ℕ)
      → length (string_at m p max_path) < fuel
      → length (string_at m p max_path) < max_path
      → EndsAt (walk fuel c) m p
  unfolding walk
  walk-Ends zero m p enough ends s i old = absurd (omega arith)
  walk-Ends (suc n) m p enough ends s i old =
      let path : List ℕ = string_at m p max_path in
      at_elem-Ends (walk n c) s m i p path old (skipelem path) (skipelem-SkipOutcome path)
        (λ rest shorter at.
          let k : ℕ = length path - length rest in
          let moved : string_at m (p + k) max_path ≡ rest =
            string_at-drop m p max_path k ends (omega arith) ∙ sym at in
          walk-Ends n m (p + k) (subst (λ r. length r < n) (sym moved) (omega arith))
            (subst (λ r. length r < max_path) (sym moved) (omega arith)))

  -- For every state, file or parent, and every path that ends in its buffer.
  pub namex-Ends :
      (fuel : ℕ) (s : Fs) (m : Memory) (p : ℕ)
      → length (string_at m p max_path) < max_path
      → length (string_at m p max_path) < fuel
      → Ends (namex fuel c s m p)
  unfolding namex
  namex-Ends fuel s m p ends enough = elim (Bool-cases (m p == slash)) [
    | inl y ↦ simp y (walk-Ends fuel m p enough ends (iget s root_ino) root_ino [])
    | inr n ↦ simp n (walk-Ends fuel m p enough ends (idup s c.cwd) c.cwd [])
  ]

-- A string that is stored with its zero byte is no longer than that.
string_at-le : (m : Memory) (p n k : ℕ) → m (p + k) ≡ 0 → length (string_at m p n) ≤ k
string_at-le m p zero k e = omega arith
string_at-le m p (suc n) zero e =
    let at : p ≡ p + 0 = omega arith in
    let z : (m p == 0) ≡ true = (==_iff (m p) 0).1 (ap m at ∙ e) in simp z (omega arith)
string_at-le m p (suc n) (suc k) e =
    let at : p + 1 + k ≡ p + suc k = omega arith in
    let rest : length (string_at m (p + 1) n) ≤ k = string_at-le m (p + 1) n k (ap m at ∙ e) in
    elim (Bool-cases (m p == 0)) [ inl y ↦ simp y (omega arith) | inr x ↦ simp x (omega arith) ]

store_bytes-before : (m : Memory) (a : ℕ) (bs : List ℕ) (b : ℕ) → b < a → store_bytes m a bs b ≡ m b
store_bytes-before m a [] b h = refl
store_bytes-before m a (x ∷ bs) b h =
    store_bytes-before (store m a x) (a + 1) bs b (omega arith)
    ∙ store-other m a x b (λ e. omega arith)

store_bytes-last :
    (m : Memory) (a : ℕ) (bs : List ℕ) → store_bytes m a (bs ++ 0 ∷ []) (a + length bs) ≡ 0
store_bytes-last m a [] = let at : a + 0 ≡ a = omega arith in ap (store m a 0) at ∙ store-same m a 0
store_bytes-last m a (x ∷ bs) =
    let at : a + suc (length bs) ≡ a + 1 + length bs = omega arith in
    ap (store_bytes (store m a x) (a + 1) (bs ++ 0 ∷ [])) at
    ∙ store_bytes-last (store m a x) (a + 1) bs

cstring-le : (n : ℕ) (bs : List ℕ) → length (cstring n bs) ≤ n
cstring-le zero bs = omega arith
cstring-le (suc n) [] = omega arith
cstring-le (suc n) (b ∷ bs) =
    let rest : length (cstring n bs) ≤ n = cstring-le n bs in
    elim (Bool-cases (b == 0)) [ inl y ↦ simp y (omega arith) | inr x ↦ simp x (omega arith) ]

pub stored-le :
    (m : Memory) (a n k : ℕ) (bs : List ℕ)
    → length (string_at (store_bytes m a (cstring n bs ++ 0 ∷ [])) a k) ≤ n
stored-le m a n k bs =
    let h =
      string_at-le (store_bytes m a (cstring n bs ++ 0 ∷ [])) a k (length (cstring n bs))
        (store_bytes-last m a (cstring n bs)) in
    let l = cstring-le n bs in omega arith
