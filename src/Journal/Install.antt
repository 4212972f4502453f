-- ===== src/Journal/Install.antt =====
-- `install_trans`: which blocks it writes, and what a crash on its way leaves.
use spring_os_mp.Prelude.{
  ℕ, suc, ◌+◌, ◌≤◌, ◌<◌, Bool, true, false, List, [], ◌∷◌, ◌≡◌, refl, ◌⊎◌, inl, inr, length, arith,
  ◌==◌, ◌||◌, if◌then◌else◌,
}
use spring_os_mp.Prelude.Fold.{All}
use spring_os_mp.Journal.Blocks.{Data, Disk, Blocks, put, bread, modify, bwrite}
use spring_os_mp.Journal.Defs.{log_entries, install_from}

abbrev pub contains : ℕ → List ℕ → Bool
contains c [] = false
contains c (b ∷ bs) = b == c || contains c bs

-- A block outside the log, which takes its header and `log_entries` blocks: the log of `LOGSIZE` blocks that mkfs
-- makes.
abbrev pub IsHome : ℕ → ℕ → Type 0
IsHome start b = (b < start) ⊎ (start + log_entries < b)

-- The log blocks from entry `tail` on hold `g` of the blocks that they are for.
abbrev pub Logged : ℕ → ℕ → List ℕ → Disk → Disk → Type 0
Logged start tail [] d g = Unit
Logged start tail (b ∷ bs) d g = (d (start + tail + 1) ≡ g b) × Logged start (suc tail) bs d g

-- `d` is `d0` with some of the blocks `bs` replaced by their contents in `g`.
abbrev pub Between : List ℕ → Disk → Disk → Disk → Type 0
Between bs g d0 d = (c : ℕ) → (d c ≡ d0 c) ⊎ ((contains c bs ≡ true) × (d c ≡ g c))

-- `d0` with all of the blocks `bs` replaced.
abbrev pub overwrite : List ℕ → Disk → Disk → Disk
overwrite bs g d0 c = if contains c bs then g c else d0 c

-- A write to another block than the log's entries leaves them as they are.
pub Logged-put :
    (start tail : ℕ) (bs : List ℕ) (d g : Disk) (b : ℕ) (v : Data)
    → (b ≤ start) ⊎ (start + log_entries < b)
    → tail + length bs ≤ log_entries
    → Logged start tail bs d g
    → Logged start tail bs (put d b v) g
Logged-put start tail [] d g b v home fits l = tt
Logged-put start tail (x ∷ bs) d g b v home fits l =
    (ground (arith, l.0), Logged-put start (suc tail) bs d g b v home (omega arith) l.1)

pub off_entries : (start b : ℕ) → IsHome start b → (b ≤ start) ⊎ (start + log_entries < b)
off_entries start b (inl h) = inl (omega arith)
off_entries start b (inr h) = inr h

pub record Installed (bs : List ℕ) (g : Disk) (s t : Blocks) : Type 1 where
  pub on_disk : (c : ℕ) → t.disk c ≡ overwrite bs g s.disk c
  pub in_cache : (c : ℕ) → t.cached c ≡ overwrite bs g s.cached c
  pub on_the_way :
      (Q : Disk → Type 0)
      → ((d : Disk) → Between bs g s.disk d → Q d)
      → All Q s.images
      → All Q t.images

pub install_from-Installed :
    (start tail : ℕ) (bs : List ℕ) (s : Blocks) (g : Disk)
    → All (IsHome start) bs
    → tail + length bs ≤ log_entries
    → Logged start tail bs s.cached g
    → Installed bs g s (install_from start tail bs s)
unfolding install_from
install_from-Installed start tail [] s g home fits l = record {
  on_disk = λ c. refl;
  in_cache = λ c. refl;
  on_the_way = λ Q q all. all;
}
install_from-Installed start tail (b ∷ bs) s g home fits l =
    let s' : Blocks = bwrite (modify s b (bread s (start + tail + 1))) b in
    let rest = install_from-Installed start (suc tail) bs s' g home.1 (omega arith) (
      Logged-put start (suc tail) bs s.cached g b _ (off_entries start b home.0) (omega arith)
        l.1) in
    record {
      on_disk = λ c. ground (arith, rest.on_disk c, l.0);
      in_cache = λ c. ground (arith, rest.in_cache c, l.0);
      on_the_way = λ Q q all.
          rest.on_the_way Q (λ d h. q d (λ c. ground (arith, h c, l.0)))
            (q s'.disk (λ c. ground (arith, l.0)), all);
    }
