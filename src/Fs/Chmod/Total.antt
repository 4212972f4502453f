-- ===== src/Fs/Chmod/Total.antt =====
-- `chmod_recursive` of mp4/kernel/sysfile.c comes to an end and changes all that is below a directory.
use spring_os_mp.Prelude.{ℕ, ◌<◌, Bool, ◌≡◌, ◌⊎◌}
use spring_os_mp.Fs.Defs.{Fs, Inode, Mode}
use spring_os_mp.Fs.Chmod.{Changed}
use spring_os_mp.Fs.Chmod.Reach.{NamesAt, IsDir, Below, Shallow, with_mode, OnWay, Marked, Later}

module _ (t : ℕ → Inode) (mode : Mode) (set : Bool) (Target : ℕ → Type 0) where
  abbrev On : Fs → Type 0
  On s = OnWay t mode set Target s

  abbrev Hit : Fs → ℕ → Type 0
  Hit s i = Marked t mode set Target s i

  abbrev After : Fs → Fs → Type 0
  After s s' = Later t mode set Target s s'

  -- All that is below a directory is changed.
  abbrev AllBelow : Fs → ℕ → Type 0
  AllBelow s d = (i : ℕ) → Below t d i → Hit s i

  -- How a part of the work ends, if it is to have done `P`.
  abbrev EndsWith : (Fs → Type 0) → Fs → Changed → Type 0
  EndsWith P s (Changed.changed s') = After s s' × P s'
  EndsWith P s Changed.panic = Unit
  EndsWith P s Changed.out_of_fuel = ⊥

  abbrev Works : ℕ → (Fs → ℕ → Changed) → Type 0
  Works n again =
      (s : Fs) (d : ℕ)
      → On s
      → Shallow t n d
      → ((i : ℕ) → Below t d i → Target i)
      → EndsWith (λ s'. AllBelow s' d) s (again s d)

  -- An inode and, if it is a directory, all below it.
  abbrev Covers : ℕ → Fs → Type 0
  Covers c s = Hit s c × (IsDir t c → AllBelow s c)

  -- What the work needs to know of an inode.
  abbrev Allowed : ℕ → ℕ → Type 0
  Allowed n c =
      Target c × (IsDir t c → Shallow t n c) × (IsDir t c → (i : ℕ) → Below t c i → Target i)

  abbrev CoversBefore : ℕ → ℕ → Fs → Type 0
  CoversBefore d k x = (k' c : ℕ) → k' < k → NamesAt t d k' c → Covers c x

-- How a change of modes below a directory ends: it panics, or every inode below the directory has the
-- changed mode, and an inode that is not below it and all else is as it was.
abbrev pub ChangesBelow : Mode → Bool → Fs → ℕ → Changed → Type 0
ChangesBelow mode set s d (Changed.changed s') =
    ((i : ℕ) → Below s.inode d i → s'.inode i ≡ with_mode mode set (s.inode i))
    × ((i : ℕ) → (s'.inode i ≡ s.inode i) ⊎ Below s.inode d i)
ChangesBelow mode set s d Changed.panic = Unit
ChangesBelow mode set s d Changed.out_of_fuel = ⊥
