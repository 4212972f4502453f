-- ===== src/Journal/Recover.antt =====
-- What `initlog` makes of a disk: a header with no entries is left alone, and one with entries has
-- its blocks installed.
use spring_os_mp.Prelude.{
  ℕ, suc, ◌+◌, ◌≤◌, false, List, [], ◌∷◌, ◌≡◌, refl, ◌∙◌, length, get_or, arith,
}
use spring_os_mp.Prelude.Fold.{All}
use spring_os_mp.Journal.Blocks.{Disk, restart}
use spring_os_mp.Journal.Defs.{log_entries, entries_from, initlog}
use spring_os_mp.Journal.Install.{
  contains, IsHome, Logged, Between, overwrite, install_from-Installed,
}

-- After a restart on `d`, the blocks outside the log have the contents `g`.
abbrev pub RecoversTo : ℕ → ℕ → Disk → Disk → Type 0
RecoversTo start nlog g d = (c : ℕ) → IsHome start c → (initlog start nlog d).blocks.disk c ≡ g c

-- The disk that a header `h` describes: `bs` is to be installed, and the log holds it.
pub record Describes (start : ℕ) (bs : List ℕ) (g d : Disk) : Type 0 where
  pub entries : entries_from (d start) 0 (get_or (d start) 0 0) ≡ bs
  pub home : All (IsHome start) bs
  pub fits : length bs ≤ log_entries
  pub logged : Logged start 0 bs d g

pub recovers_described :
    (start nlog : ℕ) (bs : List ℕ) (g d : Disk)
    → Describes start bs g d
    → RecoversTo start nlog (overwrite bs g d) d
unfolding initlog
recovers_described start nlog bs g d v c home = rw (v.entries) (
    let t =
      install_from-Installed start 0 bs (restart d []) g v.home (omega (arith, v.fits)) v.logged in
    ground (arith, t.on_disk c))

pub recovers_empty :
    (start nlog : ℕ) (d : Disk) → get_or (d start) 0 0 ≡ 0 → RecoversTo start nlog d d
unfolding initlog
recovers_empty start nlog d e c home = rw e (ground arith)

-- A block of which the log holds a copy is outside the log.
pub not_contains :
    (start c : ℕ) (bs : List ℕ)
    → All (IsHome start) bs
    → start ≤ c
    → c ≤ start + log_entries
    → contains c bs ≡ false
not_contains start c [] home l h = refl
not_contains start c (b ∷ bs) home l h = ground (arith, home.0, not_contains start c bs home.1 l h)

Between-off :
    (start : ℕ) (bs : List ℕ) (g d0 d : Disk) (c : ℕ)
    → All (IsHome start) bs
    → Between bs g d0 d
    → start ≤ c
    → c ≤ start + log_entries
    → d c ≡ d0 c
Between-off start bs g d0 d c home b l h = ground (arith, b c, not_contains start c bs home l h)

Logged-Between :
    (start tail : ℕ) (bs : List ℕ) (g d0 d : Disk)
    → ((c : ℕ) → start ≤ c → c ≤ start + log_entries → d c ≡ d0 c)
    → tail + length bs ≤ log_entries
    → Logged start tail bs d0 g
    → Logged start tail bs d g
Logged-Between start tail [] g d0 d same fits l = tt
Logged-Between start tail (b ∷ bs) g d0 d same fits l = (
  same (start + tail + 1) (omega arith) (omega arith) ∙ l.0,
  Logged-Between start (suc tail) bs g d0 d same (omega arith) l.1,
)

-- A crash among the installing writes leaves a disk from which they are all made again.
pub Describes-Between :
    (start : ℕ) (bs : List ℕ) (g d0 d : Disk)
    → Describes start bs g d0
    → Between bs g d0 d
    → Describes start bs g d
Describes-Between start bs g d0 d v b =
    let same = λ (c : ℕ) (l : start ≤ c) (h : c ≤ start + log_entries).
      Between-off start bs g d0 d c v.home b l h in
    record {
      entries = rw (same start (omega arith) (omega arith)) v.entries;
      home = v.home;
      fits = v.fits;
      logged = Logged-Between start 0 bs g d0 d same (omega (arith, v.fits)) v.logged;
    }

pub overwrite-Between :
    (bs : List ℕ) (g d0 d : Disk) (c : ℕ)
    → Between bs g d0 d
    → overwrite bs g d c ≡ overwrite bs g d0 c
overwrite-Between bs g d0 d c b = ground (arith, b c)
