-- ===== src/Journal/Commit.antt =====
-- `commit` is atomic: a restart on any disk that it leaves on its way finds the old contents of all
-- blocks, or the new contents of all.
use spring_os_mp.Prelude.{
  ℕ, ◌+◌, ◌≤◌, ◌<◌, true, List, [], ◌∷◌, ◌≡◌, refl, ◌∙◌, ◌⊎◌, inl, inr, length, get_or, set, arith,
  ◌==◌, Bool-cases,
}
use spring_os_mp.Prelude.Fold.{All}
use spring_os_mp.Journal.Blocks.{Data, Disk, Blocks, put, bread, modify, bwrite}
use spring_os_mp.Journal.Defs.{log_entries, Fs, install_from, fill_from, write_log_from, commit}
use spring_os_mp.Journal.Install.{
  IsHome, Logged, Between, overwrite, Installed, install_from-Installed,
}
use spring_os_mp.Journal.Header.{header_round_trip}
use spring_os_mp.Journal.Recover.{RecoversTo, Describes, recovers_described, recovers_empty}
use spring_os_mp.Journal.WriteLog.{Copied, write_log_from-Copied}
use spring_os_mp.Journal.Recover.{Describes-Between, overwrite-Between}
use spring_os_mp.Journal.Install.{Logged-put, off_entries}

-- The state in which `commit` is called: the header on disk has no entries and room for those to
-- come, and the blocks to be committed are outside the log.
pub record IsReady (f : Fs) : Type 0 where
  pub empty : get_or (f.blocks.disk f.log.start) 0 0 ≡ 0
  pub room : 1 + length f.log.block ≤ length (f.blocks.cached f.log.start)
  pub fits : length f.log.block ≤ log_entries
  pub home : All (IsHome f.log.start) f.log.block

-- The contents of the blocks outside the log once the transaction has been committed.
abbrev pub committed : Fs → Disk
committed f = overwrite f.log.block f.blocks.cached f.blocks.disk

-- A restart on `d` finds the state before the transaction, or the one after it.
abbrev pub IsAtomic : Fs → ℕ → Disk → Type 0
IsAtomic f nlog d =
    RecoversTo f.log.start nlog f.blocks.disk d ⊎ RecoversTo f.log.start nlog (committed f) d

RecoversTo-map :
    (start nlog : ℕ) (g g' d : Disk)
    → ((c : ℕ) → IsHome start c → g c ≡ g' c)
    → RecoversTo start nlog g d
    → RecoversTo start nlog g' d
RecoversTo-map start nlog g g' d same r c home = r c home ∙ same c home

-- The header block that `write_head` makes of `h`.
abbrev header : List ℕ → Data → Data
header bs h = fill_from (set h 0 (length bs)) 0 bs

-- What `write_head` does, with the entries `bs`.
abbrev write_header : ℕ → List ℕ → Blocks → Blocks
write_header start bs s = bwrite (modify s start (header bs (bread s start))) start

put_self : (f : Disk) (b : ℕ) (d : Data) → put f b d b ≡ d
put_self f b d = ground arith

-- Writing the header commits: from then on the disk describes the transaction.
write_header-Describes :
    (start : ℕ) (bs : List ℕ) (s : Blocks) (g : Disk)
    → All (IsHome start) bs
    → length bs ≤ log_entries
    → 1 + length bs ≤ length (s.cached start)
    → Logged start 0 bs s.disk g
    → Describes start bs g (write_header start bs s).disk
write_header-Describes start bs s g home fits room l =
    let h : Data = header bs (s.cached start) in
    let here : (write_header start bs s).disk start ≡ h =
      put_self s.disk start _ ∙ put_self s.cached start h in
    record {
      entries = rw here (header_round_trip (s.cached start) bs room).1;
      home = home;
      fits = fits;
      logged = Logged-put start 0 bs s.disk g start _ (inl (omega arith)) (omega arith) l;
    }

write_header-disk :
    (start : ℕ) (bs : List ℕ) (s : Blocks) (c : ℕ)
    → IsHome start c
    → (write_header start bs s).disk c ≡ s.disk c
write_header-disk start bs s c home = ground arith

-- Writing it with no entries clears the log.
write_header_empty :
    (start : ℕ) (s : Blocks) → get_or ((write_header start [] s).disk start) 0 0 ≡ 0
unfolding fill_from
write_header_empty start s =
    let here : (write_header start [] s).disk start ≡ set (s.cached start) 0 0 =
      put_self s.disk start _ ∙ put_self s.cached start _ in
    rw here (zero_first (s.cached start))
  where
    zero_first : (h : Data) → get_or (set h 0 0) 0 0 ≡ 0
    zero_first [] = refl
    zero_first (x ∷ h) = refl

module _ (f : Fs) (nlog : ℕ) (ready : IsReady f) where
  open f.log use {start, block as bs}

  abbrev logged : Blocks
  logged = write_log_from start 0 bs f.blocks

  abbrev headed : Blocks
  headed = write_header start bs logged

  abbrev installed : Blocks
  installed = install_from start 0 bs headed

  copied : Copied start 0 bs f.blocks logged
  copied = write_log_from-Copied start 0 bs f.blocks ready.home (omega (arith, ready.fits))

  headed-Describes : Describes start bs f.blocks.cached headed.disk
  headed-Describes =
      write_header-Describes start bs logged f.blocks.cached ready.home ready.fits
        (rw (copied.in_cache start (inl (omega arith))) ready.room) copied.logged_disk

  headed-committed :
      (c : ℕ) → IsHome start c → overwrite bs f.blocks.cached headed.disk c ≡ committed f c
  headed-committed c home =
      ground
        (arith, write_header-disk start bs logged c home, copied.on_disk c (off_entries' c home))
    where
      off_entries' : (c : ℕ) → IsHome start c → (c ≤ start + 0) ⊎ (start + log_entries < c)
      off_entries' c (inl h) = inl (omega arith)
      off_entries' c (inr h) = inr h

  install : Installed bs f.blocks.cached headed installed
  install =
      install_from-Installed start 0 bs headed f.blocks.cached ready.home
        (omega (arith, ready.fits))
        (Logged-put start 0 bs logged.cached f.blocks.cached start _ (inl (omega arith))
          (omega (arith, ready.fits)) copied.logged_cache)

  -- A crash before the header is written.
  before :
      (d : Disk)
      → ((c : ℕ) → (c ≤ start) ⊎ (start + log_entries < c) → d c ≡ f.blocks.disk c)
      → IsAtomic f nlog d
  before d same = inl (
      RecoversTo-map start nlog d f.blocks.disk d (λ c home. same c (off_entries start c home))
        (recovers_empty start nlog d (rw (same start (inl (omega arith))) ready.empty)))

  -- A crash after it.
  after : (d : Disk) → Between bs f.blocks.cached headed.disk d → IsAtomic f nlog d
  after d b = inr (
      RecoversTo-map start nlog (overwrite bs f.blocks.cached d) (committed f) d
        (λ c home. overwrite-Between bs f.blocks.cached headed.disk d c b ∙ headed-committed c home)
        (recovers_described start nlog bs f.blocks.cached d
          (Describes-Between start bs f.blocks.cached headed.disk d headed-Describes b)))

  installed-committed : (c : ℕ) → IsHome start c → installed.disk c ≡ committed f c
  installed-committed c home = install.on_disk c ∙ headed-committed c home

  -- A crash once the log has been cleared.
  cleared : IsAtomic f nlog (write_header start [] installed).disk
  cleared = inr (
      RecoversTo-map start nlog _ (committed f) _
        (λ c home. write_header-disk start [] installed c home ∙ installed-committed c home)
        (recovers_empty start nlog _ (write_header_empty start installed)))

  images_IsAtomic :
      f.blocks.images ≡ [] → All (IsAtomic f nlog) (write_header start [] installed).images
  images_IsAtomic none_yet = (
    cleared,
    install.on_the_way (IsAtomic f nlog) after (
      after headed.disk (λ c. inl refl),
      copied.on_the_way (IsAtomic f nlog) before (rw none_yet tt),
    ),
  )

-- The whole of `commit`, for a log with entries.
abbrev full_commit : Fs → Fs
full_commit f = record f {
  log = record f.log { block = [] };
  blocks = write_header f.log.start [] (
      install_from f.log.start 0 f.log.block
        (write_header f.log.start f.log.block (write_log_from f.log.start 0 f.log.block f.blocks)));
}

commit_lem : (f : Fs) → ((f.log.block ≡ []) × (commit f ≡ f)) ⊎ (commit f ≡ full_commit f)
unfolding commit
commit_lem f = elim (Bool-cases (length f.log.block == 0)) [
  | inl none ↦ inl (length-eq-zero f.log.block none, rw none refl)
  | inr some ↦ inr (rw some refl)
]
  where
    length-eq-zero : (bs : List ℕ) → (length bs == 0) ≡ true → bs ≡ []
    length-eq-zero [] h = refl
    length-eq-zero (b ∷ bs) h = absurd (ground arith)

-- For a log of `LOGSIZE` blocks, as mkfs makes it, from a state that is ready to commit, with no write
-- made yet: whatever disk a crash leaves on the
-- way through `commit`, `initlog` recovers from it, for all blocks outside the log at once, either
-- the contents of before the transaction or those that the transaction committed.
pub commit-IsAtomic :
    (f : Fs) (nlog : ℕ)
    → IsReady f
    → f.blocks.images ≡ []
    → All (IsAtomic f nlog) (commit f).blocks.images
commit-IsAtomic f nlog ready none_yet = elim (commit_lem f) [
  | inl (_, e) ↦ rw (e, none_yet) tt
  | inr e ↦ rw e (images_IsAtomic f nlog ready none_yet)
]

-- For a log of `LOGSIZE` blocks, as mkfs makes it, from a state that is ready to commit, `commit` brings the logged blocks to their places on the
-- disk, leaves the other blocks outside the log alone, and leaves a log with no entries, in memory
-- and on the disk.
pub commit-committed :
    (f : Fs)
    → IsReady f
    → ((c : ℕ) → IsHome f.log.start c → (commit f).blocks.disk c ≡ committed f c)
      × (get_or ((commit f).blocks.disk f.log.start) 0 0 ≡ 0)
      × ((commit f).log.block ≡ [])
commit-committed f ready = elim (commit_lem f) [
  | inl (none, e) ↦ rw (e) ((λ c home. rw none refl), ready.empty, none)
  | inr e ↦ rw e (
    (λ c home.
        write_header-disk f.log.start [] (installed f 0 ready) c home
        ∙ installed-committed f 0 ready c home),
    write_header_empty f.log.start (installed f 0 ready),
    refl,
  )
]
