-- ===== src/Journal/Tests.antt =====
-- The log at concrete states.
use spring_os_mp.Prelude.{
  ℕ, true, false, some, List, [], ◌∷◌, ◌≡◌, refl, length, get_or, replicate, arith, inr,
}
use spring_os_mp.Prelude.Fold.{All}
use spring_os_mp.Journal.Blocks.{Disk, put}
use spring_os_mp.Journal.Defs.{Fs, commit, log_write, begin_op, absorb}
use spring_os_mp.Journal.Install.{IsHome}
use spring_os_mp.Journal.Commit.{IsReady, IsAtomic, committed, commit-IsAtomic, commit-committed}
use spring_os_mp.Journal.Reserve.{
  System, Step, Reach, Reserved, begins, logs, here, next, Reach-Reserved, Logs, log_write-Logs,
}
use spring_os_mp.Journal.Reserve

abbrev zeros : Disk
zeros b = replicate 31 0

abbrev one_dirty : Fs
one_dirty = record {
  log = record { start = 2; size = 30; outstanding = 0; committing = true; block = 40 ∷ [] };
  blocks = record { cached = put zeros 40 (7 ∷ []); disk = zeros; images = [] };
}

one_dirty-IsReady : IsReady one_dirty
one_dirty-IsReady = record {
  empty = refl;
  room = omega arith;
  fits = omega arith;
  home = (inr (omega arith), tt);
}

commit_writes_home : (commit one_dirty).blocks.disk 40 ≡ 7 ∷ []
unfolding commit
commit_writes_home = refl

-- One write of the log block, two of the header, one of the block itself.
commit_makes_four_writes : length (commit one_dirty).blocks.images ≡ 4
unfolding commit
commit_makes_four_writes = refl

commit-IsAtomic_example : All (IsAtomic one_dirty 30) (commit one_dirty).blocks.images
commit-IsAtomic_example = commit-IsAtomic one_dirty 30 one_dirty-IsReady refl

commit-committed_example :
    ((c : ℕ) → IsHome 2 c → (commit one_dirty).blocks.disk c ≡ committed one_dirty c)
    × (get_or ((commit one_dirty).blocks.disk 2) 0 0 ≡ 0)
    × ((commit one_dirty).log.block ≡ [])
commit-committed_example = commit-committed one_dirty one_dirty-IsReady

abbrev fs_at : ℕ → ℕ → List ℕ → Fs
fs_at size outstanding block = record {
  log = record {
    start = 2;
    size = size;
    outstanding = outstanding;
    committing = false;
    block = block;
  };
  blocks = record { cached = zeros; disk = zeros; images = [] };
}

abbrev quiet : System
quiet = record { fs = fs_at 30 0 []; writes = [] }

quiet-Reserved : Reserved quiet
unfolding Reserve.sum
quiet-Reserved = record { counted = refl; room = omega arith; alone = λ h. cc; limits = tt }

abbrev opened : System
opened = record { fs = fs_at 30 1 []; writes = 0 ∷ [] }

opens : Reach quiet opened
unfolding begin_op
opens = next here (begins refl refl)

Reach-Reserved_example : Reserved opened
Reach-Reserved_example = Reach-Reserved quiet-Reserved opens

log_write-Logs_example : Logs opened.fs 40 (log_write opened.fs 40)
log_write-Logs_example =
    log_write-Logs opened 40 0 [] [] (Reach-Reserved quiet-Reserved opens) refl refl (omega arith)

-- The log names what was written, once.
log_write_absorbs : log_write (fs_at 30 1 (40 ∷ 41 ∷ [])) 41 ≡ some (fs_at 30 1 (40 ∷ 41 ∷ []))
unfolding log_write absorb
log_write_absorbs = refl
