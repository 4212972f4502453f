-- ===== src/Journal/Reserve.antt =====
-- System calls that run side by side in the log: `begin_op` reserves room for each, in any order of
-- their steps, and what `log_write` then does in a log of the size that mkfs gives it.
use spring_os_mp.Prelude.{
  ℕ, suc, ◌+◌, ◌*◌, ◌≤◌, ◌<◌, Bool, true, false, some, none, List, [], ◌∷◌, ◌++◌, ◌≡◌, refl, sym,
  ◌∙◌, subst, inl, inr, length, length-append, arith, ◌==◌, Bool-cases,
}
use spring_os_mp.Prelude.Fold.{All}
use spring_os_mp.Journal.Defs.{
  log_entries, log_size, max_op_blocks, Fs, begin_op, end_op_start, end_op_commit, absorb,
  log_write,
}
use spring_os_mp.Prelude.Fold.{All-append, All-split}
use spring_os_mp.Journal.Install.{contains}
use spring_os_mp.Prelude.{ltb}
use spring_os_mp.Prelude.{leb}
use spring_os_mp.Prelude.{if◌then◌else◌}
use spring_os_mp.Prelude.{◌||◌}
use spring_os_mp.Prelude.{false}
use spring_os_mp.Prelude.{Option}
use spring_os_mp.Prelude.{none}
use spring_os_mp.Prelude.{◌-◌}
use spring_os_mp.Prelude.{inl}
use spring_os_mp.Prelude.{inr}

-- The file system and, for each system call between `begin_op` and `end_op`, how often it has
-- called `log_write`.
pub record System : Type 0 where
  pub fs : Fs
  pub writes : List ℕ

-- A step of one of the system calls. A call writes `max_op_blocks` blocks at most.
pub data Step (s t : System) : Type 0 where
  begins : begin_op s.fs ≡ some t.fs → t.writes ≡ 0 ∷ s.writes → Step s t
  logs :
      (b u : ℕ) (pre post : List ℕ)
      → s.writes ≡ pre ++ u ∷ post
      → u < max_op_blocks
      → log_write s.fs b ≡ some t.fs
      → t.writes ≡ pre ++ suc u ∷ post
      → Step s t
  ends :
      (u : ℕ) (pre post : List ℕ) (do_commit : Bool)
      → s.writes ≡ pre ++ u ∷ post
      → end_op_start s.fs ≡ some (t.fs, do_commit)
      → t.writes ≡ pre ++ post
      → Step s t
  commits : s.fs.log.committing ≡ true → t.fs ≡ end_op_commit s.fs → t.writes ≡ s.writes → Step s t

pub data Reach (s : System) : System → Type 0 where
  here : Reach s s
  next : {t u : System} → Reach s t → Step t u → Reach s u

unfoldable pub sum : List ℕ → ℕ
sum [] = 0
sum (u ∷ us) = u + sum us

sum-append : (us vs : List ℕ) → sum (us ++ vs) ≡ sum us + sum vs
unfolding sum
sum-append [] vs = omega arith
sum-append (u ∷ us) vs = omega (arith, sum-append us vs)

pub length-absorb : (b : ℕ) (bs : List ℕ) → length (absorb b bs) ≤ length bs + 1
unfolding absorb
length-absorb b [] = omega arith
length-absorb b (c ∷ cs) = ground (arith, length-absorb b cs)

abbrev pub AtMost : ℕ → Type 0
AtMost u = u ≤ max_op_blocks

-- The log has room for what the open calls may still write.
pub record Reserved (s : System) : Type 0 where
  pub counted : s.fs.log.outstanding ≡ length s.writes
  pub room : length s.fs.log.block + max_op_blocks * length s.writes ≤ log_size + sum s.writes
  pub alone : s.fs.log.committing ≡ true → length s.writes ≡ 0
  pub limits : All AtMost s.writes

begin_op_lem :
    (f g : Fs)
    → begin_op f ≡ some g
    → (f.log.committing ≡ false)
      × (length f.log.block + (f.log.outstanding + 1) * max_op_blocks ≤ log_size)
      × (g.log.committing ≡ false)
      × (g.log.outstanding ≡ f.log.outstanding + 1)
      × (g.log.block ≡ f.log.block)
      × (g.log.size ≡ f.log.size)
unfolding begin_op
begin_op_lem f g e = ground arith

log_write_lem :
    (f g : Fs) (b : ℕ)
    → log_write f b ≡ some g
    → (g.log.committing ≡ f.log.committing)
      × (g.log.outstanding ≡ f.log.outstanding)
      × (g.log.block ≡ absorb b f.log.block)
      × (g.log.size ≡ f.log.size)
unfolding log_write
log_write_lem f g b e = ground arith

end_op_start_lem :
    (f g : Fs) (c : Bool)
    → end_op_start f ≡ some (g, c)
    → (g.log.outstanding + 1 ≡ f.log.outstanding)
      × (g.log.committing ≡ true → g.log.outstanding ≡ 0)
      × (g.log.block ≡ f.log.block)
      × (g.log.size ≡ f.log.size)
unfolding end_op_start
end_op_start_lem f g c e = ground arith

end_op_commit_lem :
    (f : Fs)
    → ((end_op_commit f).log.outstanding ≡ f.log.outstanding)
      × ((end_op_commit f).log.committing ≡ false)
      × ((end_op_commit f).log.block ≡ [])
      × ((end_op_commit f).log.size ≡ f.log.size)
unfolding end_op_commit
end_op_commit_lem f = elim (Bool-cases (length f.log.block == 0)) [
  | inl z ↦ rw z (refl, refl, empty f.log.block z, refl)
  | inr nz ↦ rw nz (refl, refl, refl, refl)
]
  where
    empty : (bs : List ℕ) → (length bs == 0) ≡ true → bs ≡ []
    empty [] h = refl
    empty (b ∷ bs) h = absurd (ground arith)

module _ {s t : System} (r : Reserved s) where
  begins-Reserved : begin_op s.fs ≡ some t.fs → t.writes ≡ 0 ∷ s.writes → Reserved t
  unfolding sum
  begins-Reserved e w =
      let (idle, room, idle', out, blk, _) = begin_op_lem s.fs t.fs e in
      record {
        counted = rw w (omega (arith, r.counted));
        room = rw (w, blk) (omega (arith, r.counted, r.room));
        alone = λ h. cc;
        limits = rw w (omega arith, r.limits);
      }

  logs-Reserved :
      (b u : ℕ) (pre post : List ℕ)
      → s.writes ≡ pre ++ u ∷ post
      → u < max_op_blocks
      → log_write s.fs b ≡ some t.fs
      → t.writes ≡ pre ++ suc u ∷ post
      → Reserved t
  unfolding sum
  logs-Reserved b u pre post w l e w' =
      let (busy, out, blk, _) = log_write_lem s.fs t.fs b e in
      let same : length t.writes ≡ length s.writes =
        rw (w, w')
          (omega (arith, length-append pre (u ∷ post), length-append pre (suc u ∷ post))) in
      let more : sum t.writes ≡ sum s.writes + 1 =
        rw (w, w') (omega (arith, sum-append pre (u ∷ post), sum-append pre (suc u ∷ post))) in
      let (below, rest) = All-split AtMost pre (u ∷ post) (subst (All AtMost) w r.limits) in
      record {
        counted = omega (arith, r.counted);
        room = rw blk (omega (arith, r.room, length-absorb b s.fs.log.block));
        alone = λ h. rw same (r.alone (sym busy ∙ h));
        limits = rw w' (All-append AtMost pre (suc u ∷ post) below (l, rest.1));
      }

  ends-Reserved :
      (u : ℕ) (pre post : List ℕ) (c : Bool)
      → s.writes ≡ pre ++ u ∷ post
      → end_op_start s.fs ≡ some (t.fs, c)
      → t.writes ≡ pre ++ post
      → Reserved t
  unfolding sum
  ends-Reserved u pre post c w e w' =
      let (out, busy, blk, _) = end_op_start_lem s.fs t.fs c e in
      let fewer : length t.writes + 1 ≡ length s.writes =
        rw (w, w') (omega (arith, length-append pre (u ∷ post), length-append pre post)) in
      let less : sum t.writes + u ≡ sum s.writes =
        rw (w, w') (omega (arith, sum-append pre (u ∷ post), sum-append pre post)) in
      let (below, rest) = All-split AtMost pre (u ∷ post) (subst (All AtMost) w r.limits) in
      let small : u ≤ max_op_blocks = rest.0 in
      record {
        counted = omega (arith, r.counted);
        room = rw blk (omega (arith, r.room));
        alone = λ h. omega (arith, busy h, r.counted);
        limits = rw w' (All-append AtMost pre post below rest.1);
      }

  commits-Reserved :
      s.fs.log.committing ≡ true → t.fs ≡ end_op_commit s.fs → t.writes ≡ s.writes → Reserved t
  unfolding sum
  commits-Reserved c e w =
      let (out, busy, blk, _) = end_op_commit_lem s.fs in
      record {
        counted = rw (e, w, out) r.counted;
        room = rw (e, w, blk) (omega (arith, r.alone c));
        alone = λ h. rw w (r.alone c);
        limits = rw w r.limits;
      }

Step-Reserved : {s t : System} → Step s t → Reserved s → Reserved t
Step-Reserved (begins e w) r = begins-Reserved r e w
Step-Reserved (logs b u pre post w l e w') r = logs-Reserved r b u pre post w l e w'
Step-Reserved (ends u pre post c w e w') r = ends-Reserved r u pre post c w e w'
Step-Reserved (commits c e w) r = commits-Reserved r c e w

-- In every system reached from one in which room is reserved, room is reserved: the log's entries
-- and what the open calls may still write fit in `LOGSIZE`, `outstanding` counts the open calls, and
-- none is open while the log commits.
pub Reach-Reserved : {s t : System} → Reserved s → Reach s t → Reserved t
Reach-Reserved r here = r
Reach-Reserved r (next before step) = Step-Reserved step (Reach-Reserved r before)

contains-absorb : (c b : ℕ) (bs : List ℕ) → contains c (absorb b bs) ≡ (b == c || contains c bs)
unfolding absorb
contains-absorb c b [] = refl
contains-absorb c b (d ∷ bs) = ground (arith, contains-absorb c b bs)

length-absorb_new :
    (b : ℕ) (bs : List ℕ)
    → length (absorb b bs) ≡ (if contains b bs then length bs else length bs + 1)
unfolding absorb
length-absorb_new b [] = refl
length-absorb_new b (d ∷ bs) = ground (arith, length-absorb_new b bs)

-- What `log_write` of a block does to the log, for a call that may still write. It panics where the log
-- has all the entries for which it has room, though the call has reserved one more. Else the log names
-- the block and those that it named, and has grown only if it did not name the block.
abbrev pub Logs : Fs → ℕ → Option Fs → Type 0
Logs f b none = length f.log.block ≡ log_entries
Logs f b (some g) =
    (length f.log.block < log_entries)
    × ((c : ℕ) → contains c g.log.block ≡ (b == c || contains c f.log.block))
    × (length g.log.block
        ≡ (if contains b f.log.block then length f.log.block else length f.log.block + 1))
    × (g.log.outstanding ≡ f.log.outstanding)

log_write_counts :
    (f : Fs) (b : ℕ)
    → f.log.size ≡ log_size
    → length f.log.block < log_size
    → 0 < f.log.outstanding
    → Logs f b (log_write f b)
unfolding log_write
log_write_counts f b size l o =
    let open_call : ltb f.log.outstanding 1 ≡ false = ground (arith, o) in
    let below : leb log_size (length f.log.block) ≡ false = ground (arith, l) in
    elim (Bool-cases (leb (f.log.size - 1) (length f.log.block))) [
      | inl y ↦ simp below (simp y (last_entry y))
      | inr n ↦ simp below (
          simp n (
            simp open_call (
              ground (arith, n, size),
              (λ c. contains-absorb c b f.log.block),
              length-absorb_new b f.log.block,
              refl,
            )))
    ]
  where
    last_entry : leb (f.log.size - 1) (length f.log.block) ≡ true → length f.log.block ≡ log_entries
    last_entry y = ground (arith, y, size, l)

sum-le : (us : List ℕ) → All AtMost us → sum us ≤ max_op_blocks * length us
unfolding sum
sum-le [] h = omega arith
sum-le (u ∷ us) h = let one : u ≤ 10 = h.0 in omega (arith, sum-le us h.1)

-- With the log of `LOGSIZE` blocks that mkfs makes, if room is reserved, and a call has written fewer than
-- `max_op_blocks` blocks: `log_write` panics only where the log has `LOGSIZE - 1` entries. Else the log has
-- fewer, names afterwards the block and those that it named, and has one entry more exactly if it did not
-- name the block.
pub log_write-Logs :
    (s : System) (b u : ℕ) (pre post : List ℕ)
    → Reserved s
    → s.fs.log.size ≡ log_size
    → s.writes ≡ pre ++ u ∷ post
    → u < max_op_blocks
    → Logs s.fs b (log_write s.fs b)
unfolding sum
log_write-Logs s b u pre post r size w l =
    let (below, rest) = All-split AtMost pre (u ∷ post) (subst (All AtMost) w r.limits) in
    let len : length s.writes ≡ length pre + suc (length post) =
      rw w (length-append pre (u ∷ post)) in
    let total : sum s.writes ≡ sum pre + (u + sum post) = rw w (sum-append pre (u ∷ post)) in
    log_write_counts s.fs b size (omega (arith, r.room, sum-le pre below, sum-le post rest.1))
      (omega (arith, r.counted))
