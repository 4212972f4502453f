-- ===== src/Sched/Release.antt =====
-- `__release` of threads.c: which entries it moves, and what that leaves for `schedule_dm` to do.
use mathlib.Core.List.{append-nil, append_assoc, map-append, perm_middle}
use mathlib.Core.List.Perm
use spring_os_mp.Prelude.{arith}
use spring_os_mp.Prelude.{
  true, false, List, [], ◌∷◌, ◌++◌, ◌≡◌, refl, sym, ap, ◌∙◌, foldl, map, inl, inr, Bool-cases,
  if◌then◌else◌,
}
use mathlib.Core.List.{Perm, Mem, mem-cons_self, mem-cons_of_mem}
use spring_os_mp.Prelude.Fold.{All, All-map}
use spring_os_mp.Prelude.Int.{ℤ, ltb_ℤ, pos, ◌≤ℤ◌, ◌+ℤ◌}
use spring_os_mp.Sched.Defs.{Thread, ReleaseQueueEntry}
use spring_os_mp.Sched.Runtime.{Runtime, released, release_visit, release}
use spring_os_mp.Sched.Deadline.{dm_release, dm_release_visit, DmRelease}
use spring_os_mp.Sched.Handlers.{sched_args}
use spring_os_mp.Sched.Dm.{succ-le}

-- The entries that are due at `now`, and the others, each in the order of the queue.
unfoldable pub due : ℤ → List ReleaseQueueEntry → List ReleaseQueueEntry
due now [] = []
due now (e ∷ es) = if ltb_ℤ now e.release_time then due now es else e ∷ due now es

unfoldable pub waiting : ℤ → List ReleaseQueueEntry → List ReleaseQueueEntry
waiting now [] = []
waiting now (e ∷ es) = if ltb_ℤ now e.release_time then e ∷ waiting now es else waiting now es

foldl-release_visit :
    (now : ℤ) (es : List ReleaseQueueEntry) (run : List Thread) (w : List ReleaseQueueEntry)
    → foldl (release_visit now) (run, w) es
      ≡ (run ++ map released (due now es), w ++ waiting now es)
unfolding release_visit due waiting
foldl-release_visit now [] run w = rw (append-nil, append-nil)
foldl-release_visit now (e ∷ es) run w = elim (Bool-cases (ltb_ℤ now e.release_time)) [
  | inl later ↦ simp later (foldl-release_visit now es run (w ++ e ∷ []) ∙ simp append_assoc)
  | inr here ↦ simp here (foldl-release_visit now es (run ++ released e ∷ []) w ∙ simp append_assoc)
]

-- What `__release` does, by the entries that are due.
pub release_lem :
    (r : Runtime)
    → ((release r).run_queue
        ≡ r.run_queue ++ map released (due r.threading_system_time r.release_queue))
      × ((release r).release_queue ≡ waiting r.threading_system_time r.release_queue)
      × ((release r).threading_system_time ≡ r.threading_system_time)
      × ((release r).current ≡ r.current)
unfolding release
release_lem r =
    let p = foldl-release_visit r.threading_system_time r.release_queue r.run_queue [] in
    (ap (λ q. q.0) p, ap (λ q. q.1) p, refl, refl)

waiting-later :
    (now : ℤ) (es : List ReleaseQueueEntry)
    → All (λ e. ltb_ℤ now e.release_time ≡ true) (waiting now es)
unfolding waiting
waiting-later now [] = tt
waiting-later now (e ∷ es) = elim (Bool-cases (ltb_ℤ now e.release_time)) [
  | inl later ↦ simp later (refl, waiting-later now es)
  | inr here ↦ simp here (waiting-later now es)
]

foldl-dm_release_visit :
    (now : ℤ) (es : List ReleaseQueueEntry) (d : DmRelease)
    → All (λ e. ltb_ℤ now e.release_time ≡ true) es
    → ((foldl (dm_release_visit now) d es).run_queue ≡ d.run_queue)
      × ((foldl (dm_release_visit now) d es).release_queue ≡ d.release_queue ++ es)
unfolding dm_release_visit
foldl-dm_release_visit now [] d h = (refl, sym (append-nil _))
foldl-dm_release_visit now (e ∷ es) d h = simp (h.0) (
    let (run, rel) =
      foldl-dm_release_visit now es
        (record d {
          release_queue = d.release_queue ++ e ∷ [];
          closest_release_time =
              if ltb_ℤ e.release_time d.closest_release_time
              then e.release_time
              else d.closest_release_time;
        })
        h.1 in
    (run, rel ∙ append_assoc d.release_queue (e ∷ []) es))

-- Every entry that `__release` leaves is due later than now, so that on the queues after it the
-- release loop of `schedule_dm` moves nothing.
pub dm_release-release :
    (r : Runtime)
    → All (λ e. pos 1 +ℤ r.threading_system_time ≤ℤ e.release_time) (release r).release_queue
      × ((dm_release (sched_args (release r))).run_queue ≡ (release r).run_queue)
      × ((dm_release (sched_args (release r))).release_queue ≡ (release r).release_queue)
unfolding dm_release
dm_release-release r =
    let (_, rel, time, _) = release_lem r in
    let later = waiting-later r.threading_system_time r.release_queue in
    let (a, b) =
      foldl-dm_release_visit (release r).threading_system_time (release r).release_queue _
        (rw (rel, time) later) in
    (rw rel (All-map _ (λ e h. succ-le r.threading_system_time e.release_time h) later), a, b)

abbrev pub run_ids : List Thread → List ℤ
run_ids = map (λ t. t.id)

abbrev pub release_ids : List ReleaseQueueEntry → List ℤ
release_ids = map (λ e. e.thrd.id)

-- The IDs of the threads that the runtime holds, each as often as it is queued.
abbrev pub ids : Runtime → List ℤ
ids r = run_ids r.run_queue ++ release_ids r.release_queue

due-waiting-Perm :
    (now : ℤ) (es : List ReleaseQueueEntry)
    → Perm (run_ids (map released (due now es)) ++ release_ids (waiting now es)) (release_ids es)
unfolding due waiting released
due-waiting-Perm now [] = Perm.refl []
due-waiting-Perm now (e ∷ es) = elim (Bool-cases (ltb_ℤ now e.release_time)) [
  | inl later ↦ simp later (
      Perm.trans (perm_middle _ (release_ids (waiting now es)))
        (Perm.cons e.thrd.id (due-waiting-Perm now es)))
  | inr here ↦ simp here (Perm.cons e.thrd.id (due-waiting-Perm now es))
]

-- `__release` neither loses a thread nor makes one up.
pub release-Perm : (r : Runtime) → Perm (ids (release r)) (ids r)
release-Perm r =
    let (run, rel, _, _) = release_lem r in
    rw (run, rel, map-append, append_assoc)
      (Perm.append (Perm.refl (run_ids r.run_queue))
        (due-waiting-Perm r.threading_system_time r.release_queue))

-- A thread that one of the entries, which is due at `now`, had held: with all its processing time left,
-- and due again as long after the entry's release time as its deadline says; nothing else has changed.
pub record RenewedFrom (now : ℤ) (es : List ReleaseQueueEntry) (t : Thread) : Type 0 where
  pub from : ReleaseQueueEntry
  pub queued : Mem from es
  pub is_due : from.release_time ≤ℤ now
  pub full_time : t.remaining_time ≡ from.thrd.processing_time
  pub new_deadline : t.current_deadline ≡ from.release_time +ℤ from.thrd.deadline
  pub same_thread :
      record t {
        remaining_time = from.thrd.remaining_time;
        current_deadline = from.thrd.current_deadline;
      }
      ≡ from.thrd

later-or-due : (a b : ℤ) → ltb_ℤ a b ≡ false → b ≤ℤ a
later-or-due a b h = ground arith

RenewedFrom-behind :
    (now : ℤ) (e : ReleaseQueueEntry) (es : List ReleaseQueueEntry) (t : Thread)
    → RenewedFrom now es t
    → RenewedFrom now (e ∷ es) t
RenewedFrom-behind now e es t r = record {
  from = r.from;
  queued = mem-cons_of_mem e r.queued;
  is_due = r.is_due;
  full_time = r.full_time;
  new_deadline = r.new_deadline;
  same_thread = r.same_thread;
}

due-RenewedFrom :
    (now : ℤ) (es : List ReleaseQueueEntry) → All (RenewedFrom now es) (map released (due now es))
unfolding due released
due-RenewedFrom now [] = tt
due-RenewedFrom now (e ∷ es) =
    let rest = All-map _ (RenewedFrom-behind now e es) (due-RenewedFrom now es) in
    elim (Bool-cases (ltb_ℤ now e.release_time)) [
      | inl later ↦ simp later rest
      | inr here ↦
          let first : RenewedFrom now (e ∷ es) (released e) = record {
            from = e;
            queued = mem-cons_self;
            is_due = later-or-due now e.release_time here;
            full_time = refl;
            new_deadline = refl;
            same_thread = refl;
          } in
          simp here (first, rest)
    ]

-- For every state, `__release` keeps the run queue and appends to it threads each of which an entry of
-- the release queue had held whose release time has come, now with all its processing time left and with
-- the deadline counted from that release time; every entry that it leaves is due later than now; and
-- run queue and release queue hold together the same thread IDs as before, each as often.
pub release-RenewedFrom :
    (r : Runtime)
    → (new : List Thread) × ((release r).run_queue ≡ r.run_queue ++ new)
      × All (RenewedFrom r.threading_system_time r.release_queue) new
      × All (λ e. pos 1 +ℤ r.threading_system_time ≤ℤ e.release_time) (release r).release_queue
      × Perm (ids (release r)) (ids r)
release-RenewedFrom r = (
  map released (due r.threading_system_time r.release_queue),
  (release_lem r).0,
  due-RenewedFrom r.threading_system_time r.release_queue,
  (dm_release-release r).0,
  release-Perm r,
)
