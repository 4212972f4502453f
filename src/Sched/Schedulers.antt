-- ===== src/Sched/Schedulers.antt =====
-- The scheduling functions of threads_sched.c keep the promise that the runtime relies on.
use mathlib.Core.List.{
  Perm, Mem, mem-cons_self, mem-cons_of_mem, Nodup, Nodup-cons, append-nil, append_assoc,
  map-append, perm_middle, perm_append_comm,
}
use mathlib.Core.List.Nodup
use mathlib.Core.List.Perm
use spring_os_mp.Prelude.{List, [], ◌∷◌, ◌++◌, ◌≡◌, ◌≢◌, foldl, subst, arith, inl, inr, Bool-cases}
use spring_os_mp.Prelude.Fold.{All}
use spring_os_mp.Prelude.Int.{ℤ, ltb_ℤ}
use spring_os_mp.Sched.Defs.{Thread, ReleaseQueueEntry, ThreadsSchedArgs, ThreadsSchedResult}
use spring_os_mp.Sched.Select.{schedule_default, schedule_hrrn, schedule_priority_rr}
use spring_os_mp.Sched.Deadline.{DmRelease, dm_release_visit, dm_release, schedule_dm}
use spring_os_mp.Sched.Optimal.{RunsToEnd, schedule_default-LeastId}
use spring_os_mp.Sched.Hrrn.{schedule_hrrn-HighestRatio}
use spring_os_mp.Sched.Priority.{
  DistinctIds, PriorityOutcome, nothing, to_the_end, sliced, schedule_priority_rr-PriorityOutcome,
}
use spring_os_mp.Sched.Allocation.{dm_select-DmOutcome}
use spring_os_mp.Sched.Release.{run_ids, release_ids}
use spring_os_mp.Sched.Conserve.{Scheduler}

-- The threads of two queues.
abbrev pub queued : List Thread → List ReleaseQueueEntry → List ℤ
queued run rel = run_ids run ++ release_ids rel

DistinctIds-of_Nodup : (q : List Thread) → Nodup (run_ids q) → DistinctIds q
DistinctIds-of_Nodup [] d = tt
DistinctIds-of_Nodup (x ∷ q) d =
    (fresh q (Nodup-cons.0 d).0, DistinctIds-of_Nodup q (Nodup-cons.0 d).1)
  where
    fresh : (q : List Thread) → ¬ Mem x.id (run_ids q) → All (λ y. y.id ≢ x.id) q
    fresh [] n = tt
    fresh (y ∷ q) n = (
      (λ e. n (subst (λ k. Mem k (y.id ∷ run_ids q)) e mem-cons_self)),
      fresh q (λ m. n (mem-cons_of_mem y.id m)),
    )

pub RunsToEnd-Perm :
    (a : ThreadsSchedArgs) (r : ThreadsSchedResult)
    → RunsToEnd a r
    → Perm (queued r.run_queue r.release_queue) (queued a.run_queue a.release_queue)
RunsToEnd-Perm a r (run, rel, _) = rw (run, rel) (Perm.refl _)

PriorityOutcome-Perm :
    (a : ThreadsSchedArgs) (r : ThreadsSchedResult)
    → PriorityOutcome a r
    → Perm (run_ids r.run_queue) (run_ids a.run_queue)
PriorityOutcome-Perm a r (nothing _ _ _ q) = rw q (Perm.refl _)
PriorityOutcome-Perm a r (to_the_end _ _ _ _ _ _ _ _ _ _ q) = rw q (Perm.refl _)
PriorityOutcome-Perm a r (sliced s pre post e _ _ _ _ _ _ _ q) =
    rw (q, e)
      (Perm.map (λ (t : Thread). t.id)
        (rw append_assoc (Perm.append_left pre (perm_append_comm post (s ∷ [])))))

foldl-dm_release :
    (now : ℤ) (es : List ReleaseQueueEntry) (d : DmRelease)
    → let r = foldl (dm_release_visit now) d es in
      Perm
        (queued r.run_queue r.release_queue)
        (queued d.run_queue d.release_queue ++ release_ids es)
unfolding dm_release_visit
foldl-dm_release now [] d = rw append-nil (Perm.refl _)
foldl-dm_release now (e ∷ es) d = elim (Bool-cases (ltb_ℤ now e.release_time)) [
  | inl later ↦
      simp later
        (Perm.trans (foldl-dm_release now es _) (simp (map-append, append_assoc) (Perm.refl _)))
  | inr here ↦ simp here (
      Perm.trans (foldl-dm_release now es _) (
        simp (map-append, append_assoc)
          (Perm.append_left (run_ids d.run_queue)
            (Perm.symm (perm_middle (release_ids d.release_queue) (release_ids es))))))
]

dm_release-Perm :
    (a : ThreadsSchedArgs)
    → let d = dm_release a in
      Perm (queued d.run_queue d.release_queue) (queued a.run_queue a.release_queue)
unfolding dm_release
dm_release-Perm a =
    Perm.trans (foldl-dm_release a.current_time a.release_queue _) (rw append-nil (Perm.refl _))

abbrev pub default_scheduler : Scheduler
default_scheduler = record {
  choose = schedule_default;
  keeps = λ a d. RunsToEnd-Perm a (schedule_default a) (schedule_default-LeastId a).1;
}

abbrev pub hrrn_scheduler : Scheduler
hrrn_scheduler = record {
  choose = schedule_hrrn;
  keeps = λ a d. RunsToEnd-Perm a (schedule_hrrn a) (schedule_hrrn-HighestRatio a).1;
}

priority_keeps_waiting :
    (a : ThreadsSchedArgs) → (schedule_priority_rr a).release_queue ≡ a.release_queue
unfolding schedule_priority_rr
priority_keeps_waiting a = ground arith

pub schedule_priority_rr-Perm :
    (a : ThreadsSchedArgs)
    → Nodup (queued a.run_queue a.release_queue)
    → Perm
        (queued (schedule_priority_rr a).run_queue (schedule_priority_rr a).release_queue)
        (queued a.run_queue a.release_queue)
schedule_priority_rr-Perm a d = rw (priority_keeps_waiting a) (
    Perm.append_right (release_ids a.release_queue) (
      PriorityOutcome-Perm a _ (
        schedule_priority_rr-PriorityOutcome a
          (DistinctIds-of_Nodup a.run_queue (Nodup.of_append_left _ d)))))

pub schedule_dm-Perm :
    (a : ThreadsSchedArgs)
    → Perm
        (queued (schedule_dm a).run_queue (schedule_dm a).release_queue)
        (queued a.run_queue a.release_queue)
unfolding schedule_dm
schedule_dm-Perm a =
    let (_, run, rel) = dm_select-DmOutcome a.current_time (dm_release a) in
    rw (run, rel) (dm_release-Perm a)

abbrev pub priority_rr_scheduler : Scheduler
priority_rr_scheduler = record { choose = schedule_priority_rr; keeps = schedule_priority_rr-Perm }

abbrev pub dm_scheduler : Scheduler
dm_scheduler = record { choose = schedule_dm; keeps = λ a d. schedule_dm-Perm a }
