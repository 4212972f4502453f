-- ===== src/Sched/Tests.antt =====
-- Runs of the scheduler's definitions, and its theorems at concrete queues.
use mathlib.Core.List.{
  Nodup, Nodup-nil, Nodup-cons, Mem, mem-cons_self, mem-cons, not-mem-nil, Perm,
}
use mathlib.Core.Logic.Or
use spring_os_mp.Prelude.{Bool, true, false, some, List, [], ◌∷◌, ◌++◌, ◌≡◌, ◌≢◌, refl}
use spring_os_mp.Prelude.Fold.{All}
use spring_os_mp.Prelude.Int.{ℤ, pos, ◌≤ℤ◌, ◌+ℤ◌, ◌-ℤ◌, ◌*ℤ◌}
use spring_os_mp.Sched.Defs.{Thread, ThreadsSchedArgs}
use spring_os_mp.Sched.Select.{schedule_default, schedule_hrrn, schedule_priority_rr}
use spring_os_mp.Sched.Deadline.{check_deadline_miss, dm_release, dm_select, schedule_dm}
use spring_os_mp.Sched.Runtime.{Runtime, release}
use spring_os_mp.Sched.Handlers
use spring_os_mp.Sched.Optimal.{RunsToEnd}
use spring_os_mp.Sched.Hrrn.{HighestRatio, schedule_hrrn-HighestRatio}
use spring_os_mp.Sched.Priority.{PriorityOutcome, schedule_priority_rr-PriorityOutcome}
use spring_os_mp.Sched.Allocation.{DmOutcome, dm_select-DmOutcome}
use spring_os_mp.Sched.Release.{ids, RenewedFrom, release-RenewedFrom}
use spring_os_mp.Sched.Lifecycle.{HoldsBut, switch_handler-HoldsBut, thread_exit-Holds}
use spring_os_mp.Sched.Conserve.{Holds}
use spring_os_mp.Sched.Schedulers.{default_scheduler, dm_scheduler}
use mathlib.Core.HLevel.{⊥_prop}

abbrev thread : ℤ → Bool → ℤ → ℤ → ℤ → Thread
thread i rt burst dl prio = record {
  buf_set = false;
  thrdstop_context_id = pos 0;
  id = i;
  is_real_time = rt;
  processing_time = burst;
  deadline = dl;
  period = dl;
  n = pos 2;
  remaining_time = burst;
  current_deadline = dl;
  priority = prio;
  arrival_time = pos 0;
  cbs = record {
    budget = pos 0;
    remaining_budget = pos 0;
    is_hard_rt = true;
    is_throttled = false;
    throttled_arrived_time = pos 0;
    throttle_new_deadline = pos 0;
  };
}

abbrev long : Thread
long = thread (pos 1) false (pos 8) (pos 20) (pos 3)

abbrev short : Thread
short = thread (pos 2) false (pos 3) (pos 9) (pos 3)

abbrev urgent : Thread
urgent = thread (pos 3) true (pos 4) (pos 6) (pos 100)

abbrev args : ThreadsSchedArgs
args = record {
  current_time = pos 1;
  time_quantum = pos 2;
  run_queue = long ∷ short ∷ urgent ∷ [];
  release_queue =
      record { thrd = thread (pos 4) true (pos 2) (pos 5) (pos 1); release_time = pos 3 } ∷ [];
}

abbrev machine : Runtime
machine = record {
  run_queue = args.run_queue;
  release_queue = args.release_queue;
  current = some (pos 1);
  threading_system_time = pos 1;
  allocated_time = 2;
}

default_runs_first : (schedule_default args).scheduled ≡ some long
unfolding schedule_default
default_runs_first = refl

hrrn_prefers_short : (schedule_hrrn args).scheduled ≡ some short
unfolding schedule_hrrn ◌+ℤ◌ ◌-ℤ◌ ◌*ℤ◌
hrrn_prefers_short = refl

priority_rr_rotates : (schedule_priority_rr args).run_queue ≡ short ∷ urgent ∷ long ∷ []
unfolding schedule_priority_rr
priority_rr_rotates = refl

-- The slice is cut at the release at time 3.
dm_cuts_slice : (schedule_dm args).allocated_time ≡ pos 2
unfolding schedule_dm ◌-ℤ◌
dm_cuts_slice = refl

late : check_deadline_miss args.run_queue (pos 9) ≡ some short
unfolding check_deadline_miss
late = refl

ids-Nodup : Nodup (ids machine)
ids-Nodup = Nodup-cons.1 (
  apart (λ e. cc) (apart (λ e. cc) (apart (λ e. cc) not-mem-nil)),
  Nodup-cons.1 (
    apart (λ e. cc) (apart (λ e. cc) not-mem-nil),
    Nodup-cons.1 (apart (λ e. cc) not-mem-nil, Nodup-cons.1 (not-mem-nil, Nodup-nil)),
  ),
)
  where
    apart : {i j : ℤ} {l : List ℤ} → i ≢ j → ¬ Mem i l → ¬ Mem i (j ∷ l)
    apart ne nm m = Or.elim ⊥_prop (mem-cons.0 m) ne nm

current_is_long : Handlers.entry_of machine.current machine.run_queue ≡ some long
unfolding Handlers.entry_of
current_is_long = refl

switch_handler-HoldsBut_example :
    HoldsBut
      (ids machine)
      (pos 1)
      (pos 2)
      (Handlers.switch_handler dm_scheduler.choose (pos 7) 2 machine)
switch_handler-HoldsBut_example =
    switch_handler-HoldsBut dm_scheduler (pos 7) 2 machine long ids-Nodup current_is_long

thread_exit-Holds_example :
    (rest : List ℤ) × Perm (pos 1 ∷ rest) (ids machine)
    × Holds rest (Handlers.thread_exit default_scheduler.choose (pos 7) (pos 1) machine)
thread_exit-Holds_example =
    thread_exit-Holds default_scheduler (pos 7) (pos 1) machine (pos 1) ids-Nodup refl mem-cons_self

dm_select-DmOutcome_example :
    DmOutcome (pos 1) (dm_release args) (dm_select (pos 1) (dm_release args))
    × ((dm_select (pos 1) (dm_release args)).run_queue ≡ (dm_release args).run_queue)
    × ((dm_select (pos 1) (dm_release args)).release_queue ≡ (dm_release args).release_queue)
dm_select-DmOutcome_example = dm_select-DmOutcome (pos 1) (dm_release args)

schedule_hrrn-HighestRatio_example :
    HighestRatio (pos 1) args.run_queue (schedule_hrrn args).scheduled
    × RunsToEnd args (schedule_hrrn args)
schedule_hrrn-HighestRatio_example = schedule_hrrn-HighestRatio args

schedule_priority_rr-PriorityOutcome_example : PriorityOutcome args (schedule_priority_rr args)
schedule_priority_rr-PriorityOutcome_example =
    schedule_priority_rr-PriorityOutcome args
      (((λ e. cc), ((λ e. cc), tt)), (((λ e. cc), tt), (tt, tt)))

-- The machine at the time of a release.
abbrev at_release : Runtime
at_release = record machine { threading_system_time = pos 3 }

release-RenewedFrom_example :
    (new : List Thread) × ((release at_release).run_queue ≡ at_release.run_queue ++ new)
    × All (RenewedFrom (pos 3) at_release.release_queue) new
    × All (λ e. pos 1 +ℤ pos 3 ≤ℤ e.release_time) (release at_release).release_queue
    × Perm (ids (release at_release)) (ids at_release)
release-RenewedFrom_example = release-RenewedFrom at_release
