-- ===== src/Sched/Deadline.antt =====
-- `schedule_dm` and `__check_deadline_miss` of mp3/xv6/user/threads_sched.c.
use spring_os_mp.Prelude.{Bool, Option, some, none, List, [], ◌∷◌, ◌++◌, foldl, if◌then◌else◌, not}
use spring_os_mp.Prelude.Int.{ℤ, pos, ltb_ℤ, ◌-ℤ◌}
use spring_os_mp.Sched.Defs.{Thread, ReleaseQueueEntry, ThreadsSchedArgs, ThreadsSchedResult, eqb_ℤ}

-- `__INT_MAX__`
abbrev pub int_max : ℤ
int_max = pos 2147483647

-- A thread of the run queue that has missed its deadline.
unfoldable pub has_missed : ℤ → Thread → Bool
has_missed now th = not (ltb_ℤ now th.current_deadline)

-- The body of the loop of `__check_deadline_miss`.
unfoldable pub miss_visit : ℤ → Option Thread → Thread → Option Thread
unfolding has_missed
miss_visit now none th = if has_missed now th then some th else none
miss_visit now (some s) th =
    if has_missed now th then if ltb_ℤ th.id s.id then some th else some s else some s

unfoldable pub check_deadline_miss : List Thread → ℤ → Option Thread
unfolding miss_visit
check_deadline_miss run_queue now = foldl (miss_visit now) none run_queue

-- `__dm_thread_cmp`: negative where `a` goes first.
unfoldable pub dm_thread_cmp : Thread → Thread → ℤ
dm_thread_cmp a b = if eqb_ℤ a.deadline b.deadline then a.id -ℤ b.id else a.deadline -ℤ b.deadline

-- The variables of the release loop of `schedule_dm`.
pub record DmRelease : Type 0 where
  pub run_queue : List Thread
  pub release_queue : List ReleaseQueueEntry
  pub closest_release_time : ℤ

-- The body of that loop: an entry that is due moves its thread to the run queue, as it is.
unfoldable pub dm_release_visit : ℤ → DmRelease → ReleaseQueueEntry → DmRelease
dm_release_visit now d e =
    if ltb_ℤ now e.release_time
    then record d {
      release_queue = d.release_queue ++ e ∷ [];
      closest_release_time =
          if ltb_ℤ e.release_time d.closest_release_time
          then e.release_time
          else d.closest_release_time;
    }
    else record d { run_queue = d.run_queue ++ e.thrd ∷ [] }

unfoldable pub dm_release : ThreadsSchedArgs → DmRelease
unfolding dm_release_visit
dm_release a =
    foldl (dm_release_visit a.current_time)
      (record { run_queue = a.run_queue; release_queue = []; closest_release_time = int_max })
      a.release_queue

-- The body of the loop that selects a thread.
unfoldable pub dm_visit : Option Thread → Thread → Option Thread
unfolding dm_thread_cmp
dm_visit none th = if th.is_real_time then some th else none
dm_visit (some s) th =
    if th.is_real_time
    then if ltb_ℤ (dm_thread_cmp th s) (pos 0) then some th else some s
    else some s

unfoldable pub next_release_time : List ReleaseQueueEntry → ℤ
next_release_time = foldl (λ t e. if ltb_ℤ e.release_time t then e.release_time else t) int_max

abbrev min_ℤ : ℤ → ℤ → ℤ
min_ℤ a b = if ltb_ℤ b a then b else a

-- `safe_alloc`, raised to 0 where it is not positive.
unfoldable pub dm_allocate : Thread → ℤ → ℤ → ℤ
dm_allocate s next now =
    let safe_alloc = min_ℤ (min_ℤ s.remaining_time (s.current_deadline -ℤ now)) (next -ℤ now) in
    if ltb_ℤ (pos 0) safe_alloc then safe_alloc else pos 0

-- The result with the queues that the release loop left.
abbrev dm_result : DmRelease → Option Thread → ℤ → ThreadsSchedResult
dm_result d s t = record {
  scheduled = s;
  allocated_time = t;
  run_queue = d.run_queue;
  release_queue = d.release_queue;
}

-- Steps 4 and 5: the thread that the third loop selected, if any.
unfoldable pub dm_selected : ℤ → DmRelease → Option Thread → ThreadsSchedResult
unfolding next_release_time dm_allocate
dm_selected now d none = dm_result d none (pos 0)
dm_selected now d (some s) =
    dm_result d (some s) (dm_allocate s (next_release_time d.release_queue) now)

-- The test of an empty run queue, on that queue.
unfoldable pub dm_nonempty : ℤ → DmRelease → List Thread → ThreadsSchedResult
unfolding dm_selected dm_visit
dm_nonempty now d [] = dm_result d none (d.closest_release_time -ℤ now)
dm_nonempty now d (th ∷ ths) = dm_selected now d (foldl dm_visit none (th ∷ ths))

-- The test of a missed deadline, on what `__check_deadline_miss` returned.
unfoldable pub dm_missed : ℤ → DmRelease → Option Thread → ThreadsSchedResult
unfolding dm_nonempty
dm_missed now d (some m) = dm_result d (some m) (pos 0)
dm_missed now d none = dm_nonempty now d d.run_queue

-- What follows the release loop.
unfoldable pub dm_select : ℤ → DmRelease → ThreadsSchedResult
unfolding check_deadline_miss dm_missed
dm_select now d = dm_missed now d (check_deadline_miss d.run_queue now)

unfoldable pub schedule_dm : ThreadsSchedArgs → ThreadsSchedResult
unfolding dm_release dm_select
schedule_dm a = dm_select a.current_time (dm_release a)
