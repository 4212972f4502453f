-- ===== src/Sched/Runtime.antt =====
-- The thread runtime of mp3/xv6/user/threads.c. The two queues, the clock, `current` and
-- `allocated_time` are one record. The scheduling function is a parameter, as the build chooses it.
-- `current` is the ID of a thread of the run queue, or `none` for the queue's head. What the kernel
-- returns (the ticks of `cancelthrdstop`, the context that `thrdstop` gives) is an argument. Memory
-- and messages are left out; a call that does not return ends in an `Outcome`.
use spring_os_mp.Prelude.{
  ℕ, ◌-◌, ◌^◌, Bool, false, Option, some, none, List, [], ◌∷◌, ◌++◌, foldl, if◌then◌else◌,
}
use spring_os_mp.Prelude.Int.{ℤ, pos, negsuc, ltb_ℤ, ◌+ℤ◌}
use spring_os_mp.Sched.Defs.{Cbs, Thread, ReleaseQueueEntry, eqb_ℤ}

pub record Runtime : Type 0 where
  pub run_queue : List Thread
  pub release_queue : List ReleaseQueueEntry
  pub current : Option ℤ
  pub threading_system_time : ℤ
  pub allocated_time : ℕ

-- `thread_create`: the next ID, and the new counter.
unfoldable pub thread_create : ℤ → Bool → ℤ → ℤ → ℤ → Cbs → Thread × ℤ
thread_create next_id is_real_time processing_time period n cbs = (
  record {
    buf_set = false;
    thrdstop_context_id = pos 0;
    id = next_id;
    is_real_time = is_real_time;
    processing_time = processing_time;
    deadline = period;
    period = period;
    n = n;
    remaining_time = processing_time;
    current_deadline = pos 0;
    priority = pos 100;
    arrival_time = pos 30000;
    cbs = cbs;
  },
  next_id +ℤ pos 1,
)

unfoldable pub thread_set_priority : Thread → ℤ → Thread
thread_set_priority t p = record t { priority = p }

unfoldable pub init_thread_cbs : Thread → ℤ → Bool → Thread
init_thread_cbs t budget is_hard_rt = record t {
  cbs = record {
    budget = budget;
    remaining_budget = budget;
    is_hard_rt = is_hard_rt;
    is_throttled = false;
    throttled_arrived_time = pos 0;
    throttle_new_deadline = pos 0;
  };
}

-- The thread as `thread_add_at` leaves it.
unfoldable pub arriving : Thread → ℤ → Thread
arriving t arrival_time =
    if t.is_real_time
    then record t { arrival_time = arrival_time; current_deadline = arrival_time +ℤ t.deadline }
    else record t { arrival_time = arrival_time }

unfoldable pub thread_add_at : Runtime → Thread → ℤ → Runtime
unfolding arriving
thread_add_at r t arrival_time = record r {
  release_queue =
      r.release_queue
      ++ (record { thrd = arriving t arrival_time; release_time = arrival_time } ∷ []);
}

-- A thread as `__release` puts it on the run queue.
unfoldable pub released : ReleaseQueueEntry → Thread
released e = record e.thrd {
  remaining_time = e.thrd.processing_time;
  current_deadline = e.release_time +ℤ e.thrd.deadline;
}

-- The body of the loop of `__release`; the queue of entries that stay is rebuilt in order.
unfoldable pub release_visit :
    ℤ
    → List Thread × List ReleaseQueueEntry
    → ReleaseQueueEntry
    → List Thread × List ReleaseQueueEntry
unfolding released
release_visit now (run, waiting) e =
    if ltb_ℤ now e.release_time then (run, waiting ++ e ∷ []) else (run ++ released e ∷ [], waiting)

unfoldable pub release : Runtime → Runtime
unfolding release_visit
release r =
    let (run, waiting) =
      foldl (release_visit r.threading_system_time) (r.run_queue, []) r.release_queue in
    record r { run_queue = run; release_queue = waiting }

-- The neighbour before a thread, the head of the queue for the first one.
unfoldable pub prev_of : Option ℤ → ℤ → List Thread → Option ℤ
prev_of before i [] = none
prev_of before i (t ∷ ts) =
    let rest = prev_of (some t.id) i ts in if eqb_ℤ t.id i then before else rest

-- `list_entry(current, …)`.
unfoldable pub find : ℤ → List Thread → Option Thread
find i [] = none
find i (t ∷ ts) = let rest = find i ts in if eqb_ℤ t.id i then some t else rest

-- A write to fields of the thread that `list_entry` found.
unfoldable pub update : ℤ → (Thread → Thread) → List Thread → List Thread
update i f [] = []
update i f (t ∷ ts) = if eqb_ℤ t.id i then f t ∷ ts else t ∷ update i f ts

-- The conversion of an `int` to `uint64`.
unfoldable pub to_uint64 : ℤ → ℕ
to_uint64 (pos n) = n
to_uint64 (negsuc n) = 2 ^ 64 - 1 - n

-- How a handler ends, since it never returns: the program exits, control goes back to the main
-- thread, or a thread runs for `allocated_time` ticks, from the start or where it stopped.
pub data Outcome : Type 0 where
  back_to_main : Runtime → Outcome
  missed_in_switch : ℤ → Outcome
  missed_in_dispatch : ℤ → Outcome
  no_context : Outcome
  invalid : Outcome
  started : ℤ → Runtime → Outcome
  resumed : ℤ → Runtime → Outcome
