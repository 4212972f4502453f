-- ===== src/Sched/Handlers.antt =====
-- The handlers of mp3/xv6/user/threads.c: what happens when a slice ends, when a thread returns,
-- and in one round of the main loop. `ctx` is the context ID that `thrdstop` gives to a thread that
-- starts.
use spring_os_mp.Prelude.{
  ℕ, Bool, true, Option, some, none, List, [], ◌∷◌, ◌++◌, if◌then◌else◌, ◌&&◌, ◌||◌, ◌==◌,
}
use spring_os_mp.Prelude.Int.{ℤ, pos, ltb_ℤ, ◌+ℤ◌, ◌-ℤ◌}
use spring_os_mp.Sched.Defs.{Thread, ThreadsSchedArgs, ThreadsSchedResult, eqb_ℤ, list_del}
use spring_os_mp.Sched.Runtime.{
  Runtime, Outcome, back_to_main, missed_in_switch, missed_in_dispatch, no_context, invalid,
  started, resumed, thread_add_at, release, prev_of, find, update, to_uint64,
}

-- `TIME_QUANTUM`
abbrev time_quantum : ℤ
time_quantum = pos 2

-- What `__schedule` passes to the scheduling function.
abbrev pub sched_args : Runtime → ThreadsSchedArgs
sched_args r = record {
  current_time = r.threading_system_time;
  time_quantum = time_quantum;
  run_queue = r.run_queue;
  release_queue = r.release_queue;
}

abbrev scheduled_id : Option Thread → Option ℤ
scheduled_id none = none
scheduled_id (some s) = some s.id

unfoldable pub schedule_with : Runtime → ThreadsSchedResult → Runtime
unfolding to_uint64
schedule_with r s = record {
  run_queue = s.run_queue;
  release_queue = s.release_queue;
  current = scheduled_id s.scheduled;
  threading_system_time = r.threading_system_time;
  allocated_time = to_uint64 s.allocated_time;
}

-- The part of `__dispatch` for the thread that `current` points to.
unfoldable pub dispatch_thread : ℤ → Runtime → Option Thread → Outcome
unfolding update
dispatch_thread ctx r none = invalid
dispatch_thread ctx r (some t) =
    if t.is_real_time && r.allocated_time == 0
    then missed_in_dispatch t.id
    else if t.buf_set
    then resumed t.id r
    else if ltb_ℤ ctx (pos 0)
    then no_context
    else started t.id (record r {
      run_queue =
          update t.id (λ th. record th { buf_set = true; thrdstop_context_id = ctx }) r.run_queue;
    })

-- A cursor of a queue, followed to its thread.
unfoldable pub entry_of : Option ℤ → List Thread → Option Thread
unfolding find
entry_of none q = none
entry_of (some i) q = find i q

-- `__dispatch`; the caller goes back to the main thread where it returns.
unfoldable pub dispatch_at : ℤ → Runtime → Option ℤ → Outcome
unfolding dispatch_thread entry_of
dispatch_at ctx r none = back_to_main r
dispatch_at ctx r (some i) = dispatch_thread ctx r (entry_of (some i) r.run_queue)

unfoldable pub dispatch : ℤ → Runtime → Outcome
unfolding dispatch_at
dispatch ctx r = dispatch_at ctx r r.current

-- `list_del` of a thread by a function that has moved `current` to the entry before it.
unfoldable pub unlink : Runtime → ℤ → Runtime
unfolding prev_of list_del
unlink r i = record r { current = prev_of none i r.run_queue; run_queue = list_del i r.run_queue }

-- The budget is refilled on the object that is queued by then; here it is refilled before.
unfoldable pub refill_budget : Thread → Thread
refill_budget t =
    if t.cbs.is_hard_rt
    then t
    else record t { cbs = record t.cbs { remaining_budget = t.cbs.budget } }

-- `__finish_current` and `__rt_finish_current` for a thread that has cycles left.
unfoldable pub next_cycle : Runtime → Thread → Runtime
unfolding unlink thread_add_at refill_budget
next_cycle r t =
    thread_add_at (unlink r t.id) (if t.is_real_time then refill_budget t else t) t.current_deadline

-- What `switch_handler` does to the thread that ran.
unfoldable pub charge : ℕ → Thread → Thread
charge elapsed t = record t {
  remaining_time = t.remaining_time -ℤ pos elapsed;
  cbs =
      if t.cbs.is_hard_rt
      then t.cbs
      else record t.cbs { remaining_budget = t.cbs.remaining_budget -ℤ pos elapsed };
}

-- The test for a missed deadline in `switch_handler`.
unfoldable pub misses : ℤ → Thread → Bool
misses now t =
    t.is_real_time
    && (ltb_ℤ t.current_deadline now
        || eqb_ℤ now t.current_deadline && ltb_ℤ (pos 0) t.remaining_time)

-- To the end of the run queue.
unfoldable pub rotate : Runtime → Thread → Runtime
unfolding unlink
rotate r t = let r' = unlink r t.id in record r' { run_queue = r'.run_queue ++ t ∷ [] }

module _ (scheduler : ThreadsSchedArgs → ThreadsSchedResult) where
  unfoldable pub schedule : Runtime → Runtime
  unfolding schedule_with
  schedule r = schedule_with r (scheduler (sched_args r))

  -- `__thread_exit`
  unfoldable pub exit_thread : ℤ → Runtime → ℤ → Outcome
  unfolding unlink schedule dispatch
  exit_thread ctx r i = dispatch ctx (schedule (unlink r i))

  -- `thread_exit`, with the ticks that `cancelthrdstop` returns.
  unfoldable pub thread_exit_at : ℤ → ℤ → Runtime → Option ℤ → Outcome
  unfolding exit_thread release
  thread_exit_at ctx consumed r none = invalid
  thread_exit_at ctx consumed r (some i) =
      exit_thread ctx
        (release (record r { threading_system_time = r.threading_system_time +ℤ consumed })) i

  unfoldable pub thread_exit : ℤ → ℤ → Runtime → Outcome
  unfolding thread_exit_at
  thread_exit ctx consumed r = thread_exit_at ctx consumed r r.current

  -- The end of `switch_handler`.
  unfoldable pub continue : ℤ → Runtime → Outcome
  unfolding release schedule dispatch
  continue ctx r = dispatch ctx (schedule (release r))

  -- `__finish_current` and `__rt_finish_current`, on the run queue where the thread stands.
  unfoldable pub finish_current : ℤ → Runtime → Thread → Outcome
  unfolding continue next_cycle exit_thread
  finish_current ctx r t =
      if ltb_ℤ (pos 1) t.n
      then continue ctx (next_cycle r (record t { n = t.n -ℤ pos 1 }))
      else exit_thread ctx r t.id

  -- `switch_handler` from where the thread has been charged for its slice.
  unfoldable pub switch_charged : ℤ → Runtime → Thread → Outcome
  unfolding misses finish_current continue rotate
  switch_charged ctx r t =
      if misses r.threading_system_time t
      then missed_in_switch t.id
      else if ltb_ℤ (pos 0) t.remaining_time
      then continue ctx (rotate r t)
      else finish_current ctx r t

  unfoldable pub switch_thread : ℤ → ℕ → Runtime → Option Thread → Outcome
  unfolding release charge switch_charged
  switch_thread ctx elapsed r none = invalid
  switch_thread ctx elapsed r (some t) =
      switch_charged ctx
        (release (record r { threading_system_time = r.threading_system_time +ℤ pos elapsed }))
        (charge elapsed t)

  unfoldable pub switch_handler : ℤ → ℕ → Runtime → Outcome
  unfolding switch_thread entry_of
  switch_handler ctx elapsed r = switch_thread ctx elapsed r (entry_of r.current r.run_queue)

  -- One round of the loop of `thread_start_threading` up to `__dispatch`.
  unfoldable pub main_round : ℤ → Runtime → Outcome
  unfolding continue
  main_round ctx r = continue ctx r
