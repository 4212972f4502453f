-- ===== src/Sched/Select.antt =====
-- The four scheduling functions of mp3/xv6/user/threads_sched.c. Each `list_for_each_entry` loop
-- is a fold of its body over the run queue; `selected` is the fold's state.
use spring_os_mp.Prelude.{
  ℕ, Bool, false, Option, some, none, List, [], ◌∷◌, ◌++◌, foldl, if◌then◌else◌, ◌&&◌, ◌||◌, ◌+◌,
  ◌==◌,
}
use spring_os_mp.Prelude.Int.{ℤ, pos, ltb_ℤ, ◌+ℤ◌, ◌-ℤ◌, ◌*ℤ◌}
use spring_os_mp.Sched.Defs.{Thread, ThreadsSchedArgs, ThreadsSchedResult, eqb_ℤ, list_del}
use spring_os_mp.Prelude.{not}

-- The result that leaves the queues of `a` alone.
abbrev answer : ThreadsSchedArgs → Option Thread → ℤ → ThreadsSchedResult
answer a s t = record {
  scheduled = s;
  allocated_time = t;
  run_queue = a.run_queue;
  release_queue = a.release_queue;
}

-- How `schedule_default` and `schedule_hrrn` end: the selected thread runs for all of its time.
unfoldable pub run_selected : ThreadsSchedArgs → Option Thread → ThreadsSchedResult
run_selected a (some s) = answer a (some s) s.remaining_time
run_selected a none = answer a none (pos 1)

-- The body of the loop of `schedule_default`.
unfoldable pub default_visit : Option Thread → Thread → Option Thread
default_visit none th = some th
default_visit (some s) th = if ltb_ℤ th.id s.id then some th else some s

unfoldable pub schedule_default : ThreadsSchedArgs → ThreadsSchedResult
unfolding run_selected default_visit
schedule_default a = run_selected a (foldl default_visit none a.run_queue)

-- The comparison of response ratios in `schedule_hrrn`, with its products.
unfoldable pub hrrn_better : ℤ → Thread → Thread → Bool
hrrn_better now th selected =
    let w1 = now -ℤ th.arrival_time in
    let b1 = th.processing_time in
    let w2 = now -ℤ selected.arrival_time in
    let b2 = selected.processing_time in
    let lhs = (w1 +ℤ b1) *ℤ b2 in
    let rhs = (w2 +ℤ b2) *ℤ b1 in ltb_ℤ rhs lhs || eqb_ℤ lhs rhs && ltb_ℤ th.id selected.id

-- The threads that the loop of `schedule_hrrn` does not pass over.
unfoldable pub hrrn_eligible : Thread → Bool
hrrn_eligible th = if th.is_real_time then false else ltb_ℤ (pos 0) th.processing_time

-- What the loop does with a thread that it does not pass over.
unfoldable pub hrrn_choose : ℤ → Option Thread → Thread → Option Thread
unfolding hrrn_better
hrrn_choose now none th = some th
hrrn_choose now (some s) th = if hrrn_better now th s then some th else some s

unfoldable pub hrrn_visit : ℤ → Option Thread → Thread → Option Thread
unfolding hrrn_choose hrrn_eligible
hrrn_visit now selected th = if hrrn_eligible th then hrrn_choose now selected th else selected

unfoldable pub schedule_hrrn : ThreadsSchedArgs → ThreadsSchedResult
unfolding run_selected hrrn_visit
schedule_hrrn a = run_selected a (foldl (hrrn_visit a.current_time) none a.run_queue)

-- `highest_priority` and `count_in_group` of `schedule_priority_rr`.
pub record PriorityGroup : Type 0 where
  pub highest_priority : ℤ
  pub count_in_group : ℕ

unfoldable pub priority_visit : PriorityGroup → Thread → PriorityGroup
priority_visit g th =
    if th.is_real_time
    then g
    else if ltb_ℤ th.priority g.highest_priority
    then record { highest_priority = th.priority; count_in_group = 1 }
    else if eqb_ℤ th.priority g.highest_priority
    then record g { count_in_group = g.count_in_group + 1 }
    else g

-- The first pass: the search starts at priority 5.
unfoldable pub priority_group : List Thread → PriorityGroup
unfolding priority_visit
priority_group = foldl priority_visit (record { highest_priority = pos 5; count_in_group = 0 })

-- The second pass: the first thread of that priority.
unfoldable pub first_of_priority : ℤ → List Thread → Option Thread
first_of_priority p [] = none
first_of_priority p (th ∷ ts) =
    let rest = first_of_priority p ts in
    if th.is_real_time then rest else if eqb_ℤ th.priority p then some th else rest

-- What follows the second pass.
unfoldable pub priority_answer : ThreadsSchedArgs → ℕ → Option Thread → ThreadsSchedResult
unfolding list_del
priority_answer a count none = answer a none (pos 1)
priority_answer a count (some s) =
    if count == 1 || not (ltb_ℤ a.time_quantum s.remaining_time)
    then answer a (some s) s.remaining_time
    else record (answer a (some s) a.time_quantum) {
      run_queue = list_del s.id a.run_queue ++ s ∷ [];
    }

unfoldable pub schedule_priority_rr : ThreadsSchedArgs → ThreadsSchedResult
unfolding priority_group first_of_priority priority_answer
schedule_priority_rr a =
    let g = priority_group a.run_queue in
    priority_answer a g.count_in_group (first_of_priority g.highest_priority a.run_queue)
