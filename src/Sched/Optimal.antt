-- ===== src/Sched/Optimal.antt =====
-- Which thread each scheduler of threads_sched.c selects.
use mathlib.Core.List.{Mem}
use mathlib.Core.Path.{fun_ext}
use spring_os_mp.Prelude.{Bool, true, Option, some, none, List, [], ◌∷◌, ◌≡◌, refl, foldl, arith}
use spring_os_mp.Prelude.Fold.{All, All-map, visit, IsOrder, Best, foldl-Best}
use spring_os_mp.Prelude.Int.{pos, ltb_ℤ, ◌≤ℤ◌}
use spring_os_mp.Sched.Defs.{Thread, ThreadsSchedArgs, ThreadsSchedResult}
use spring_os_mp.Sched.Select.{run_selected, default_visit, schedule_default}

pub always : Thread → Bool
always th = true

unfoldable pub lower_id : Thread → Thread → Bool
lower_id a b = ltb_ℤ a.id b.id

lower_id-IsOrder : IsOrder always lower_id
unfolding always lower_id
lower_id-IsOrder = record {
  asym = λ a b _ _ h. ground arith;
  trans = λ a b c _ _ _ h k. ground arith;
}

default_visit_lem : default_visit ≡ visit always lower_id
unfolding always lower_id default_visit
default_visit_lem = fun_ext (λ o. fun_ext (λ th. at o th))
  where
    at : (o : Option Thread) (th : Thread) → default_visit o th ≡ visit always lower_id o th
    at none th = refl
    at (some s) th = refl

-- The thread with the smallest ID, and none where the queue is empty.
abbrev pub LeastId : List Thread → Option Thread → Type 0
LeastId q none = q ≡ []
LeastId q (some s) = Mem s q × All (λ x. s.id ≤ℤ x.id) q

Best-LeastId : (q : List Thread) (o : Option Thread) → Best always lower_id q o → LeastId q o
unfolding always lower_id
Best-LeastId [] none b = refl
Best-LeastId (x ∷ q) none b = cc (b.0)
Best-LeastId q (some s) b = (b.0, All-map q (λ x h. ground (arith, h refl)) b.2)

-- The queues are left alone, and the allocated time is the thread's remaining time, or one tick
-- where there is no thread.
abbrev pub RunsToEnd : ThreadsSchedArgs → ThreadsSchedResult → Type 0
RunsToEnd a r =
    (r.run_queue ≡ a.run_queue)
    × (r.release_queue ≡ a.release_queue)
    × (r.allocated_time ≡ elim r.scheduled [ some s ↦ s.remaining_time | none ↦ pos 1 ])

pub run_selected_lem :
    (a : ThreadsSchedArgs) (o : Option Thread)
    → ((run_selected a o).scheduled ≡ o) × RunsToEnd a (run_selected a o)
unfolding run_selected
run_selected_lem a none = (refl, (refl, refl, refl))
run_selected_lem a (some s) = (refl, (refl, refl, refl))

-- For every queue, `schedule_default` selects a thread of the run queue with the smallest ID, or
-- none where the queue is empty; it allocates the thread's remaining time, or one tick if there is
-- none, and leaves the queues alone.
pub schedule_default-LeastId :
    (a : ThreadsSchedArgs)
    → LeastId a.run_queue (schedule_default a).scheduled × RunsToEnd a (schedule_default a)
unfolding schedule_default
schedule_default-LeastId a =
    let o : Option Thread = foldl default_visit none a.run_queue in
    let (e, rest) = run_selected_lem a o in
    (
      rw e (
          Best-LeastId a.run_queue o
            (rw default_visit_lem (foldl-Best always lower_id lower_id-IsOrder a.run_queue))),
      rest,
    )
