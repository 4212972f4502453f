-- ===== src/Sched/Dm.antt =====
-- `__check_deadline_miss` and `schedule_dm`: which thread is selected, and for how long.
use mathlib.Core.List.{Mem}
use mathlib.Core.Path.{fun_ext}
use spring_os_mp.Prelude.{Bool, true, false, Option, some, none, List, ◌≡◌, refl, foldl, arith}
use spring_os_mp.Prelude.Fold.{All, All-map, visit, IsOrder, Best, foldl-Best}
use spring_os_mp.Prelude.Int.{ℤ, pos, ltb_ℤ, ◌≤ℤ◌, ◌+ℤ◌, ◌-ℤ◌}
use spring_os_mp.Sched.Defs.{Thread}
use spring_os_mp.Sched.Optimal.{lower_id}
use spring_os_mp.Sched.Deadline.{
  has_missed, miss_visit, check_deadline_miss, dm_thread_cmp, dm_visit,
}

-- A thread of the queue whose current deadline is not after `now`, with the smallest ID of those;
-- none where every deadline is later.
abbrev pub LeastMissed : ℤ → List Thread → Option Thread → Type 0
LeastMissed now q none = All (λ x. pos 1 +ℤ now ≤ℤ x.current_deadline) q
LeastMissed now q (some s) =
    Mem s q × (s.current_deadline ≤ℤ now) × All (λ x. x.current_deadline ≤ℤ now → s.id ≤ℤ x.id) q

lower_id-IsOrder : (now : ℤ) → IsOrder (has_missed now) lower_id
unfolding lower_id
lower_id-IsOrder now = record {
  asym = λ a b _ _ h. ground arith;
  trans = λ a b c _ _ _ h k. ground arith;
}

miss_visit_lem : (now : ℤ) → miss_visit now ≡ visit (has_missed now) lower_id
unfolding lower_id miss_visit
miss_visit_lem now = fun_ext (λ o. fun_ext (λ th. at o th))
  where
    at :
        (o : Option Thread) (th : Thread)
        → miss_visit now o th ≡ visit (has_missed now) lower_id o th
    at none th = refl
    at (some s) th = refl

missed_iff : (now : ℤ) (x : Thread) → (has_missed now x ≡ true) → x.current_deadline ≤ℤ now
unfolding has_missed
missed_iff now x h = ground arith

missed_of : (now : ℤ) (x : Thread) → x.current_deadline ≤ℤ now → has_missed now x ≡ true
unfolding has_missed
missed_of now x h = ground arith

pub succ-le : (a b : ℤ) → ltb_ℤ a b ≡ true → pos 1 +ℤ a ≤ℤ b
unfolding ◌+ℤ◌
succ-le a b h = ground arith

not_missed : (now : ℤ) (x : Thread) → has_missed now x ≡ false → pos 1 +ℤ now ≤ℤ x.current_deadline
unfolding has_missed
not_missed now x h = succ-le now x.current_deadline (ground arith)

Best-LeastMissed :
    (now : ℤ) (q : List Thread) (o : Option Thread)
    → Best (has_missed now) lower_id q o
    → LeastMissed now q o
unfolding lower_id
Best-LeastMissed now q none b = All-map q (λ x h. not_missed now x h) b
Best-LeastMissed now q (some s) b =
    (b.0, missed_iff now s b.1, All-map q (λ x h k. ground (arith, h (missed_of now x k))) b.2)

-- For every queue and time, `__check_deadline_miss` returns, of the threads whose current deadline
-- is at or before that time, one with the smallest ID; none if every deadline is later.
pub check_deadline_miss-LeastMissed :
    (q : List Thread) (now : ℤ) → LeastMissed now q (check_deadline_miss q now)
unfolding check_deadline_miss
check_deadline_miss-LeastMissed q now =
    Best-LeastMissed now q (foldl (miss_visit now) none q)
      (rw (miss_visit_lem now) (foldl-Best (has_missed now) lower_id (lower_id-IsOrder now) q))

is_rt : Thread → Bool
is_rt x = x.is_real_time

dm_first : Thread → Thread → Bool
dm_first a b = ltb_ℤ (dm_thread_cmp a b) (pos 0)

-- `a` may go before `b`: an earlier relative deadline, or the same one and no greater ID.
abbrev pub GoesBefore : Thread → Thread → Type 0
GoesBefore a b = (a.deadline ≤ℤ b.deadline) × (b.deadline ≤ℤ a.deadline → a.id ≤ℤ b.id)

dm_first-false : (a b : Thread) → dm_first b a ≡ false → GoesBefore a b
unfolding dm_first dm_thread_cmp ◌-ℤ◌
dm_first-false a b h = (ground arith, λ k. ground arith)

dm_first_of : (a b : Thread) → GoesBefore a b → dm_first b a ≡ false
unfolding dm_first dm_thread_cmp ◌-ℤ◌
dm_first_of a b h = ground (arith, h.1)

GoesBefore-trans : (a b c : Thread) → GoesBefore a b → GoesBefore b c → GoesBefore a c
GoesBefore-trans a b c (h, tie) (k, tie') = (
  omega arith,
  λ back.
      let first : a.id ≤ℤ b.id = tie (omega arith) in
      let second : b.id ≤ℤ c.id = tie' (omega arith) in omega arith,
)

dm_first_asym : (a b : Thread) → dm_first a b ≡ true → dm_first b a ≡ false
unfolding dm_first dm_thread_cmp ◌-ℤ◌
dm_first_asym a b h = ground arith

dm_first-IsOrder : IsOrder is_rt dm_first
dm_first-IsOrder = record {
  asym = λ a b _ _ h. dm_first_asym a b h;
  trans = λ a b c _ _ _ h k.
      dm_first_of a c (GoesBefore-trans a b c (dm_first-false a b h) (dm_first-false b c k));
}

dm_visit_lem : dm_visit ≡ visit is_rt dm_first
unfolding is_rt dm_first dm_visit
dm_visit_lem = fun_ext (λ o. fun_ext (λ th. at o th))
  where
    at : (o : Option Thread) (th : Thread) → dm_visit o th ≡ visit is_rt dm_first o th
    at none th = refl
    at (some s) th = refl

-- A real-time thread of the queue that goes before every other one; none if no thread is real-time.
abbrev pub FirstByDeadline : List Thread → Option Thread → Type 0
FirstByDeadline q none = All (λ x. x.is_real_time ≡ false) q
FirstByDeadline q (some s) =
    Mem s q × (s.is_real_time ≡ true) × All (λ x. x.is_real_time ≡ true → GoesBefore s x) q

Best-FirstByDeadline :
    (q : List Thread) (o : Option Thread) → Best is_rt dm_first q o → FirstByDeadline q o
unfolding is_rt
Best-FirstByDeadline q none b = b
Best-FirstByDeadline q (some s) b = (b.0, b.1, All-map q (λ x h k. dm_first-false s x (h k)) b.2)

pub dm_visit-FirstByDeadline : (q : List Thread) → FirstByDeadline q (foldl dm_visit none q)
dm_visit-FirstByDeadline q =
    Best-FirstByDeadline q (foldl dm_visit none q)
      (rw dm_visit_lem (foldl-Best is_rt dm_first dm_first-IsOrder q))
