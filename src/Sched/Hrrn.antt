-- ===== src/Sched/Hrrn.antt =====
-- `schedule_hrrn` selects by the highest response ratio.
use mathlib.Core.List.{Mem}
use mathlib.Core.Path.{fun_ext}
use spring_os_mp.Prelude.{true, false, Option, some, none, List, ◌≡◌, refl, foldl, arith, sym}
use spring_os_mp.Prelude.Fold.{All, All-map, visit, IsOrder, Best, foldl-Best}
use spring_os_mp.Prelude.Int.{ℤ, pos, ltb_ℤ, ◌≤ℤ◌, ◌+ℤ◌, ◌-ℤ◌, ◌*ℤ◌}
use spring_os_mp.Sched.Defs.{Thread, ThreadsSchedArgs}
use spring_os_mp.Sched.Select.{hrrn_better, hrrn_eligible, hrrn_visit, schedule_hrrn}
use spring_os_mp.Sched.Optimal.{RunsToEnd, run_selected_lem}
use spring_os_mp.Sched.Ratio.{cross-le}

-- The response ratio of a thread at `now`, as numerator and denominator.
abbrev pub ratio_num : ℤ → Thread → ℤ
ratio_num now th = now -ℤ th.arrival_time +ℤ th.processing_time

abbrev pub HasNoHigherRatio : ℤ → Thread → Thread → Type 0
HasNoHigherRatio now x s =
    (ratio_num now x *ℤ s.processing_time ≤ℤ ratio_num now s *ℤ x.processing_time)
    × ((ratio_num now x *ℤ s.processing_time ≡ ratio_num now s *ℤ x.processing_time) → s.id ≤ℤ x.id)

hrrn_better_false :
    (now : ℤ) (x s : Thread)
    → hrrn_better now x s ≡ false
    → (ratio_num now x *ℤ s.processing_time ≤ℤ ratio_num now s *ℤ x.processing_time)
      × ((ratio_num now s *ℤ x.processing_time ≤ℤ ratio_num now x *ℤ s.processing_time)
          → s.id ≤ℤ x.id)
unfolding hrrn_better
hrrn_better_false now x s h = (ground arith, λ k. ground arith)

hrrn_better_of :
    (now : ℤ) (x s : Thread)
    → ratio_num now x *ℤ s.processing_time ≤ℤ ratio_num now s *ℤ x.processing_time
    → ((ratio_num now s *ℤ x.processing_time ≤ℤ ratio_num now x *ℤ s.processing_time)
        → s.id ≤ℤ x.id)
    → hrrn_better now x s ≡ false
unfolding hrrn_better
hrrn_better_of now x s h k = ground arith

hrrn_better_asym :
    (now : ℤ) (a b : Thread) → hrrn_better now a b ≡ true → hrrn_better now b a ≡ false
unfolding hrrn_better
hrrn_better_asym now a b h = ground arith

le_trans_ℤ : (a b c : ℤ) → a ≤ℤ b → b ≤ℤ c → a ≤ℤ c
le_trans_ℤ a b c h k = omega arith

le_of_eq_ℤ : {a b : ℤ} → a ≡ b → a ≤ℤ b
le_of_eq_ℤ e = rw e (omega arith)

hrrn_burst : (th : Thread) → hrrn_eligible th ≡ true → ltb_ℤ (pos 0) th.processing_time ≡ true
unfolding hrrn_eligible
hrrn_burst th h = ground arith

hrrn-IsOrder : (now : ℤ) → IsOrder hrrn_eligible (hrrn_better now)
hrrn-IsOrder now = record {
  asym = λ a b _ _ h. asym a b h;
  trans =
      λ a b c ea eb ec h k. trans a b c (hrrn_burst a ea) (hrrn_burst b eb) (hrrn_burst c ec) h k;
}
  where
    asym : (a b : Thread) → hrrn_better now a b ≡ true → hrrn_better now b a ≡ false
    asym a b h = hrrn_better_asym now a b h

    trans :
        (a b c : Thread)
        → ltb_ℤ (pos 0) a.processing_time ≡ true
        → ltb_ℤ (pos 0) b.processing_time ≡ true
        → ltb_ℤ (pos 0) c.processing_time ≡ true
        → hrrn_better now b a ≡ false
        → hrrn_better now c b ≡ false
        → hrrn_better now c a ≡ false
    trans a b c pa pb pc h k =
        let (le_ba, tie_ba) = hrrn_better_false now b a h in
        let (le_cb, tie_cb) = hrrn_better_false now c b k in
        hrrn_better_of now c a
          (cross-le (ratio_num now a) (ratio_num now b) (ratio_num now c) a.processing_time
            b.processing_time c.processing_time pa pb pc le_ba le_cb)
          (λ le_ac.
            le_trans_ℤ a.id b.id c.id
              (tie_ba (
                cross-le (ratio_num now b) (ratio_num now c) (ratio_num now a) b.processing_time
                  c.processing_time a.processing_time pb pc pa le_cb le_ac))
              (tie_cb (
                cross-le (ratio_num now c) (ratio_num now a) (ratio_num now b) c.processing_time
                  a.processing_time b.processing_time pc pa pb le_ac le_ba)))

hrrn_visit_lem : (now : ℤ) → hrrn_visit now ≡ visit hrrn_eligible (hrrn_better now)
unfolding hrrn_visit
hrrn_visit_lem now = fun_ext (λ o. fun_ext (λ th. at o th))
  where
    at :
        (o : Option Thread) (th : Thread)
        → hrrn_visit now o th ≡ visit hrrn_eligible (hrrn_better now) o th
    at none th = refl
    at (some s) th = refl

-- A thread that the scheduler can run: not real-time, with a positive burst time.
abbrev pub IsCandidate : Thread → Type 0
IsCandidate x = (x.is_real_time ≡ false) × (pos 1 ≤ℤ x.processing_time)

-- A candidate of the queue whose response ratio is highest among the candidates, and whose ID is
-- smallest among those of that ratio; none where there is no candidate.
abbrev pub HighestRatio : ℤ → List Thread → Option Thread → Type 0
HighestRatio now q none = All (λ x. ¬ IsCandidate x) q
HighestRatio now q (some s) =
    Mem s q × IsCandidate s × All (λ x. IsCandidate x → HasNoHigherRatio now x s) q

eligible_of : (x : Thread) → IsCandidate x → hrrn_eligible x ≡ true
unfolding hrrn_eligible
eligible_of x h = ground arith

IsCandidate-of : (x : Thread) → hrrn_eligible x ≡ true → IsCandidate x
unfolding hrrn_eligible
IsCandidate-of x h = ground arith

Best-HighestRatio :
    (now : ℤ) (q : List Thread) (o : Option Thread)
    → Best hrrn_eligible (hrrn_better now) q o
    → HighestRatio now q o
Best-HighestRatio now q none b = All-map q (λ x h c. cc (eligible_of x c)) b
Best-HighestRatio now q (some s) b = (
  b.0,
  IsCandidate-of s b.1,
  All-map q (λ x h c. no_higher x (hrrn_better_false now x s (h (eligible_of x c)))) b.2,
)
  where
    no_higher :
        (x : Thread)
        → (ratio_num now x *ℤ s.processing_time ≤ℤ ratio_num now s *ℤ x.processing_time)
          × ((ratio_num now s *ℤ x.processing_time ≤ℤ ratio_num now x *ℤ s.processing_time)
              → s.id ≤ℤ x.id)
        → HasNoHigherRatio now x s
    no_higher x (le, tie) = (le, λ e. tie (le_of_eq_ℤ (sym e)))

-- For every queue and time, `schedule_hrrn` selects, of the threads that are not real-time and have
-- a positive burst time, one with the highest response ratio (waiting + burst) / burst, and of
-- those with that ratio one with the smallest ID; none where there is no such thread. It allocates
-- the remaining time of the thread, or one tick if there is none, and leaves the queues alone.
pub schedule_hrrn-HighestRatio :
    (a : ThreadsSchedArgs)
    → HighestRatio a.current_time a.run_queue (schedule_hrrn a).scheduled
      × RunsToEnd a (schedule_hrrn a)
unfolding schedule_hrrn
schedule_hrrn-HighestRatio a =
    let o : Option Thread = foldl (hrrn_visit a.current_time) none a.run_queue in
    let (e, rest) = run_selected_lem a o in
    (
      rw e (
          Best-HighestRatio a.current_time a.run_queue o (
            rw (hrrn_visit_lem a.current_time) (
              foldl-Best hrrn_eligible (hrrn_better a.current_time) (hrrn-IsOrder a.current_time)
                a.run_queue))),
      rest,
    )
