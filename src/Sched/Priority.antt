-- ===== src/Sched/Priority.antt =====
-- `schedule_priority_rr`: the priority group, the thread that is taken from it, and the rotation.
use spring_os_mp.Prelude.{
  ℕ, ◌+◌, ◌≤◌, ◌==◌, true, false, Option, some, none, List, [], ◌∷◌, ◌++◌, ◌≡◌, ◌≢◌, refl, foldl,
  arith, ◌⊎◌, inl, inr, if◌then◌else◌, ap, sym, subst, Bool-cases,
}
use spring_os_mp.Prelude.Fold.{All, All-both}
use spring_os_mp.Prelude.Int.{ℤ, pos, ltb_ℤ, ◌≤ℤ◌, ◌+ℤ◌, eq_of_parts}
use spring_os_mp.Sched.Defs.{Thread, ThreadsSchedArgs, ThreadsSchedResult, eqb_ℤ, list_del}
use spring_os_mp.Sched.Select.{
  PriorityGroup, priority_visit, priority_group, first_of_priority, priority_answer,
  schedule_priority_rr,
}
use spring_os_mp.Prelude.{not, ◌||◌}

-- How many threads that are not real-time have priority `p`.
abbrev pub in_group : ℤ → List Thread → ℕ
in_group p [] = 0
in_group p (x ∷ xs) =
    (if x.is_real_time then 0 else if eqb_ℤ x.priority p then 1 else 0) + in_group p xs

-- What the first pass has found, started at `g`.
record Grouped (xs : List Thread) (g r : PriorityGroup) : Type 0 where
  low : r.highest_priority ≤ℤ g.highest_priority
  lowest : All (λ x. x.is_real_time ≡ false → r.highest_priority ≤ℤ x.priority) xs
  count :
      r.count_in_group
      ≡ (if eqb_ℤ r.highest_priority g.highest_priority then g.count_in_group else 0)
        + in_group r.highest_priority xs
  found : (g.highest_priority ≤ℤ r.highest_priority) ⊎ (1 ≤ in_group r.highest_priority xs)

visit_low :
    (g : PriorityGroup) (x : Thread)
    → ((priority_visit g x).highest_priority ≤ℤ g.highest_priority)
      × (x.is_real_time ≡ false → (priority_visit g x).highest_priority ≤ℤ x.priority)
unfolding priority_visit
visit_low g x = (ground arith, λ h. ground arith)

-- A thread counts for the priority `p` that the pass will end with, at most that after this visit.
visit_count :
    (g : PriorityGroup) (x : Thread) (p : ℤ)
    → p ≤ℤ (priority_visit g x).highest_priority
    → (if eqb_ℤ p (priority_visit g x).highest_priority
        then (priority_visit g x).count_in_group
        else 0)
      ≡ (if eqb_ℤ p g.highest_priority then g.count_in_group else 0)
        + (if x.is_real_time then 0 else if eqb_ℤ x.priority p then 1 else 0)
unfolding priority_visit
visit_count g x p h = ground arith

visit_found :
    (g : PriorityGroup) (x : Thread) (p : ℤ)
    → p ≤ℤ (priority_visit g x).highest_priority
    → (priority_visit g x).highest_priority ≤ℤ p
    → (g.highest_priority ≤ℤ p)
      ⊎ (1 ≤ (if x.is_real_time then 0 else if eqb_ℤ x.priority p then 1 else 0))
unfolding priority_visit
visit_found g x p h k = ground arith

foldl-Grouped : (xs : List Thread) (g : PriorityGroup) → Grouped xs g (foldl priority_visit g xs)
foldl-Grouped [] g = record {
  low = omega arith;
  lowest = tt;
  count = ground arith;
  found = inl (omega arith);
}
foldl-Grouped (x ∷ xs) g =
    let r : PriorityGroup = foldl priority_visit (priority_visit g x) xs in
    let ih : Grouped xs (priority_visit g x) r = foldl-Grouped xs (priority_visit g x) in
    let (low, at_x) = visit_low g x in
    record {
      low = omega (arith, ih.low);
      lowest = (
        λ h.
            let k : (priority_visit g x).highest_priority ≤ℤ x.priority = at_x h in
            omega (arith, ih.low),
        ih.lowest,
      );
      count = omega (arith, ih.count, visit_count g x r.highest_priority ih.low);
      found = elim ih.found [
        | inr later ↦ inr (omega arith)
        | inl same ↦ elim (visit_found g x r.highest_priority ih.low same) [
          | inl low ↦ inl low
          | inr here ↦ inr (omega arith)
        ]
      ];
    }

-- The first pass ends with a priority of at most 5 that no thread goes below, and with the number
-- of threads that have it; only 5 itself can be a priority that no thread has.
record IsGroup (q : List Thread) (g : PriorityGroup) : Type 0 where
  low : g.highest_priority ≤ℤ pos 5
  lowest : All (λ x. x.is_real_time ≡ false → g.highest_priority ≤ℤ x.priority) q
  count : g.count_in_group ≡ in_group g.highest_priority q
  found : (pos 5 ≤ℤ g.highest_priority) ⊎ (1 ≤ in_group g.highest_priority q)

priority_group-IsGroup : (q : List Thread) → IsGroup q (priority_group q)
unfolding priority_group
priority_group-IsGroup q =
    let g : Grouped q start (foldl priority_visit start q) = foldl-Grouped q start in
    record { low = g.low; lowest = g.lowest; count = ground (arith, g.count); found = g.found }
  where
    start : PriorityGroup
    start = record { highest_priority = pos 5; count_in_group = 0 }

eq_of_test : (a b : ℤ) → eqb_ℤ a b ≡ true → a ≡ b
eq_of_test a b h = eq_of_parts a b (ground arith)

abbrev pub IsOf : ℤ → Thread → Type 0
IsOf p x = (x.is_real_time ≡ false) × (x.priority ≡ p)

-- The thread found is the first of its group, and none is found in an empty group only.
abbrev First : ℤ → List Thread → Option Thread → Type 0
First p q none = All (λ x. ¬ IsOf p x) q
First p q (some s) =
    IsOf p s
    × (pre : List Thread) × (post : List Thread) × (q ≡ pre ++ s ∷ post)
    × All (λ x. ¬ IsOf p x) pre

first_of_priority-First : (p : ℤ) (q : List Thread) → First p q (first_of_priority p q)
unfolding first_of_priority
first_of_priority-First p [] = tt
first_of_priority-First p (x ∷ q) = elim (Bool-cases x.is_real_time) [
  | inl rt ↦ simp rt (later x (λ o. cc (o.0)) (first_of_priority p q) (first_of_priority-First p q))
  | inr nrt ↦ elim (Bool-cases (eqb_ℤ x.priority p)) [
    | inl e ↦ simp (nrt, e) ((refl, eq_of_test x.priority p e), [], q, refl, tt)
    | inr ne ↦
        simp (nrt, ne)
          (later x (λ o. test_of_eq x.priority p ne o.1) (first_of_priority p q)
            (first_of_priority-First p q))
  ]
]
  where
    test_of_eq : (a b : ℤ) → eqb_ℤ a b ≡ false → a ≡ b → ⊥
    test_of_eq a b h e = ground arith

    later : (x : Thread) → ¬ IsOf p x → (o : Option Thread) → First p q o → First p (x ∷ q) o
    later x n none f = (n, f)
    later x n (some s) (of, pre, post, e, all) = (of, x ∷ pre, post, ap (◌∷◌ x) e, (n, all))

abbrev pub DistinctIds : List Thread → Type 0
DistinctIds [] = Unit
DistinctIds (x ∷ xs) = All (λ y. y.id ≢ x.id) xs × DistinctIds xs

list_del-append :
    (pre post : List Thread) (s : Thread)
    → DistinctIds (pre ++ s ∷ post)
    → list_del s.id (pre ++ s ∷ post) ≡ pre ++ post
unfolding list_del
list_del-append [] post s d = ground arith
list_del-append (x ∷ pre) post s d =
    ground (arith, list_del-append pre post s d.1, ne x.id s.id (λ e. among pre d.0 (sym e)))
  where
    ne : (a b : ℤ) → a ≢ b → eqb_ℤ a b ≡ false
    ne a b h = elim (Bool-cases (eqb_ℤ a b)) [
      | inl t ↦ absurd (h (eq_of_parts a b (ground arith)))
      | inr f ↦ f
    ]

    among : (l : List Thread) → All (λ y. y.id ≢ x.id) (l ++ s ∷ post) → s.id ≢ x.id
    among [] a = a.0
    among (y ∷ l) a = among l a.1

-- How `schedule_priority_rr` ends.
pub data PriorityOutcome (a : ThreadsSchedArgs) (r : ThreadsSchedResult) : Type 0 where
  nothing :
      All (λ x. x.is_real_time ≡ false → pos 6 ≤ℤ x.priority) a.run_queue
      → r.scheduled ≡ none
      → r.allocated_time ≡ pos 1
      → r.run_queue ≡ a.run_queue
      → PriorityOutcome a r
  to_the_end :
      (s : Thread) (pre post : List Thread)
      → a.run_queue ≡ pre ++ s ∷ post
      → s.is_real_time ≡ false
      → All (λ x. x.is_real_time ≡ false → s.priority ≤ℤ x.priority) a.run_queue
      → All (λ x. ¬ IsOf s.priority x) pre
      → (in_group s.priority a.run_queue ≡ 1) ⊎ (s.remaining_time ≤ℤ a.time_quantum)
      → r.scheduled ≡ some s
      → r.allocated_time ≡ s.remaining_time
      → r.run_queue ≡ a.run_queue
      → PriorityOutcome a r
  sliced :
      (s : Thread) (pre post : List Thread)
      → a.run_queue ≡ pre ++ s ∷ post
      → s.is_real_time ≡ false
      → All (λ x. x.is_real_time ≡ false → s.priority ≤ℤ x.priority) a.run_queue
      → All (λ x. ¬ IsOf s.priority x) pre
      → in_group s.priority a.run_queue ≢ 1
      → pos 1 +ℤ a.time_quantum ≤ℤ s.remaining_time
      → r.scheduled ≡ some s
      → r.allocated_time ≡ a.time_quantum
      → r.run_queue ≡ pre ++ post ++ s ∷ []
      → PriorityOutcome a r

in_group-none : (p : ℤ) (q : List Thread) → All (λ x. ¬ IsOf p x) q → in_group p q ≡ 0
in_group-none p [] a = refl
in_group-none p (x ∷ q) a = ground (arith, in_group-none p q a.1, a.0, eq_of_test x.priority p)

-- Priority 5 was reached by no thread, and every thread is at or above it.
above_five :
    (p : ℤ) (x : Thread)
    → pos 5 ≤ℤ p
    → p ≤ℤ pos 5
    → ¬ IsOf p x
    → (x.is_real_time ≡ false → p ≤ℤ x.priority)
    → x.is_real_time ≡ false
    → pos 6 ≤ℤ x.priority
above_five p x h k n low nrt = elim (Bool-cases (eqb_ℤ x.priority p)) [
  | inl e ↦ absurd (n (nrt, eq_of_test x.priority p e))
  | inr ne ↦ let l : p ≤ℤ x.priority = low nrt in ground arith
]

alone_or_short : (n : ℕ) (q t : ℤ) → (n == 1 || not (ltb_ℤ q t)) ≡ true → (n ≡ 1) ⊎ (t ≤ℤ q)
alone_or_short n q t h = ground arith

crowd_and_long :
    (n : ℕ) (q t : ℤ) → (n == 1 || not (ltb_ℤ q t)) ≡ false → (n ≢ 1) × (pos 1 +ℤ q ≤ℤ t)
unfolding ◌+ℤ◌
crowd_and_long n q t h = ground arith

outcome_none :
    (a : ThreadsSchedArgs) (g : PriorityGroup)
    → IsGroup a.run_queue g
    → All (λ x. ¬ IsOf g.highest_priority x) a.run_queue
    → All (λ x. x.is_real_time ≡ false → pos 6 ≤ℤ x.priority) a.run_queue
outcome_none a g v f = elim v.found [
  | inl five ↦
      All-both a.run_queue (λ x n low. above_five g.highest_priority x five v.low n low) f v.lowest
  | inr some_thread ↦ absurd (omega (arith, in_group-none g.highest_priority a.run_queue f))
]

module _ (a : ThreadsSchedArgs) (s : Thread) (pre post : List Thread) (d : DistinctIds a.run_queue)
    (e : a.run_queue ≡ pre ++ s ∷ post) where
  queue_del : list_del s.id a.run_queue ≡ pre ++ post
  queue_del = rw e (list_del-append pre post s (subst DistinctIds e d))

  outcome_some :
      (p : ℤ) (count : ℕ)
      → p ≡ s.priority
      → s.is_real_time ≡ false
      → All (λ x. x.is_real_time ≡ false → p ≤ℤ x.priority) a.run_queue
      → All (λ x. ¬ IsOf p x) pre
      → count ≡ in_group p a.run_queue
      → PriorityOutcome a (priority_answer a count (some s))
  unfolding priority_answer
  outcome_some p count ep nrt lowest before c =
      elim (Bool-cases (count == 1 || not (ltb_ℤ a.time_quantum s.remaining_time))) [
        | inl end ↦
            to_the_end s pre post e nrt
              (subst (λ k. All (λ x. x.is_real_time ≡ false → k ≤ℤ x.priority) a.run_queue) ep
                lowest)
              (subst (λ k. All (λ x. ¬ IsOf k x) pre) ep before)
              (subst (λ k. (in_group k a.run_queue ≡ 1) ⊎ (s.remaining_time ≤ℤ a.time_quantum)) ep
                (alone_or_short (in_group p a.run_queue) a.time_quantum s.remaining_time (
                  subst (λ n. (n == 1 || not (ltb_ℤ a.time_quantum s.remaining_time)) ≡ true) c
                    end)))
              (rw end refl) (rw end refl) (rw end refl)
        | inr more ↦
            let (crowd, long) =
              crowd_and_long (in_group p a.run_queue) a.time_quantum s.remaining_time (
                subst (λ n. (n == 1 || not (ltb_ℤ a.time_quantum s.remaining_time)) ≡ false) c
                  more) in
            sliced s pre post e nrt
              (subst (λ k. All (λ x. x.is_real_time ≡ false → k ≤ℤ x.priority) a.run_queue) ep
                lowest)
              (subst (λ k. All (λ x. ¬ IsOf k x) pre) ep before)
              (subst (λ k. in_group k a.run_queue ≢ 1) ep crowd) long (rw more refl) (rw more refl)
              (rw (more, queue_del) refl)
      ]

priority_answer-Outcome :
    (a : ThreadsSchedArgs) (g : PriorityGroup) (o : Option Thread)
    → DistinctIds a.run_queue
    → IsGroup a.run_queue g
    → First g.highest_priority a.run_queue o
    → PriorityOutcome a (priority_answer a g.count_in_group o)
unfolding priority_answer
priority_answer-Outcome a g none d v f = nothing (outcome_none a g v f) refl refl refl
priority_answer-Outcome a g (some s) d v (of, pre, post, e, before) =
    outcome_some a s pre post d e g.highest_priority g.count_in_group (sym of.1) of.0 v.lowest
      before v.count

-- Where the threads of the run queue have distinct IDs: if no thread that is not real-time has a
-- priority of at most 5, `schedule_priority_rr` selects none, for one tick. Otherwise it selects
-- the first thread of those with the lowest number as priority. If the thread is alone with that
-- priority, or has at most the quantum left, it runs for its remaining time and the run queue stays
-- as it is; otherwise it runs for the quantum, and moves to the end of the run queue.
pub schedule_priority_rr-PriorityOutcome :
    (a : ThreadsSchedArgs) → DistinctIds a.run_queue → PriorityOutcome a (schedule_priority_rr a)
unfolding schedule_priority_rr
schedule_priority_rr-PriorityOutcome a d =
    priority_answer-Outcome a (priority_group a.run_queue) _ d (priority_group-IsGroup a.run_queue)
      (first_of_priority-First (priority_group a.run_queue).highest_priority a.run_queue)
