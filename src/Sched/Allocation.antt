-- ===== src/Sched/Allocation.antt =====
-- What `schedule_dm` returns on each branch, and how long the slice that it allocates may be.
use spring_os_mp.Prelude.{
  Option, some, none, List, [], ◌∷◌, ◌≡◌, refl, foldl, arith, ◌⊎◌, inl, inr, if◌then◌else◌, ◌≢◌,
  sym, subst,
}
use spring_os_mp.Prelude.Fold.{All, All-map}
use spring_os_mp.Prelude.Int.{ℤ, pos, ltb_ℤ, ◌≤ℤ◌, ◌+ℤ◌, ◌-ℤ◌, int_laws}
use spring_os_mp.Sched.Defs.{Thread, ReleaseQueueEntry, ThreadsSchedResult}
use spring_os_mp.Sched.Deadline.{
  int_max, check_deadline_miss, DmRelease, dm_visit, next_release_time, dm_allocate, dm_select,
}
use spring_os_mp.Sched.Dm.{
  LeastMissed, check_deadline_miss-LeastMissed, FirstByDeadline, dm_visit-FirstByDeadline,
}
use spring_os_mp.Sched.Deadline.{dm_selected, dm_nonempty, dm_missed}

earlier : ℤ → ReleaseQueueEntry → ℤ
earlier t e = if ltb_ℤ e.release_time t then e.release_time else t

earlier-le : (t : ℤ) (e : ReleaseQueueEntry) → (earlier t e ≤ℤ t) × (earlier t e ≤ℤ e.release_time)
unfolding earlier
earlier-le t e = ground arith

foldl-earlier-le :
    (es : List ReleaseQueueEntry) (t : ℤ)
    → (foldl earlier t es ≤ℤ t) × All (λ e. foldl earlier t es ≤ℤ e.release_time) es
foldl-earlier-le [] t = (omega arith, tt)
foldl-earlier-le (e ∷ es) t =
    let (low, all) = foldl-earlier-le es (earlier t e) in
    let (at_t, at_e) = earlier-le t e in (omega arith, (omega arith, all))

next_release_time-le :
    (es : List ReleaseQueueEntry) → All (λ e. next_release_time es ≤ℤ e.release_time) es
unfolding next_release_time earlier
next_release_time-le es = (foldl-earlier-le es int_max).1

-- A slice of `t` ticks at `now` is within the thread's remaining time, ends by its deadline, and
-- ends before any thread of the release queue is due.
abbrev pub IsSafeSlice : Thread → List ReleaseQueueEntry → ℤ → ℤ → Type 0
IsSafeSlice s es now t =
    (t ≤ℤ s.remaining_time)
    × (now +ℤ t ≤ℤ s.current_deadline)
    × All (λ e. now +ℤ t ≤ℤ e.release_time) es

dm_allocate_parts :
    (s : Thread) (next now : ℤ)
    → (pos 0 ≤ℤ dm_allocate s next now)
      × ((dm_allocate s next now ≡ pos 0)
          ⊎ ((dm_allocate s next now ≤ℤ s.remaining_time)
              × (dm_allocate s next now ≤ℤ s.current_deadline -ℤ now)
              × (dm_allocate s next now ≤ℤ next -ℤ now)))
unfolding dm_allocate
dm_allocate_parts s next now = ground arith

-- The slice is never negative, and one that is not empty is safe.
dm_allocate-IsSafeSlice :
    (s : Thread) (es : List ReleaseQueueEntry) (now : ℤ)
    → let t = dm_allocate s (next_release_time es) now in
      (pos 0 ≤ℤ t) × ((t ≡ pos 0) ⊎ IsSafeSlice s es now t)
dm_allocate-IsSafeSlice s es now =
    let (low, parts) = dm_allocate_parts s (next_release_time es) now in
    (
      low,
      elim parts [
        | inl z ↦ inl z
        | inr (a, b, c) ↦ inr (
          a,
          omega int_laws,
          All-map es (λ e h. ends_before now (next_release_time es) _ e c h)
              (next_release_time-le es),
        )
      ],
    )
  where
    ends_before :
        (now next t : ℤ) (e : ReleaseQueueEntry)
        → t ≤ℤ next -ℤ now
        → next ≤ℤ e.release_time
        → now +ℤ t ≤ℤ e.release_time
    ends_before now next t e h k = omega int_laws

-- The four ways in which `schedule_dm` ends, on the queues `d` that its release loop leaves.
pub data DmOutcome (now : ℤ) (d : DmRelease) (r : ThreadsSchedResult) : Type 0 where
  missed :
      (s : Thread)
      → LeastMissed now d.run_queue (some s)
      → r.scheduled ≡ some s
      → r.allocated_time ≡ pos 0
      → DmOutcome now d r
  idle :
      d.run_queue ≡ []
      → r.scheduled ≡ none
      → r.allocated_time ≡ d.closest_release_time -ℤ now
      → DmOutcome now d r
  no_real_time :
      LeastMissed now d.run_queue none
      → d.run_queue ≢ []
      → FirstByDeadline d.run_queue none
      → r.scheduled ≡ none
      → r.allocated_time ≡ pos 0
      → DmOutcome now d r
  selected :
      (s : Thread)
      → LeastMissed now d.run_queue none
      → FirstByDeadline d.run_queue (some s)
      → r.scheduled ≡ some s
      → pos 0 ≤ℤ r.allocated_time
      → (r.allocated_time ≡ pos 0) ⊎ IsSafeSlice s d.release_queue now r.allocated_time
      → DmOutcome now d r

abbrev Ends : ℤ → DmRelease → ThreadsSchedResult → Type 0
Ends now d r = DmOutcome now d r × (r.run_queue ≡ d.run_queue) × (r.release_queue ≡ d.release_queue)

dm_selected-Ends :
    (now : ℤ) (d : DmRelease) (o : Option Thread)
    → LeastMissed now d.run_queue none
    → d.run_queue ≢ []
    → FirstByDeadline d.run_queue o
    → Ends now d (dm_selected now d o)
unfolding dm_selected
dm_selected-Ends now d none m ne f = (no_real_time m ne f refl refl, refl, refl)
dm_selected-Ends now d (some s) m ne f =
    let (low, safe) = dm_allocate-IsSafeSlice s d.release_queue now in
    (selected s m f refl low safe, refl, refl)

dm_nonempty-Ends :
    (now : ℤ) (d : DmRelease) (q : List Thread)
    → d.run_queue ≡ q
    → LeastMissed now d.run_queue none
    → Ends now d (dm_nonempty now d q)
unfolding dm_nonempty
dm_nonempty-Ends now d [] e m = (idle e refl refl, refl, refl)
dm_nonempty-Ends now d (th ∷ ths) e m =
    dm_selected-Ends now d (foldl dm_visit none (th ∷ ths)) m (λ z. cc)
      (subst (λ q. FirstByDeadline q (foldl dm_visit none (th ∷ ths))) (sym e)
        (dm_visit-FirstByDeadline (th ∷ ths)))

dm_missed-Ends :
    (now : ℤ) (d : DmRelease) (o : Option Thread)
    → LeastMissed now d.run_queue o
    → Ends now d (dm_missed now d o)
unfolding dm_missed
dm_missed-Ends now d (some s) m = (missed s m refl refl, refl, refl)
dm_missed-Ends now d none m = dm_nonempty-Ends now d d.run_queue refl m

-- For every time and queues: a thread that missed its deadline is returned with no time, the one
-- of smallest ID; otherwise, from an empty run queue nothing is selected, and the time is that to
-- the closest release; otherwise, without a real-time thread nothing is selected, with no time;
-- otherwise the real-time thread that goes first by relative deadline and ID is selected, and a
-- slice that is not empty is safe. The queues are those that the release loop left.
pub dm_select-DmOutcome :
    (now : ℤ) (d : DmRelease)
    → DmOutcome now d (dm_select now d)
      × ((dm_select now d).run_queue ≡ d.run_queue)
      × ((dm_select now d).release_queue ≡ d.release_queue)
unfolding dm_select
dm_select-DmOutcome now d =
    dm_missed-Ends now d (check_deadline_miss d.run_queue now)
      (check_deadline_miss-LeastMissed d.run_queue now)
