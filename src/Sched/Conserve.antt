-- ===== src/Sched/Conserve.antt =====
-- No handler of threads.c loses a thread, makes one up, or queues it twice; only a thread whose
-- last cycle has ended goes. What a scheduling function has to promise for it is an interface.
use mathlib.Core.List.{Perm, Mem, Mem-prop, mem-cons, Nodup, not-mem-nil}
use mathlib.Core.List.Perm
use mathlib.Core.Logic.Or
use spring_os_mp.Prelude.{
  false, Option, some, none, List, [], ◌∷◌, ◌++◌, ◌≡◌, refl, sym, ap, subst, arith, inl, inr,
  Bool-cases,
}
use spring_os_mp.Prelude.Int.{ℤ, pos, ltb_ℤ, eq_of_parts}
use spring_os_mp.Sched.Defs.{Thread, ThreadsSchedArgs, ThreadsSchedResult, eqb_ℤ, list_del}
use spring_os_mp.Sched.Runtime.{
  Runtime, Outcome, back_to_main, missed_in_switch, missed_in_dispatch, no_context, invalid,
  started, resumed, release, update,
}
use spring_os_mp.Sched.Release.{run_ids, release_ids, ids, release-Perm}
use spring_os_mp.Sched.Handlers
use spring_os_mp.Prelude.{◌&&◌, ◌==◌}

-- A scheduling function that hands back the threads that it was given, if no ID is twice there.
pub record Scheduler : Type 0 where
  pub choose : ThreadsSchedArgs → ThreadsSchedResult
  pub keeps :
      (a : ThreadsSchedArgs)
      → Nodup (run_ids a.run_queue ++ release_ids a.release_queue)
      → Perm
          (run_ids (choose a).run_queue ++ release_ids (choose a).release_queue)
          (run_ids a.run_queue ++ release_ids a.release_queue)

-- The runtime that goes on holds the threads `l`, each once.
abbrev pub Holds : List ℤ → Outcome → Type 0
Holds l (back_to_main r) = Perm (ids r) l
Holds l (started i r) = Perm (ids r) l
Holds l (resumed i r) = Perm (ids r) l
Holds l _ = Unit {0}

eqb_clash : (a i : ℤ) → eqb_ℤ a i ≡ false → i ≡ a → ⊥
eqb_clash a i o e = ground arith

pub list_del-Perm :
    (i : ℤ) (q : List Thread) → Mem i (run_ids q) → Perm (i ∷ run_ids (list_del i q)) (run_ids q)
unfolding list_del
list_del-Perm i [] m = absurd (not-mem-nil m)
list_del-Perm i (t ∷ q) m = elim (Bool-cases (eqb_ℤ t.id i)) [
  | inl same ↦ simp same (
      subst (λ k. Perm (k ∷ run_ids q) (t.id ∷ run_ids q)) (eq_of_parts t.id i (ground arith))
        (Perm.refl _))
  | inr other ↦ simp other (
      Perm.trans (Perm.swap t.id i (run_ids (list_del i q))) (
        Perm.cons t.id (
          list_del-Perm i q
            (Or.elim Mem-prop (mem-cons.0 m) (λ e. absurd (eqb_clash t.id i other e)) (λ h. h)))))
]

update-ids :
    (i : ℤ) (f : Thread → Thread) (q : List Thread)
    → ((t : Thread) → (f t).id ≡ t.id)
    → run_ids (update i f q) ≡ run_ids q
unfolding update
update-ids i f [] h = refl
update-ids i f (t ∷ q) h = elim (Bool-cases (eqb_ℤ t.id i)) [
  | inl same ↦ simp same (ap (λ k. k ∷ run_ids q) (h t))
  | inr other ↦ simp other (ap (◌∷◌ t.id) (update-ids i f q h))
]

dispatch_thread-Holds :
    (ctx : ℤ) (r : Runtime) (o : Option Thread) → Holds (ids r) (Handlers.dispatch_thread ctx r o)
unfolding Handlers.dispatch_thread
dispatch_thread-Holds ctx r none = tt
dispatch_thread-Holds ctx r (some t) = elim (Bool-cases (t.is_real_time && r.allocated_time == 0)) [
  | inl late ↦ simp late tt
  | inr fine ↦ elim (Bool-cases t.buf_set) [
    | inl old ↦ simp (fine, old) (Perm.refl _)
    | inr new ↦ elim (Bool-cases (ltb_ℤ ctx (pos 0))) [
      | inl bad ↦ simp (fine, new, bad) tt
      | inr good ↦
          simp (fine, new, good)
            (subst (λ l. Perm (l ++ release_ids r.release_queue) (ids r))
              (sym (update-ids t.id _ r.run_queue (λ th. refl))) (Perm.refl _))
    ]
  ]
]

dispatch-Holds : (ctx : ℤ) (r : Runtime) → Holds (ids r) (Handlers.dispatch ctx r)
unfolding Handlers.dispatch
dispatch-Holds ctx r = at r.current
  where
    at : (o : Option ℤ) → Holds (ids r) (Handlers.dispatch_at ctx r o)
    at none = Perm.refl _
    at (some i) = dispatch_thread-Holds ctx r _

pub Holds-Perm : (o : Outcome) {l m : List ℤ} → Perm l m → Holds l o → Holds m o
Holds-Perm (back_to_main r) p h = Perm.trans h p
Holds-Perm (started i r) p h = Perm.trans h p
Holds-Perm (resumed i r) p h = Perm.trans h p
Holds-Perm (missed_in_switch i) p h = tt
Holds-Perm (missed_in_dispatch i) p h = tt
Holds-Perm no_context p h = tt
Holds-Perm invalid p h = tt

module _ (s : Scheduler) where
  open s use {choose, keeps}

  schedule-Perm : (r : Runtime) → Nodup (ids r) → Perm (ids (Handlers.schedule choose r)) (ids r)
  unfolding Handlers.schedule
  schedule-Perm r d = keeps (Handlers.sched_args r) d

  pub continue-Holds :
      (ctx : ℤ) (r : Runtime) → Nodup (ids r) → Holds (ids r) (Handlers.continue choose ctx r)
  unfolding Handlers.continue
  continue-Holds ctx r d =
      Holds-Perm _
        (Perm.trans (schedule-Perm (release r) (Perm.nodup (Perm.symm (release-Perm r)) d))
          (release-Perm r))
        (dispatch-Holds ctx (Handlers.schedule choose (release r)))

  pub exit_thread-Holds :
      (ctx : ℤ) (r : Runtime) (i : ℤ) (l : List ℤ)
      → Perm (ids (Handlers.unlink r i)) l
      → Nodup l
      → Holds l (Handlers.exit_thread choose ctx r i)
  unfolding Handlers.exit_thread
  exit_thread-Holds ctx r i l p d =
      Holds-Perm _ (Perm.trans (schedule-Perm (Handlers.unlink r i) (Perm.nodup (Perm.symm p) d)) p)
        (dispatch-Holds ctx (Handlers.schedule choose (Handlers.unlink r i)))
