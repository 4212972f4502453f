-- ===== src/Sched/Lifecycle.antt =====
-- `switch_handler` and `thread_exit` of threads.c, on the threads that the runtime holds.
use mathlib.Core.List.{
  Perm, Mem, mem-cons_self, mem-cons_of_mem, mem-append_left, Nodup, Nodup-cons, append_assoc,
  map-append, perm_middle, perm_append_singleton,
}
use mathlib.Core.List.Perm
use spring_os_mp.Prelude.{
  ℕ, Option, some, none, List, [], ◌∷◌, ◌≡◌, sym, ap, ◌∙◌, subst, arith, ◌⊎◌, inl, inr, Bool-cases,
  if◌then◌else◌,
}
use spring_os_mp.Prelude.Int.{ℤ, pos, ltb_ℤ, ◌≤ℤ◌, ◌+ℤ◌, ◌-ℤ◌, eq_of_parts}
use spring_os_mp.Sched.Defs.{Thread, eqb_ℤ}
use spring_os_mp.Sched.Runtime.{Runtime, Outcome, arriving, release, find}
use spring_os_mp.Sched.Release.{run_ids, release_ids, ids, release-Perm, release_lem}
use spring_os_mp.Sched.Conserve.{
  Scheduler, Holds, list_del-Perm, Holds-Perm, continue-Holds, exit_thread-Holds,
}
use spring_os_mp.Sched.Handlers

find-Mem :
    (i : ℤ) (q : List Thread) (t : Thread) → find i q ≡ some t → (t.id ≡ i) × Mem i (run_ids q)
unfolding find
find-Mem i [] t e = cc
find-Mem i (x ∷ q) t e = elim (Bool-cases (eqb_ℤ x.id i)) [
  | inl same ↦
      let xi : x.id ≡ i = eq_of_parts x.id i (ground arith) in
      let xt : x ≡ t = ground arith in
      (ap (λ y. y.id) (sym xt) ∙ xi, subst (λ k. Mem k (x.id ∷ run_ids q)) xi mem-cons_self)
  | inr other ↦ let (ti, m) = find-Mem i q t (ground arith) in (ti, mem-cons_of_mem x.id m)
]

entry_of-Mem :
    (c : Option ℤ) (q : List Thread) (t : Thread)
    → Handlers.entry_of c q ≡ some t
    → Mem t.id (run_ids q)
unfolding Handlers.entry_of
entry_of-Mem none q t e = cc
entry_of-Mem (some i) q t e =
    let (ti, m) = find-Mem i q t e in subst (λ k. Mem k (run_ids q)) (sym ti) m

unlink-Perm :
    (r : Runtime) (i : ℤ)
    → Mem i (run_ids r.run_queue)
    → Perm (i ∷ ids (Handlers.unlink r i)) (ids r)
unfolding Handlers.unlink
unlink-Perm r i m = Perm.append_right (release_ids r.release_queue) (list_del-Perm i r.run_queue m)

rotate-Perm :
    (r : Runtime) (t : Thread)
    → Mem t.id (run_ids r.run_queue)
    → Perm (ids (Handlers.rotate r t)) (ids r)
unfolding Handlers.rotate
rotate-Perm r t m =
    Perm.trans
      (rw (map-append, append_assoc)
        (perm_middle (run_ids (Handlers.unlink r t.id).run_queue) (release_ids r.release_queue)))
      (unlink-Perm r t.id m)

refill-id : (t : Thread) → (Handlers.refill_budget t).id ≡ t.id
unfolding Handlers.refill_budget
refill-id t = ground arith

arriving-id : (t : Thread) (a : ℤ) → (arriving t a).id ≡ t.id
unfolding arriving
arriving-id t a = ground arith

queued-id :
    (t : Thread)
    → (arriving (if t.is_real_time then Handlers.refill_budget t else t) t.current_deadline).id
      ≡ t.id
queued-id t = ground (
  arith,
  arriving-id (Handlers.refill_budget t) t.current_deadline,
  arriving-id t t.current_deadline,
  refill-id t,
)

next_cycle-Perm :
    (r : Runtime) (t : Thread)
    → Mem t.id (run_ids r.run_queue)
    → Perm (ids (Handlers.next_cycle r t)) (ids r)
unfolding Handlers.next_cycle
next_cycle-Perm r t m =
    Perm.trans
      (rw (map-append, ← append_assoc, queued-id t)
        (perm_append_singleton t.id (ids (Handlers.unlink r t.id))))
      (unlink-Perm r t.id m)

-- The outcome holds the threads `l`, or all of them but one thread that had at most `n` cycles left.
abbrev pub HoldsBut : List ℤ → ℤ → ℤ → Outcome → Type 0
HoldsBut l i n out =
    Holds l out ⊎ ((rest : List ℤ) × (n ≤ℤ pos 1) × Perm (i ∷ rest) l × Holds rest out)

module _ (s : Scheduler) where
  open s use {choose}

  -- From a permutation of distinct IDs, minus its head.
  tail-Nodup : {i : ℤ} {rest l : List ℤ} → Perm (i ∷ rest) l → Nodup l → Nodup rest
  tail-Nodup p d = (Nodup-cons.0 (Perm.nodup (Perm.symm p) d)).1

  finish_current-HoldsBut :
      (ctx : ℤ) (r : Runtime) (t : Thread)
      → Nodup (ids r)
      → Mem t.id (run_ids r.run_queue)
      → HoldsBut (ids r) t.id t.n (Handlers.finish_current choose ctx r t)
  unfolding Handlers.finish_current
  finish_current-HoldsBut ctx r t d m = elim (Bool-cases (ltb_ℤ (pos 1) t.n)) [
    | inl more ↦ simp more (
        inl (
          let p = next_cycle-Perm r (record t { n = t.n -ℤ pos 1 }) m in
          Holds-Perm _ p (
            continue-Holds s ctx (Handlers.next_cycle r (record t { n = t.n -ℤ pos 1 }))
              (Perm.nodup (Perm.symm p) d))))
    | inr last ↦ simp last (
        inr (
          let p = unlink-Perm r t.id m in
          (
            ids (Handlers.unlink r t.id),
            ground arith,
            p,
            exit_thread-Holds s ctx r t.id _ (Perm.refl _) (tail-Nodup p d),
          )))
  ]

  switch_charged-HoldsBut :
      (ctx : ℤ) (r : Runtime) (t : Thread)
      → Nodup (ids r)
      → Mem t.id (run_ids r.run_queue)
      → HoldsBut (ids r) t.id t.n (Handlers.switch_charged choose ctx r t)
  unfolding Handlers.switch_charged
  switch_charged-HoldsBut ctx r t d m =
      elim (Bool-cases (Handlers.misses r.threading_system_time t)) [
        | inl late ↦ simp late (inl tt)
        | inr fine ↦ elim (Bool-cases (ltb_ℤ (pos 0) t.remaining_time)) [
          | inl left ↦ simp fine (
              simp left (
                inl (
                  Holds-Perm _ (rotate-Perm r t m) (
                    continue-Holds s ctx (Handlers.rotate r t)
                      (Perm.nodup (Perm.symm (rotate-Perm r t m)) d)))))
          | inr done ↦ simp fine (simp done (finish_current-HoldsBut ctx r t d m))
        ]
      ]

  HoldsBut-Perm :
      (i n : ℤ) (o : Outcome) {l m : List ℤ} → Perm l m → HoldsBut l i n o → HoldsBut m i n o
  HoldsBut-Perm i n o p (inl h) = inl (Holds-Perm o p h)
  HoldsBut-Perm i n o p (inr (rest, k, q, h)) = inr (rest, k, Perm.trans q p, h)

  released_run :
      (r : Runtime) (i : ℤ) → Mem i (run_ids r.run_queue) → Mem i (run_ids (release r).run_queue)
  released_run r i m = rw ((release_lem r).0, map-append) (mem-append_left _ m)

  -- If the threads that the runtime holds have distinct IDs and `current` points to the thread `t`
  -- of the run queue, then after `switch_handler`, for every scheduling function that hands back its
  -- threads, the runtime that goes on holds the same threads, each once; or `t` had at most one
  -- cycle left, and it holds all of them but `t`.
  pub switch_handler-HoldsBut :
      (ctx : ℤ) (elapsed : ℕ) (r : Runtime) (t : Thread)
      → Nodup (ids r)
      → Handlers.entry_of r.current r.run_queue ≡ some t
      → HoldsBut (ids r) t.id t.n (Handlers.switch_handler choose ctx elapsed r)
  unfolding Handlers.switch_handler Handlers.charge
  switch_handler-HoldsBut ctx elapsed r t d e =
      rw (e, Handlers.switch_thread)
        (let ticked : Runtime = record r {
          threading_system_time = r.threading_system_time +ℤ pos elapsed;
        } in
          let p = release-Perm ticked in
          HoldsBut-Perm t.id t.n _ p (
            switch_charged-HoldsBut ctx (release ticked) (Handlers.charge elapsed t)
              (Perm.nodup (Perm.symm p) d)
              (released_run ticked t.id (entry_of-Mem r.current r.run_queue t e))))

  -- If the threads that the runtime holds have distinct IDs and `current` points to the thread `i`
  -- of the run queue, then after `thread_exit` the runtime that goes on holds all threads but `i`.
  pub thread_exit-Holds :
      (ctx consumed : ℤ) (r : Runtime) (i : ℤ)
      → Nodup (ids r)
      → r.current ≡ some i
      → Mem i (run_ids r.run_queue)
      → (rest : List ℤ) × Perm (i ∷ rest) (ids r)
        × Holds rest (Handlers.thread_exit choose ctx consumed r)
  unfolding Handlers.thread_exit
  thread_exit-Holds ctx consumed r i d e m =
      let ticked : Runtime = record r {
        threading_system_time = r.threading_system_time +ℤ consumed;
      } in
      let p =
        Perm.trans (unlink-Perm (release ticked) i (released_run ticked i m))
          (release-Perm ticked) in
      (
        ids (Handlers.unlink (release ticked) i),
        p,
        rw (e, Handlers.thread_exit_at)
            (exit_thread-Holds s ctx (release ticked) i _ (Perm.refl _) (tail-Nodup p d)),
      )
