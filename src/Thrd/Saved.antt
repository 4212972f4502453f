-- ===== src/Thrd/Saved.antt =====
-- What `sys_cancelthrdstop` saves and `sys_thrdresume` brings back, in mp3/xv6/kernel/thrd.c and trap.c,
-- and the access outside the array that an ID past its end leads to.
use spring_os_mp.Prelude.{
  ℕ, ◌<◌, ◌≤◌, true, false, some, none, ◌≡◌, refl, sym, ◌∙◌, ap, length, get_elem?,
  get_elem?-set_self, set, arith, ltb, lt→ltb, not, subst,
}
use spring_os_mp.Prelude.Int.{pos, ltb_ℤ, eqb_ℤ}
use spring_os_mp.Thrd.Defs.{
  Proc, Trapframe, max_thrd_num, minus_one, is_context, thrdstop, cancelthrdstop, thrdresume,
  usertrapret,
}
use spring_os_mp.Thrd.Timer.{ticks, timer_tick-last}
use spring_os_mp.Thrd.Defs.{as_uint64}
use spring_os_mp.Thrd.Defs.{syscall}

-- A context of a process is what it was, whatever else has changed.
abbrev pub Keeps : ℕ → Proc → Proc → Type 0
Keeps i q s = get_elem? s.thrdstop_context i ≡ get_elem? q.thrdstop_context i

context_of : (i : ℕ) → i < max_thrd_num → is_context (pos i) ≡ true
context_of i h = ground arith

set_flag : (i : ℕ) → not (eqb_ℤ (pos i) minus_one) ≡ true
set_flag i = ground arith

usertrapret-resumed :
    (i : ℕ) (s : Proc) (frame : Trapframe)
    → i < max_thrd_num
    → get_elem? s.thrdstop_context i ≡ some frame
    → (r : Proc) × (usertrapret (syscall (thrdresume (pos i)) s) ≡ some r) × (r.trapframe ≡ frame)
unfolding usertrapret thrdresume syscall
usertrapret-resumed i s frame h e =
    let named = context_of i h in
    let set_now = set_flag i in
    (
      record s { resume_flag = minus_one; trapframe = frame },
      simp named (simp set_now (simp e refl)),
      refl,
    )

-- The trap frame once `syscall` has stored the ticks that `sys_cancelthrdstop` returns.
abbrev pub with_ticks : Proc → Trapframe
with_ticks p = record p.trapframe { a0 = as_uint64 p.thrdstop_ticks }

-- For every process with all its contexts and neither a resumption nor a jump pending, the system call
-- `sys_cancelthrdstop` with a context below MAX_THRD_NUM and no exit, and the return to user space, save
-- the trap frame there, in which `a0` is the number of ticks of the process, and return it; and from every
-- later process that keeps this context, the system call `sys_thrdresume` and the return to user space
-- bring that trap frame back, `a0` included, which is then not the return value of `sys_thrdresume`.
pub cancelthrdstop-thrdresume :
    (i : ℕ) (p : Proc)
    → i < max_thrd_num
    → length p.thrdstop_context ≡ max_thrd_num
    → p.resume_flag ≡ minus_one
    → p.jump_flag ≡ false
    → (q : Proc) × (usertrapret (syscall (cancelthrdstop (pos i) (pos 0)) p) ≡ some q)
      × (q.trapframe ≡ with_ticks p)
      × ((s : Proc)
          → Keeps i q s
          → (r : Proc) × (usertrapret (syscall (thrdresume (pos i)) s) ≡ some r)
            × (r.trapframe ≡ with_ticks p))
unfolding usertrapret cancelthrdstop syscall
cancelthrdstop-thrdresume i p h l no_resume no_jump =
    let named = context_of i h in
    let set_now = set_flag i in
    let lt : i < length p.thrdstop_context = subst (λ n. i < n) (sym l) h in
    let inside : ltb i (length p.thrdstop_context) ≡ true =
      lt→ltb i (length p.thrdstop_context) lt in
    let q : Proc = record p {
      thrdstop_delay = minus_one;
      cancel_save_flag = minus_one;
      thrdstop_context = set p.thrdstop_context i (with_ticks p);
      trapframe = with_ticks p;
    } in
    (
      q,
      simp named (simp no_resume (simp no_jump (simp set_now (simp inside refl)))),
      refl,
      (λ s k.
          usertrapret-resumed i s (with_ticks p) h
            (k ∙ get_elem?-set_self p.thrdstop_context i (with_ticks p) lt)),
    )

-- For every process with no resumption pending, a call of `sys_thrdstop` with a delay of one tick and
-- an ID of MAX_THRD_NUM or more, whose copies succeed, leads to a return to user space that accesses
-- a context outside the array.
pub thrdstop_overruns :
    (i handler handler_arg : ℕ) (p : Proc)
    → max_thrd_num ≤ i
    → length p.thrdstop_context ≡ max_thrd_num
    → p.resume_flag ≡ minus_one
    → usertrapret (ticks 1 (thrdstop (pos 1) (some (pos i)) handler handler_arg true p).1) ≡ none
unfolding usertrapret thrdstop
thrdstop_overruns i handler handler_arg p h l no_resume =
    let q : Proc = record p {
      thrdstop_context_id = pos i;
      thrdstop_handler_pointer = handler;
      thrdstop_handler_arg = handler_arg;
    } in
    let named : ltb_ℤ (pos i) (pos 0) ≡ false = ground arith in
    let outside : ltb i (length p.thrdstop_context) ≡ false =
      subst (λ n. ltb i n ≡ false) (sym l) (past max_thrd_num i h) in
    simp named (ap usertrapret (timer_tick-last 0 q) ∙ simp no_resume (simp outside refl))
  where
    past : (m i : ℕ) → m ≤ i → ltb i m ≡ false
    past m i h = ground arith
