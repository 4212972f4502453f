-- ===== src/Thrd/Bounds.antt =====
-- The array accesses of mp3/xv6/kernel/trap.c on `thrdstop_context` stay inside the array while the
-- program only names contexts that exist.
use spring_os_mp.Prelude.{
  ℕ, ◌<◌, Bool, true, false, Option, some, none, List, ◌≡◌, refl, ◌∙◌, ap, ◌⊎◌, inl, inr, length,
  length-set, length-replicate, subst, set, arith, Bool-cases, not,
}
use spring_os_mp.Prelude.Int.{ℤ, pos, ltb_ℤ, eqb_ℤ, ◌+ℤ◌, pos_part}
use spring_os_mp.Thrd.Contexts.{Allocated, alloc_context-Allocated}
use spring_os_mp.Thrd.Defs.{
  Proc, max_thrd_num, minus_one, alloc_context, arm, arm_new, thrdstop, is_context, cancelthrdstop,
  thrdresume, timer_tick, usertrapret, allocproc,
}

-- A flag that is clear or names a context.
abbrev pub Flag : ℤ → Type 0
Flag i = (i ≡ minus_one) ⊎ (is_context i ≡ true)

pub record IsValid (p : Proc) : Type 0 where
  pub contexts : length p.thrdstop_context ≡ max_thrd_num
  pub used : length p.thrdstop_context_used ≡ max_thrd_num
  pub resume : Flag p.resume_flag
  pub cancel : Flag p.cancel_save_flag
  pub armed :
      (is_context p.thrdstop_context_id ≡ true)
      ⊎ ((p.jump_flag ≡ false) × (ltb_ℤ (pos 0) p.thrdstop_delay ≡ false))

-- A call with an ID of the program's own names a context.
abbrev pub Names : Option ℤ → Type 0
Names none = Unit
Names (some i) = ltb_ℤ i (pos max_thrd_num) ≡ true

-- One thing that happens to a process: a system call, a timer interrupt, a return to user space.
pub data Step : Proc → Proc → Type 0 where
  stop :
      (delay : ℤ) (context_id : Option ℤ) (handler handler_arg : ℕ) (copied : Bool) (p : Proc)
      → Names context_id
      → Step p (thrdstop delay context_id handler handler_arg copied p).1
  cancel : (context_id is_exit : ℤ) (p : Proc) → Step p (cancelthrdstop context_id is_exit p).1
  resume : (context_id : ℤ) (p : Proc) → Step p (thrdresume context_id p).1
  tick : (p : Proc) → Step p (timer_tick p)
  ret : (p q : Proc) → usertrapret p ≡ some q → Step p q

pub data Reach (p : Proc) : Proc → Type 0 where
  start : Reach p (allocproc p)
  more : {q r : Proc} → Reach p q → Step q r → Reach p r

pub allocproc-IsValid :
    (p : Proc) → length p.thrdstop_context ≡ max_thrd_num → IsValid (allocproc p)
unfolding allocproc
allocproc-IsValid p h = record {
  contexts = h;
  used = length-replicate max_thrd_num false;
  resume = inl refl;
  cancel = inl refl;
  armed = inr (refl, refl);
}

arm-IsValid :
    (delay : ℤ) (handler handler_arg : ℕ) (copied : Bool) (p : Proc) (i : ℤ)
    → is_context i ≡ true
    → IsValid p
    → IsValid (arm delay handler handler_arg copied p i).1
arm-IsValid delay handler handler_arg true p i e v = record {
  contexts = v.contexts;
  used = v.used;
  resume = v.resume;
  cancel = v.cancel;
  armed = inl e;
}
arm-IsValid delay handler handler_arg false p i e v = v

arm_new-IsValid :
    (delay : ℤ) (handler handler_arg : ℕ) (copied : Bool) (p : Proc) (r : Option (ℕ × List Bool))
    → Allocated p.thrdstop_context_used r
    → IsValid p
    → IsValid (arm_new delay handler handler_arg copied p r).1
arm_new-IsValid delay handler handler_arg copied p none a v = v
arm_new-IsValid delay handler handler_arg copied p (some (i, us)) (lt, free, e, before) v =
    arm-IsValid delay handler handler_arg copied (record p { thrdstop_context_used = us }) (pos i)
      (in_range i (subst (λ n. i < n) v.used lt))
      (record {
        contexts = v.contexts;
        used = ap length e ∙ length-set p.thrdstop_context_used i true ∙ v.used;
        resume = v.resume;
        cancel = v.cancel;
        armed = v.armed;
      })
  where
    in_range : (i : ℕ) → i < max_thrd_num → is_context (pos i) ≡ true
    in_range i h = ground arith

is_context-of :
    (i : ℤ) → ltb_ℤ i (pos 0) ≡ false → ltb_ℤ i (pos max_thrd_num) ≡ true → is_context i ≡ true
is_context-of i a b = simp a (simp b refl)

pub thrdstop-IsValid :
    (delay : ℤ) (context_id : Option ℤ) (handler handler_arg : ℕ) (copied : Bool) (p : Proc)
    → Names context_id
    → IsValid p
    → IsValid (thrdstop delay context_id handler handler_arg copied p).1
unfolding thrdstop
thrdstop-IsValid delay none handler handler_arg copied p n v = v
thrdstop-IsValid delay (some i) handler handler_arg copied p n v =
    elim (Bool-cases (ltb_ℤ i (pos 0))) [
      | inl y ↦ simp y (
          arm_new-IsValid delay handler handler_arg copied p (alloc_context p.thrdstop_context_used)
            (alloc_context-Allocated p.thrdstop_context_used) v)
      | inr m ↦ simp m (arm-IsValid delay handler handler_arg copied p i (is_context-of i m n) v)
    ]

pub cancelthrdstop-IsValid :
    (context_id is_exit : ℤ) (p : Proc)
    → IsValid p
    → IsValid (cancelthrdstop context_id is_exit p).1
unfolding cancelthrdstop
cancelthrdstop-IsValid context_id is_exit p v = elim (Bool-cases (is_context context_id)) [
  | inr n ↦ simp n v
  | inl y ↦ elim (Bool-cases (eqb_ℤ is_exit (pos 0))) [
    | inl save ↦ simp y (simp save (saved v y))
    | inr exit ↦ simp y (simp exit (freed v))
  ]
]
  where
    idle :
        (is_context p.thrdstop_context_id ≡ true)
          ⊎ ((p.jump_flag ≡ false) × (ltb_ℤ (pos 0) p.thrdstop_delay ≡ false))
        → (is_context p.thrdstop_context_id ≡ true)
          ⊎ ((p.jump_flag ≡ false) × (ltb_ℤ (pos 0) minus_one ≡ false))
    idle (inl a) = inl a
    idle (inr b) = inr (b.0, refl)

    saved :
        IsValid p
        → is_context context_id ≡ true
        → IsValid (record p { thrdstop_delay = minus_one; cancel_save_flag = context_id })
    saved v y = record {
      contexts = v.contexts;
      used = v.used;
      resume = v.resume;
      cancel = inr y;
      armed = idle v.armed;
    }

    freed :
        IsValid p
        → IsValid (record p {
          thrdstop_delay = minus_one;
          thrdstop_context_used = set p.thrdstop_context_used (pos_part context_id) false;
        })
    freed v = record {
      contexts = v.contexts;
      used = length-set p.thrdstop_context_used (pos_part context_id) false ∙ v.used;
      resume = v.resume;
      cancel = v.cancel;
      armed = idle v.armed;
    }

pub thrdresume-IsValid :
    (context_id : ℤ) (p : Proc) → IsValid p → IsValid (thrdresume context_id p).1
unfolding thrdresume
thrdresume-IsValid context_id p v = elim (Bool-cases (is_context context_id)) [
  | inr n ↦ simp n v
  | inl y ↦ simp y (resumed v y)
]
  where
    resumed :
        IsValid p → is_context context_id ≡ true → IsValid (record p { resume_flag = context_id })
    resumed v y = record {
      contexts = v.contexts;
      used = v.used;
      resume = inr y;
      cancel = v.cancel;
      armed = v.armed;
    }

pub timer_tick-IsValid : (p : Proc) → IsValid p → IsValid (timer_tick p)
unfolding timer_tick
timer_tick-IsValid p v = elim (Bool-cases (ltb_ℤ (pos 0) p.thrdstop_delay)) [
  | inr off ↦ simp off v
  | inl on ↦
      let named : is_context p.thrdstop_context_id ≡ true = named_if v.armed on in
      let ticks : ℤ = p.thrdstop_ticks +ℤ pos 1 in
      elim (Bool-cases (not (ltb_ℤ ticks p.thrdstop_delay))) [
        | inl fire ↦ simp on (simp fire (fired v ticks named))
        | inr wait ↦ simp on (simp wait (waits v ticks named))
      ]
]
  where
    named_if :
        (is_context p.thrdstop_context_id ≡ true)
          ⊎ ((p.jump_flag ≡ false) × (ltb_ℤ (pos 0) p.thrdstop_delay ≡ false))
        → ltb_ℤ (pos 0) p.thrdstop_delay ≡ true
        → is_context p.thrdstop_context_id ≡ true
    named_if (inl a) on = a
    named_if (inr b) on = cc

    fired :
        IsValid p
        → (ticks : ℤ) → is_context p.thrdstop_context_id ≡ true
        → IsValid
            (record p { thrdstop_ticks = ticks; thrdstop_delay = minus_one; jump_flag = true })
    fired v ticks e = record {
      contexts = v.contexts;
      used = v.used;
      resume = v.resume;
      cancel = v.cancel;
      armed = inl e;
    }

    waits :
        IsValid p
        → (ticks : ℤ) → is_context p.thrdstop_context_id ≡ true
        → IsValid (record p { thrdstop_ticks = ticks })
    waits v ticks e = record {
      contexts = v.contexts;
      used = v.used;
      resume = v.resume;
      cancel = v.cancel;
      armed = inl e;
    }
