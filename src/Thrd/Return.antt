-- ===== src/Thrd/Return.antt =====
-- Every return to user space of mp3/xv6/kernel/trap.c finds the context it needs.
use spring_os_mp.Prelude.{
  ℕ, zero, suc, ◌<◌, true, false, Option, some, List, [], ◌∷◌, ◌≡◌, refl, sym, ◌∙◌, ap, ◌⊎◌, inl,
  inr, length, length-set, get_elem?, set, arith, ltb, lt→ltb, Bool-cases, not, subst,
}
use spring_os_mp.Prelude.Int.{ℤ, pos, negsuc, ltb_ℤ, eqb_ℤ}
use spring_os_mp.Thrd.Defs.{
  Proc, Trapframe, max_thrd_num, minus_one, is_context, load_context, save_context, usertrapret,
  then_do, restored, jump,
}
use spring_os_mp.Thrd.Bounds.{
  IsValid, Flag, Step, Reach, allocproc-IsValid, thrdstop-IsValid, cancelthrdstop-IsValid,
  thrdresume-IsValid, timer_tick-IsValid,
}

get_elem?-some :
    (xs : List Trapframe) (i : ℕ) → i < length xs → (x : Trapframe) × (get_elem? xs i ≡ some x)
get_elem?-some [] i h = absurd (omega arith)
get_elem?-some (x ∷ xs) zero h = (x, refl)
get_elem?-some (x ∷ xs) (suc i) h = get_elem?-some xs i (omega arith)

in_range : (i : ℕ) → is_context (pos i) ≡ true → i < max_thrd_num
in_range i h = ground arith

no_context : (n : ℕ) → is_context (negsuc n) ≡ true → ⊥
no_context n h = ground arith

load_context-some :
    (p : Proc) (i : ℤ)
    → length p.thrdstop_context ≡ max_thrd_num
    → is_context i ≡ true
    → (x : Trapframe) × (load_context p i ≡ some x)
load_context-some p (pos i) l e =
    get_elem?-some p.thrdstop_context i (subst (λ n. i < n) (sym l) (in_range i e))
load_context-some p (negsuc n) l e = absurd (no_context n e)

-- The process with its trap frame saved at some index.
abbrev saved_at : Proc → ℕ → Proc
saved_at p i = record p { thrdstop_context = set p.thrdstop_context i p.trapframe }

save_context-some :
    (p : Proc) (i : ℤ)
    → length p.thrdstop_context ≡ max_thrd_num
    → is_context i ≡ true
    → (n : ℕ) × (save_context p i ≡ some (saved_at p n))
save_context-some p (pos i) l e =
    let lt : ltb i (length p.thrdstop_context) ≡ true =
      lt→ltb i (length p.thrdstop_context) (subst (λ n. i < n) (sym l) (in_range i e)) in
    (i, simp lt refl)
save_context-some p (negsuc n) l e = absurd (no_context n e)

saved_at-IsValid : (p : Proc) (n : ℕ) → IsValid p → IsValid (saved_at p n)
saved_at-IsValid p n v = record {
  contexts = length-set p.thrdstop_context n p.trapframe ∙ v.contexts;
  used = v.used;
  resume = v.resume;
  cancel = v.cancel;
  armed = v.armed;
}

minus_one-test : (i : ℤ) → i ≡ minus_one → not (eqb_ℤ i minus_one) ≡ true → ⊥
minus_one-test i e h = ground arith

-- A flag that is set names a context.
Flag-set : (i : ℤ) → Flag i → not (eqb_ℤ i minus_one) ≡ true → is_context i ≡ true
Flag-set i (inl e) h = absurd (minus_one-test i e h)
Flag-set i (inr y) h = y

Returns : Option Proc → Type 0
Returns r = (q : Proc) × (r ≡ some q) × IsValid q

then-Returns :
    (f : Proc → Proc) (p : Proc) (r : Option Proc) (n : ℕ)
    → r ≡ some (saved_at p n)
    → IsValid (f (saved_at p n))
    → Returns (then_do f r)
unfolding Returns
then-Returns f p r n e v = (f (saved_at p n), ap (then_do f) e, v)

jump-IsValid : (p : Proc) → is_context p.thrdstop_context_id ≡ true → IsValid p → IsValid (jump p)
jump-IsValid p e v = record {
  contexts = v.contexts;
  used = v.used;
  resume = v.resume;
  cancel = v.cancel;
  armed = inl e;
}

restored-Returns :
    (p : Proc)
    → IsValid p
    → is_context p.resume_flag ≡ true
    → Returns (restored p (load_context p p.resume_flag))
unfolding Returns
restored-Returns p v e =
    let (frame, found) = load_context-some p p.resume_flag v.contexts e in
    (
      record p { trapframe = frame; resume_flag = minus_one },
      ap (restored p) found,
      record {
        contexts = v.contexts;
        used = v.used;
        resume = inl refl;
        cancel = v.cancel;
        armed = v.armed;
      },
    )

jump-Returns :
    (p : Proc)
    → IsValid p
    → p.jump_flag ≡ true
    → Returns (then_do jump (save_context p p.thrdstop_context_id))
jump-Returns p v e =
    let named = named_if v.armed e in
    let (n, saved) = save_context-some p p.thrdstop_context_id v.contexts named in
    then-Returns jump p (save_context p p.thrdstop_context_id) n saved
      (jump-IsValid (saved_at p n) named (saved_at-IsValid p n v))
  where
    named_if :
        (is_context p.thrdstop_context_id ≡ true)
          ⊎ ((p.jump_flag ≡ false) × (ltb_ℤ (pos 0) p.thrdstop_delay ≡ false))
        → p.jump_flag ≡ true
        → is_context p.thrdstop_context_id ≡ true
    named_if (inl a) e = a
    named_if (inr b) e = cc

cancel-Returns :
    (p : Proc)
    → IsValid p
    → is_context p.cancel_save_flag ≡ true
    → Returns (
        then_do
          (λ q. record q { cancel_save_flag = minus_one })
          (save_context p p.cancel_save_flag))
cancel-Returns p v e =
    let (n, saved) = save_context-some p p.cancel_save_flag v.contexts e in
    then-Returns (λ q. record q { cancel_save_flag = minus_one }) p
      (save_context p p.cancel_save_flag) n saved (cleared (saved_at p n) (saved_at-IsValid p n v))
  where
    cleared : (q : Proc) → IsValid q → IsValid (record q { cancel_save_flag = minus_one })
    cleared q w = record {
      contexts = w.contexts;
      used = w.used;
      resume = w.resume;
      cancel = inl refl;
      armed = w.armed;
    }

same-Returns : (p : Proc) → IsValid p → Returns (some p)
unfolding Returns
same-Returns p v = (p, refl, v)

usertrapret-Returns : (p : Proc) → IsValid p → Returns (usertrapret p)
unfolding usertrapret
usertrapret-Returns p v = elim (Bool-cases (not (eqb_ℤ p.resume_flag minus_one))) [
  | inl y ↦ simp y (restored-Returns p v (Flag-set p.resume_flag v.resume y))
  | inr n ↦ elim (Bool-cases p.jump_flag) [
    | inl j ↦ simp n (simp j (jump-Returns p v j))
    | inr k ↦ elim (Bool-cases (not (eqb_ℤ p.cancel_save_flag minus_one))) [
      | inl c ↦
          simp n (simp k (simp c (cancel-Returns p v (Flag-set p.cancel_save_flag v.cancel c))))
      | inr d ↦ simp n (simp k (simp d (same-Returns p v)))
    ]
  ]
]

Step-IsValid : (p q : Proc) → Step p q → IsValid p → IsValid q
unfolding Returns
Step-IsValid _ _ (Step.stop delay context_id handler handler_arg copied p n) v =
    thrdstop-IsValid delay context_id handler handler_arg copied p n v
Step-IsValid _ _ (Step.cancel context_id is_exit p) v =
    cancelthrdstop-IsValid context_id is_exit p v
Step-IsValid _ _ (Step.resume context_id p) v = thrdresume-IsValid context_id p v
Step-IsValid _ _ (Step.tick p) v = timer_tick-IsValid p v
Step-IsValid _ _ (Step.ret p q e) v =
    let (r, f, w) = usertrapret-Returns p v in subst IsValid (some-injective (sym f ∙ e)) w
  where
    some-injective : {a b : Proc} → some a ≡ some b → a ≡ b
    some-injective e = cc

Reach-IsValid : (p q : Proc) → length p.thrdstop_context ≡ max_thrd_num → Reach p q → IsValid q
Reach-IsValid p _ h Reach.start = allocproc-IsValid p h
Reach-IsValid p r h (Reach.more {q} path step) = Step-IsValid q r step (Reach-IsValid p q h path)

-- In every sequence of the three system calls, timer interrupts and returns to user space that starts
-- at `allocproc`, where every context that `sys_thrdstop` is given is below MAX_THRD_NUM, the process
-- stays valid: its flags name contexts that exist, and the next return to user space accesses no
-- context outside the array.
pub Reach-usertrapret :
    (p q : Proc)
    → length p.thrdstop_context ≡ max_thrd_num
    → Reach p q
    → IsValid q × ((r : Proc) × (usertrapret q ≡ some r))
unfolding Returns
Reach-usertrapret p q h path =
    let v = Reach-IsValid p q h path in let (r, e, w) = usertrapret-Returns q v in (v, (r, e))
