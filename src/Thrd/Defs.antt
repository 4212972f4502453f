-- ===== src/Thrd/Defs.antt =====
-- The system calls of mp3/xv6/kernel/thrd.c, and what syscall.c and trap.c do for them on a timer interrupt and
-- before the return to user space. A C `int` is an integer; the flags that are only 0 or 1 are
-- Booleans. A trap frame is its program counter, `a0` and the other registers; the kernel's own
-- fields of it, which every return to user space sets, are left out. An access outside
-- `thrdstop_context` is `none`.
use spring_os_mp.Prelude.{
  ℕ, suc, Bool, true, false, Option, some, none, List, [], ◌∷◌, get_elem?, length, set, replicate,
  ◌||◌, not, ltb, if◌then◌else◌,
}
use spring_os_mp.Prelude.Int.{ℤ, pos, negsuc, ltb_ℤ, eqb_ℤ, ◌+ℤ◌, pos_part}
use spring_os_mp.Prelude.{◌-◌}
use spring_os_mp.Prelude.{◌%◌}
use spring_os_mp.Prelude.{◌^◌}

abbrev pub max_thrd_num : ℕ
max_thrd_num = 16

pub record Trapframe : Type 0 where
  pub epc : ℕ
  pub a0 : ℕ
  pub registers : List ℕ

pub record Proc : Type 0 where
  pub trapframe : Trapframe
  pub thrdstop_ticks : ℤ
  pub thrdstop_delay : ℤ
  pub thrdstop_context_id : ℤ
  pub thrdstop_handler_arg : ℕ
  pub thrdstop_handler_pointer : ℕ
  pub thrdstop_context : List Trapframe
  pub thrdstop_context_used : List Bool
  pub jump_flag : Bool
  pub resume_flag : ℤ
  pub cancel_save_flag : ℤ

abbrev pub minus_one : ℤ
minus_one = negsuc 0

abbrev pub used_behind : Bool → Option (ℕ × List Bool) → Option (ℕ × List Bool)
used_behind u none = none
used_behind u (some (i, us)) = some (suc i, u ∷ us)

-- The loop of `sys_thrdstop`: the first context that is not in use, and the array with it in use.
unfoldable pub alloc_context : List Bool → Option (ℕ × List Bool)
alloc_context [] = none
alloc_context (false ∷ us) = some (0, true ∷ us)
alloc_context (true ∷ us) = used_behind true (alloc_context us)

-- The end of `sys_thrdstop`, with the answer of `copyout`: the return value, the process and the
-- context ID that the caller sees.
abbrev pub arm : ℤ → ℕ → ℕ → Bool → Proc → ℤ → ℤ × Proc
arm delay handler handler_arg copied p context_id =
    if copied
    then (
      pos 0,
      record p {
        thrdstop_context_id = context_id;
        thrdstop_delay = delay;
        thrdstop_handler_pointer = handler;
        thrdstop_ticks = pos 0;
        thrdstop_handler_arg = handler_arg;
      },
    )
    else (minus_one, p)

abbrev pub arm_new : ℤ → ℕ → ℕ → Bool → Proc → Option (ℕ × List Bool) → ℤ × Proc
arm_new delay handler handler_arg copied p none = (minus_one, p)
arm_new delay handler handler_arg copied p (some (i, used)) =
    arm delay handler handler_arg copied (record p { thrdstop_context_used = used }) (pos i)

-- `sys_thrdstop` with its arguments; `context_id` is what `copyin` reads, `none` where it fails.
unfoldable pub thrdstop : ℤ → Option ℤ → ℕ → ℕ → Bool → Proc → ℤ × Proc
thrdstop delay none handler handler_arg copied p = (minus_one, p)
thrdstop delay (some context_id) handler handler_arg copied p =
    if ltb_ℤ context_id (pos 0)
    then arm_new delay handler handler_arg copied p (alloc_context p.thrdstop_context_used)
    else arm delay handler handler_arg copied p context_id

abbrev pub is_context : ℤ → Bool
is_context i = not (ltb_ℤ i (pos 0) || not (ltb_ℤ i (pos max_thrd_num)))

unfoldable pub cancelthrdstop : ℤ → ℤ → Proc → ℤ × Proc
cancelthrdstop context_id is_exit p =
    if is_context context_id
    then (
      p.thrdstop_ticks,
      if eqb_ℤ is_exit (pos 0)
          then record p { thrdstop_delay = minus_one; cancel_save_flag = context_id }
          else record p {
            thrdstop_delay = minus_one;
            thrdstop_context_used = set p.thrdstop_context_used (pos_part context_id) false;
          },
    )
    else (minus_one, p)

unfoldable pub thrdresume : ℤ → Proc → ℤ × Proc
thrdresume context_id p =
    if is_context context_id then (pos 0, record p { resume_flag = context_id }) else (minus_one, p)

-- The conversion of an `int` to a `uint64`.
abbrev pub as_uint64 : ℤ → ℕ
as_uint64 (pos n) = n % 2 ^ 64
as_uint64 (negsuc n) = 2 ^ 64 - 1 - n % 2 ^ 64

-- `syscall` with one of the calls of its table, which stores the return value in `a0`.
unfoldable pub syscall : (Proc → ℤ × Proc) → Proc → Proc
syscall call p =
    let (value, q) = call p in record q { trapframe = record q.trapframe { a0 = as_uint64 value } }

-- A timer interrupt, in `usertrap` and in `kerneltrap`.
unfoldable pub timer_tick : Proc → Proc
timer_tick p =
    let ticks = p.thrdstop_ticks +ℤ pos 1 in
    if ltb_ℤ (pos 0) p.thrdstop_delay
    then if not (ltb_ℤ ticks p.thrdstop_delay)
      then record p { thrdstop_ticks = ticks; thrdstop_delay = minus_one; jump_flag = true }
      else record p { thrdstop_ticks = ticks }
    else p

-- `thrdstop_context[i]`
abbrev pub load_context : Proc → ℤ → Option Trapframe
load_context p (pos i) = get_elem? p.thrdstop_context i
load_context p (negsuc i) = none

abbrev pub save_context : Proc → ℤ → Option Proc
save_context p (pos i) =
    if ltb i (length p.thrdstop_context)
    then some (record p { thrdstop_context = set p.thrdstop_context i p.trapframe })
    else none
save_context p (negsuc i) = none

abbrev pub jump : Proc → Proc
jump p = record p {
  jump_flag = false;
  trapframe = record p.trapframe { epc = p.thrdstop_handler_pointer; a0 = p.thrdstop_handler_arg };
}

abbrev pub then_do : (Proc → Proc) → Option Proc → Option Proc
then_do f none = none
then_do f (some q) = some (f q)

abbrev pub restored : Proc → Option Trapframe → Option Proc
restored p none = none
restored p (some frame) = some (record p { trapframe = frame; resume_flag = minus_one })

-- The flags in `usertrapret`.
unfoldable pub usertrapret : Proc → Option Proc
usertrapret p =
    if not (eqb_ℤ p.resume_flag minus_one)
    then restored p (load_context p p.resume_flag)
    else if p.jump_flag
    then then_do jump (save_context p p.thrdstop_context_id)
    else if not (eqb_ℤ p.cancel_save_flag minus_one)
    then then_do (λ q. record q { cancel_save_flag = minus_one })
        (save_context p p.cancel_save_flag)
    else some p

-- The fields that `allocproc` sets, on a process whose other fields are left over.
unfoldable pub allocproc : Proc → Proc
allocproc p = record p {
  thrdstop_ticks = pos 0;
  thrdstop_delay = minus_one;
  jump_flag = false;
  resume_flag = minus_one;
  cancel_save_flag = minus_one;
  thrdstop_context_used = replicate max_thrd_num false;
}
