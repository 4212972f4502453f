-- ===== src/Thrd/Tests.antt =====
-- A process with its sixteen contexts.
use spring_os_mp.Prelude.{
  ℕ, ◌≤◌, true, false, some, none, [], ◌≡◌, refl, arith, length, replicate, length-replicate,
}
use spring_os_mp.Prelude.Int.{pos, negsuc}
use spring_os_mp.Thrd.Defs.{
  Proc, Trapframe, max_thrd_num, minus_one, thrdstop, cancelthrdstop, thrdresume, timer_tick,
  usertrapret, allocproc, alloc_context,
}
use spring_os_mp.Thrd.Bounds.{IsValid, Step, Reach}
use spring_os_mp.Thrd.Return.{Reach-usertrapret}
use spring_os_mp.Thrd.Timer.{ticks, thrdstop-ticks}
use spring_os_mp.Thrd.Saved.{Keeps, cancelthrdstop-thrdresume, thrdstop_overruns}
use spring_os_mp.Thrd.Defs.{syscall}
use spring_os_mp.Prelude.{◌-◌}
use spring_os_mp.Prelude.{◌^◌}

abbrev frame : ℕ → Trapframe
frame n = record { epc = n; a0 = 0; registers = [] }

abbrev idle : Proc
idle = record {
  trapframe = frame 40;
  thrdstop_ticks = pos 0;
  thrdstop_delay = minus_one;
  thrdstop_context_id = pos 0;
  thrdstop_handler_arg = 0;
  thrdstop_handler_pointer = 0;
  thrdstop_context = replicate max_thrd_num (frame 0);
  thrdstop_context_used = replicate max_thrd_num false;
  jump_flag = false;
  resume_flag = minus_one;
  cancel_save_flag = minus_one;
}

abbrev contexts_of : length idle.thrdstop_context ≡ max_thrd_num
contexts_of = length-replicate {A = Trapframe} max_thrd_num (frame 0)

first_context : (thrdstop (pos 3) (some (negsuc 0)) 8 9 true idle).1.thrdstop_context_id ≡ pos 0
unfolding thrdstop alloc_context
first_context = refl

Reach-usertrapret_example :
    IsValid (timer_tick (allocproc idle))
    × ((r : Proc) × (usertrapret (timer_tick (allocproc idle)) ≡ some r))
Reach-usertrapret_example =
    Reach-usertrapret idle (timer_tick (allocproc idle)) contexts_of
      (Reach.more Reach.start (Step.tick (allocproc idle)))

thrdstop-ticks_example :
    ((k : ℕ)
      → k ≤ 2
      → (ticks k (thrdstop (pos 3) (some (pos 1)) 8 9 true idle).1).jump_flag ≡ false)
    × ((ticks 3 (thrdstop (pos 3) (some (pos 1)) 8 9 true idle).1).jump_flag ≡ true)
    × ((ticks 3 (thrdstop (pos 3) (some (pos 1)) 8 9 true idle).1).thrdstop_delay ≡ minus_one)
thrdstop-ticks_example = thrdstop-ticks 2 1 8 9 idle

-- A process whose timer has counted five ticks.
abbrev counting : Proc
counting = record idle { thrdstop_ticks = pos 5 }

abbrev saved : Trapframe
saved = record { epc = 40; a0 = 5; registers = [] }

cancelthrdstop-thrdresume_example :
    (q : Proc) × (usertrapret (syscall (cancelthrdstop (pos 2) (pos 0)) counting) ≡ some q)
    × (q.trapframe ≡ saved)
    × ((s : Proc)
        → Keeps 2 q s
        → (r : Proc) × (usertrapret (syscall (thrdresume (pos 2)) s) ≡ some r)
          × (r.trapframe ≡ saved))
cancelthrdstop-thrdresume_example =
    cancelthrdstop-thrdresume 2 counting (omega arith) contexts_of refl refl

-- A system call that fails returns -1 as a `uint64`.
failed_call : (syscall (thrdresume (pos 16)) idle).trapframe.a0 ≡ 2 ^ 64 - 1
unfolding syscall thrdresume
failed_call = refl

thrdstop_overruns_example :
    usertrapret (ticks 1 (thrdstop (pos 1) (some (pos 16)) 8 9 true idle).1) ≡ none
thrdstop_overruns_example = thrdstop_overruns 16 8 9 idle (omega arith) contexts_of refl
