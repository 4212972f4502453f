-- ===== src/Sched/Defs.antt =====
-- The records and queues of mp3/xv6/user/threads.h and threads_sched.h. A C `int` is an integer:
-- its overflow is undefined behaviour and is not modelled. The fields that hold addresses (`fp`,
-- `arg`, `stack`, `stack_p`) are left out. A queue of list.h is the sequence of what it links.
use spring_os_mp.Prelude.{Bool, Option, List, [], ◌∷◌, if◌then◌else◌}
use spring_os_mp.Prelude.Int.{ℤ}
pub use spring_os_mp.Prelude.Int.{eqb_ℤ}

-- The `cbs` member of `struct thread`.
pub record Cbs : Type 0 where
  pub budget : ℤ
  pub remaining_budget : ℤ
  pub is_hard_rt : Bool
  pub is_throttled : Bool
  pub throttled_arrived_time : ℤ
  pub throttle_new_deadline : ℤ

pub record Thread : Type 0 where
  pub buf_set : Bool
  pub thrdstop_context_id : ℤ
  pub id : ℤ
  pub is_real_time : Bool
  pub processing_time : ℤ
  pub deadline : ℤ
  pub period : ℤ
  pub n : ℤ
  pub remaining_time : ℤ
  pub current_deadline : ℤ
  pub priority : ℤ
  pub arrival_time : ℤ
  pub cbs : Cbs

pub record ReleaseQueueEntry : Type 0 where
  pub thrd : Thread
  pub release_time : ℤ

pub record ThreadsSchedArgs : Type 0 where
  pub current_time : ℤ
  pub time_quantum : ℤ
  pub run_queue : List Thread
  pub release_queue : List ReleaseQueueEntry

-- The answer of a scheduler, with the queues as it leaves them. `scheduled` is `none` where the
-- code returns the head `args.run_queue` itself.
pub record ThreadsSchedResult : Type 0 where
  pub scheduled : Option Thread
  pub allocated_time : ℤ
  pub run_queue : List Thread
  pub release_queue : List ReleaseQueueEntry

-- `list_del` of the thread with this ID: threads are told apart by `ID`, which `thread_create`
-- gives out once.
unfoldable pub list_del : ℤ → List Thread → List Thread
list_del i [] = []
list_del i (t ∷ ts) = if eqb_ℤ t.id i then ts else t ∷ list_del i ts
