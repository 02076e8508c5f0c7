-- ===== src/Sched/State.antt =====
-- The scheduler's state: the fields of `ThreadImpl` in sdk/core/scheduler/thread.h and its static members.
use cheriot_rtos.Base.{ℕ, zero, suc, ◌+◌, Bool, true, false, Option, if◌then◌else◌}
use cheriot_rtos.Sched.Links.{Links}

pub data ThreadState : Type 0 where
  ready suspended exited : ThreadState

pub data WakeReason : Type 0 where
  timer futex multi_waiter delete : WakeReason

-- The lists on which a thread waits for a resource: `futexWaitingList` of sdk/core/scheduler/main.cc and
-- `MultiWaiterInternal::threads` of sdk/core/scheduler/multiwait.h.
pub data SleepQueue : Type 0 where
  futexes multi_waiters : SleepQueue

-- `ThreadImpl`, less its four list pointers, which are in `Sched`, less `cycles`, and less `threadId`,
-- which is the thread's number. A multiwaiter is a number. `multiWaiter` is in a union with the three
-- futex fields: what waits on the list of futexes has these, what waits on the list of multiwaiters has
-- that one, and nulling the pointer zeroes the others.
pub record Thread : Type 0 where
  pub sleep_queue : Option SleepQueue
  pub expiry_time : ℕ
  pub multi_waiter : Option ℕ
  pub t_stack_ptr : ℕ
  pub priority : ℕ
  pub original_priority : ℕ
  pub state : ThreadState
  pub is_yielding : Bool
  pub futex_wait_address : ℕ
  pub futex_priority_boosted_thread : ℕ
  pub futex_priority_inheriting : Bool

-- `prev` and `next` of all threads are `links`, `timerPrev` and `timerNext` are `timer_links`. The bit
-- field `priorityMap` is the function that gives its bits.
pub record Sched : Type 0 where
  pub thread : ℕ → Thread
  pub links : Links
  pub timer_links : Links
  pub thread_count : ℕ
  pub ticks_since_boot : ℕ
  pub waiting_list : Option ℕ
  pub futex_waiting_list : Option ℕ
  pub multi_waiter_threads : Option ℕ
  pub current : Option ℕ
  pub priority_list : ℕ → Option ℕ
  pub priority_map : ℕ → Bool
  pub highest_priority : ℕ
  pub sched_t_stack : ℕ

abbrev pub sleep_head : Sched → SleepQueue → Option ℕ
sleep_head s futexes = s.futex_waiting_list
sleep_head s multi_waiters = s.multi_waiter_threads

abbrev pub set_sleep_head : Sched → SleepQueue → Option ℕ → Sched
set_sleep_head s futexes h = record s { futex_waiting_list = h }
set_sleep_head s multi_waiters h = record s { multi_waiter_threads = h }

-- `clz` of a bit field whose bits below `width` are given.
unfoldable pub leading_zeros : ℕ → (ℕ → Bool) → ℕ
leading_zeros zero bits = 0
leading_zeros (suc width) bits =
    let rest = leading_zeros width bits in if bits width then 0 else rest + 1

-- The test of a bit field against 0.
unfoldable pub any_bit : ℕ → (ℕ → Bool) → Bool
any_bit zero bits = false
any_bit (suc width) bits = if bits width then true else any_bit width bits
