-- ===== src/Sched/Entry/Yield.antt =====
-- A yield and a timer interrupt in `exception_entry` of sdk/core/scheduler/main.cc.
use cheriot_rtos.Base.{ℕ, Bool, true, false, List, add64}
use cheriot_rtos.Sched.State.{Sched}
use cheriot_rtos.Sched.Timer.{Alarm, next_timer, set_alarm}
use cheriot_rtos.Sched.MultiWaiter.{MultiWaiter}
use cheriot_rtos.Sched.Entry.{Cause, yields, timer_interrupt, Handled}
use cheriot_rtos.Sched.Entry.Early.{alone}

-- A yield, or a timer interrupt.
abbrev pub gives_way : Bool → Cause
gives_way true = yields
gives_way false = timer_interrupt

abbrev switching : Sched → (ℕ → MultiWaiter) → ℕ → Handled
switching s multi tstack = record {
  sched = s;
  multi = multi;
  sched_needed = true;
  tick = true;
  t_stack = tstack;
}

-- What the timer is set to: the end of the tick if the thread is not alone, the expiry of the first thread
-- that waits for a time, or the earlier of both.
abbrev pub alarm_for : ℕ → ℕ → Sched → List ℕ → Alarm
alarm_for cycles_per_tick now s rest =
    set_alarm (alone rest) (add64 now cycles_per_tick) (next_timer s s.waiting_list)
