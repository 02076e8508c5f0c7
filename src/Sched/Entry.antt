-- ===== src/Sched/Entry.antt =====
-- `exception_entry` and `thread_sleep` of sdk/core/scheduler/main.cc. The interrupt controller and the
-- timer are parameters: the futex of an interrupt, and the time `now`. Cycle accounting, the hook that a
-- platform may define and simulation are build options that are off.
pub mod Early
pub mod Yield
use cheriot_rtos.Base.{
  ℕ, ◌-◌, ◌^◌, Bool, true, false, not, ◌||◌, Option, none, some, ltb, if◌then◌else◌,
}
use cheriot_rtos.Sched.State.{Sched, ready}
use cheriot_rtos.Sched.Thread.{◌>>=◌, in_state, exit, schedule, suspend_internal}
use cheriot_rtos.Sched.Timer.{any_ready, expiretimers, Alarm, update_timer}
use cheriot_rtos.Sched.MultiWaiter.{MultiWaiter}
use cheriot_rtos.Sched.Futex.{wake_helper}

-- `mcause`; the futex of an external interrupt is `none` if no source is pending.
pub data Cause : Type 0 where
  yields timer_interrupt thread_exit : Cause
  external_interrupt : Option ℕ → Cause

-- What the `switch` decides.
pub record Handled : Type 0 where
  pub sched : Sched
  pub multi : ℕ → MultiWaiter
  pub sched_needed : Bool
  pub tick : Bool
  pub t_stack : ℕ

abbrev pub current_is_ready : Sched → Option ℕ → Bool
current_is_ready s none = false
current_is_ready s (some t) = in_state (s.thread t).state ready

unfoldable pub handle_cause : ℕ → Cause → ℕ → Sched → (ℕ → MultiWaiter) → Option Handled
handle_cause threads yields tstack s multi = some (record {
  sched = s;
  multi = multi;
  sched_needed = true;
  tick = current_is_ready s s.current;
  t_stack = tstack;
})
handle_cause threads timer_interrupt tstack s multi =
    some (record { sched = s; multi = multi; sched_needed = true; tick = true; t_stack = tstack })
handle_cause threads (external_interrupt none) tstack s multi =
    some (record { sched = s; multi = multi; sched_needed = false; tick = false; t_stack = tstack })
handle_cause threads (external_interrupt (some key)) tstack s multi = do
  (w, multi') ← wake_helper threads key (2 ^ 32 - 1) s multi
  some (record {
    sched = w.sched;
    multi = multi';
    sched_needed = ltb 0 w.woke;
    tick = ltb 0 w.woke;
    t_stack = tstack;
  })
handle_cause threads thread_exit tstack s multi = do
  (s', last) ← exit s
  some (record { sched = s'; multi = multi; sched_needed = true; tick = true; t_stack = 0 })

-- What `exception_entry` returns: the context to run next; and what it writes to the timer.
pub record Entered : Type 0 where
  pub sched : Sched
  pub multi : ℕ → MultiWaiter
  pub t_stack : ℕ
  pub alarm : Alarm

unfoldable pub exception_entry :
    (threads cycles_per_tick zero_tick_time now : ℕ)
    → Cause
    → ℕ
    → Sched
    → (ℕ → MultiWaiter)
    → Option Entered
unfolding handle_cause
exception_entry threads cycles_per_tick zero_tick_time now cause tstack s multi = do
  h ← handle_cause threads cause tstack s multi
  s₁ ←
      if h.tick || not (any_ready h.sched)
      then expiretimers threads cycles_per_tick zero_tick_time now h.sched
      else some h.sched
  (s₂, context) ← if h.sched_needed then schedule s₁ h.t_stack now else some (s₁, h.t_stack)
  alarm ← update_timer cycles_per_tick now s₂
  some (record { sched = s₂; multi = h.multi; t_stack = context; alarm = alarm })

-- `thread_sleep`, up to its yield, with a valid timeout that ends at `expiry`.
unfoldable pub thread_sleep : ℕ → Bool → ℕ → Bool → Sched → Option Sched
thread_sleep threads may_block expiry no_early_wake s = do
  t ← s.current
  if may_block then suspend_internal threads s t expiry none (not no_early_wake) else some s
