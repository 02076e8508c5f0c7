-- ===== src/Sched/Timer.antt =====
-- `Timer` of sdk/core/scheduler/timer.h. The platform's timer is a parameter: `now` is what it reads, and
-- the result of `update` is what is written to it.
pub mod Expiry
use cheriot_rtos.Base.{
  ℕ, zero, suc, ◌*◌, ◌/◌, ◌-◌, ◌^◌, min, Bool, true, false, Option, none, some, ◌==◌, leb, ltb,
  if◌then◌else◌, add64, sub64, not, ◌&&◌,
}
use cheriot_rtos.Sched.State.{Thread, Sched, timer, any_bit}
use cheriot_rtos.Sched.Thread.{◌>>=◌, make_ready, has_priority_peers, same_thread}

-- `any_ready()`.
abbrev pub any_ready : Sched → Bool
any_ready s = any_bit 32 s.priority_map

-- `expiry_time_for_timeout`: the all-ones timeout is unlimited.
unfoldable pub expiry_time_for_timeout : ℕ → ℕ → ℕ → ℕ
expiry_time_for_timeout cycles_per_tick now timeout =
    if timeout == 2 ^ 32 - 1 then 2 ^ 64 - 1 else add64 now (timeout * cycles_per_tick)

-- The `for` loop of `expiretimers`, from the thread `iter`.
unfoldable pub expire_loop : ℕ → ℕ → ℕ → Sched → ℕ → Option Sched
expire_loop zero threads now s iter = none
expire_loop (suc fuel) threads now s iter = elim (leb (s.thread iter).expiry_time now) [
  | false ↦ some s
  | true ↦ elim (make_ready threads s iter timer) [
    | none ↦ none
    | some s' ↦ elim (s.timer_links.next iter) [
      | none ↦ none
      | some iter' ↦ elim (same_thread iter' s'.waiting_list) [
        | true ↦ some s'
        | false ↦ elim (s'.waiting_list) [
          | none ↦ some s'
          | some h ↦ expire_loop fuel threads now s' iter'
        ]
      ]
    ]
  ]
]

-- A yielding thread at the front is woken early.
unfoldable pub wake_yielding : ℕ → Sched → Option ℕ → Option Sched
wake_yielding threads s none = some s
wake_yielding threads s (some head) =
    if (s.thread head).is_yielding then make_ready threads s head timer else some s

-- The part of `expiretimers` after its early return.
unfoldable pub expire_waiting : ℕ → ℕ → Sched → Option ℕ → Option Sched
unfolding expire_loop wake_yielding
expire_waiting threads now s none = some s
expire_waiting threads now s (some head) = do
  s₁ ← expire_loop threads threads now s head
  if any_ready s₁ then some s₁ else wake_yielding threads s₁ s₁.waiting_list

-- `expiretimers()`.
unfoldable pub expiretimers : ℕ → ℕ → ℕ → ℕ → Sched → Option Sched
unfolding expire_waiting
expiretimers threads cycles_per_tick zero_tick_time now s =
    let ticked = record s { ticks_since_boot = sub64 now zero_tick_time / cycles_per_tick } in
    expire_waiting threads now ticked s.waiting_list

-- What `update` writes to the timer.
pub data Alarm : Type 0 where
  clear : Alarm
  set_next : ℕ → Alarm

-- The time at which the first waiting thread expires, unless it waits forever.
unfoldable pub next_timer : Sched → Option ℕ → Option ℕ
next_timer s none = none
next_timer s (some head) =
    let t = (s.thread head).expiry_time in if t == 2 ^ 64 - 1 then none else some t

abbrev pub set_alarm : Bool → ℕ → Option ℕ → Alarm
set_alarm true tick none = clear
set_alarm true tick (some t) = set_next (min (2 ^ 64 - 1) t)
set_alarm false tick none = set_next (min tick (2 ^ 64 - 1))
set_alarm false tick (some t) = set_next (min tick t)

-- `update()`; the running thread, if any, must be ready.
unfoldable pub update_timer : ℕ → ℕ → Sched → Option Alarm
unfolding next_timer
update_timer cycles_per_tick now s =
    let next = next_timer s s.waiting_list in
    elim (s.current) [
      | none ↦ some (set_alarm true (add64 now cycles_per_tick) next)
      | some t ↦ elim (has_priority_peers s t) [
        | none ↦ none
        | some peers ↦ some (set_alarm (not peers) (add64 now cycles_per_tick) next)
      ]
    ]

-- `ensure_tick()`, for a timer that is set to go off at `next_alarm`.
unfoldable pub ensure_tick : ℕ → ℕ → Sched → Option Alarm
ensure_tick cycles_per_tick next_alarm s = do
  t ← s.current
  let tick_time = add64 (s.thread t).expiry_time cycles_per_tick
  some (if ltb tick_time next_alarm then set_next tick_time else set_next next_alarm)
