-- ===== src/Sched/Futex.antt =====
-- The futexes of sdk/core/scheduler/main.cc. A key is the address of a futex. `threads` is
-- CONFIG_THREADS_NUM, and bounds the walks.
pub mod Boost
pub mod Chosen
pub mod Wake
use cheriot_rtos.Base.{
  ℕ, zero, ◌+◌, ◌-◌, ◌%◌, ◌^◌, max, Bool, true, false, not, ◌&&◌, ◌||◌, Option, none, some, ◌==◌,
  leb, ltb, if◌then◌else◌, add64, sub32, add32,
}
use cheriot_rtos.Sched.Links.{ThreadList}
use cheriot_rtos.Sched.State.{Thread, Sched, WakeReason, futex, futexes}
use cheriot_rtos.Sched.Thread.{
  ◌>>=◌, ◌>>◌, assert, set_thread, make_ready, suspend_internal, priority_boost,
  is_highest_priority, has_priority_peers, same_thread,
}
use cheriot_rtos.Sched.Walk.{walk_thread_list}
use cheriot_rtos.Sched.MultiWaiter.{MultiWaiter, Waiters, wake_waiters}

-- `futexWaitingList`.
abbrev pub futex_list : Sched → ThreadList
futex_list s = record { links = s.links; head = s.futex_waiting_list }

-- `FutexBoostNotThread`.
abbrev pub futex_boost_not_thread : ℕ
futex_boost_not_thread = 2 ^ 16 - 1

-- The test of `priority_boost_for_thread`.
abbrev pub boosts : ℕ → Thread → Bool
boosts id th = th.futex_priority_inheriting && (th.futex_priority_boosted_thread == id)

unfoldable pub priority_boost_for_thread : ℕ → Sched → ℕ → ℕ → Option ℕ
priority_boost_for_thread threads s id priority =
    walk_thread_list (λ p. futex_list s)
      (λ p t. some (if boosts id (s.thread t) then max p (s.thread t).priority else p)) (λ p. false)
      threads priority

-- The test of `priority_boost_update` and `priority_boost_reset`.
abbrev pub inherits_for : ℕ → Thread → Bool
inherits_for key th = th.futex_priority_inheriting && (th.futex_wait_address == key)

abbrev pub retarget : ℕ → Thread → Thread
retarget id th = record th { futex_priority_boosted_thread = id }

unfoldable pub priority_boost_update : ℕ → Sched → ℕ → ℕ → Option Sched
priority_boost_update threads s key id =
    walk_thread_list futex_list
      (λ s' t. some (
        if inherits_for key (s'.thread t) then set_thread s' t (retarget id (s'.thread t)) else s'))
      (λ s'. false) threads s

unfoldable pub priority_boost_reset : ℕ → Sched → ℕ → ℕ → Option Sched
priority_boost_reset threads s key id =
    walk_thread_list futex_list
      (λ s' t. some (
        if inherits_for key (s'.thread t)
        then if (s'.thread t).futex_priority_boosted_thread == id
          then set_thread s' t (retarget futex_boost_not_thread (s'.thread t))
          else s'
        else s'))
      (λ s'. false) threads s

-- The variables of the helper `futex_wake`.
pub record Waking : Type 0 where
  pub sched : Sched
  pub recalculate : Bool
  pub count : ℕ
  pub woke : ℕ

abbrev pub waking_list : Waking → ThreadList
waking_list w = futex_list w.sched

-- The visitor of the helper.
unfoldable pub wake_sleeper : ℕ → ℕ → Waking → ℕ → Option Waking
wake_sleeper threads key w t =
    let th = w.sched.thread t in
    if th.futex_wait_address == key
    then (do
      s' ← make_ready threads w.sched t futex
      some (record {
        sched = s';
        recalculate = w.recalculate || th.futex_priority_inheriting;
        count = sub32 w.count 1;
        woke = w.woke + 1;
      }))
    else some w

-- The walk of the helper, over the threads that wait for a futex.
unfoldable pub wake_sleepers : ℕ → ℕ → ℕ → Sched → Option Waking
unfolding wake_sleeper
wake_sleepers threads key count s =
    walk_thread_list waking_list (wake_sleeper threads key) (λ w. w.count == 0) threads
      (record { sched = s; recalculate = false; count = count; woke = 0 })

-- The rest of the helper, for a build with multiwaiters.
unfoldable pub wake_multi_waiters :
    ℕ → ℕ → (ℕ → MultiWaiter) → Waking → Option (Waking × (ℕ → MultiWaiter))
wake_multi_waiters threads key multi w =
    if ltb 0 w.count
    then (do
      m ← wake_waiters threads key w.count w.sched multi
      some (
        record w { sched = m.sched; count = sub32 w.count m.woken; woke = w.woke + m.woken },
        m.multi,
      ))
    else some (w, multi)

-- The helper `futex_wake(key, count)`.
unfoldable pub wake_helper :
    ℕ → ℕ → ℕ → Sched → (ℕ → MultiWaiter) → Option (Waking × (ℕ → MultiWaiter))
unfolding wake_sleepers wake_multi_waiters
wake_helper threads key count s multi = do
  w ← wake_sleepers threads key count s
  wake_multi_waiters threads key multi w

pub data FutexWakeKind : Type 0 where
  no_yield yield_later yield_now : FutexWakeKind

-- `has_run_for_full_tick`, at time `now`.
abbrev pub has_run_for_full_tick : ℕ → ℕ → Thread → Bool
has_run_for_full_tick cycles_per_tick now th = leb (add64 th.expiry_time cycles_per_tick) now

-- `shouldYield`, for the running thread `t` of a state in which `woke` threads have been woken.
unfoldable pub should_yield : ℕ → ℕ → Sched → ℕ → ℕ → Option FutexWakeKind
should_yield cycles_per_tick now s t woke =
    if woke == 0
    then some no_yield
    else is_highest_priority s t >>= λ highest.
        if highest
        then (has_priority_peers s t >>= λ peers. some (
            if peers
            then if has_run_for_full_tick cycles_per_tick now (s.thread t)
              then yield_now
              else yield_later
            else no_yield))
        else some yield_now

-- The end of a priority boost of the running thread `t`.
unfoldable pub reset_boost : ℕ → Sched → ℕ → ℕ → Option Sched
unfolding priority_boost_reset priority_boost_for_thread
reset_boost threads s key t = do
  s₁ ← priority_boost_reset threads s key t
  boost ← priority_boost_for_thread threads s₁ t 0
  priority_boost threads s₁ t boost

-- `futex_wake`, with a valid pointer: the state, the multiwaiters, the number of threads woken and what
-- is left to do, a tick or a yield.
pub record Woken : Type 0 where
  pub sched : Sched
  pub multi : ℕ → MultiWaiter
  pub woke : ℕ
  pub kind : FutexWakeKind

unfoldable pub futex_wake :
    (threads cycles_per_tick now key count : ℕ) → Sched → (ℕ → MultiWaiter) → Option Woken
unfolding wake_helper should_yield reset_boost
futex_wake threads cycles_per_tick now key count s multi = do
  (w, multi') ← wake_helper threads key count s multi
  t ← w.sched.current
  kind ← should_yield cycles_per_tick now w.sched t w.woke
  s' ← if w.recalculate then reset_boost threads w.sched key t else some w.sched
  some (record { sched = s'; multi = multi'; woke = w.woke; kind = kind })

-- `get_thread`, for a 16-bit number.
unfoldable pub get_thread : ℕ → ℕ → Option ℕ
get_thread threads id = if ltb threads id || (id == 0) then none else some id

-- How a call goes on after its first part: it returns, it waits to be woken, or, with a timeout of 0, it
-- times out at once. A priority-inheriting wait keeps the owner of the lock.
pub data FutexResult : Type 0 where
  success timed_out invalid : FutexResult

pub data Progress : Type 0 where
  returns : FutexResult → Progress
  blocks passes : Option ℕ → Progress

-- The arguments: the timeout with its expiry time, and the futex.
pub record FutexWait : Type 0 where
  pub may_block : Bool
  pub expiry : ℕ
  pub key : ℕ
  pub expected : ℕ
  pub inheriting : Bool

-- `currentThread->suspend(timeout, &futexWaitingList)`, up to its yield.
unfoldable pub suspend_on_futex : ℕ → FutexWait → Option ℕ → Sched → ℕ → Option (Sched × Progress)
suspend_on_futex threads w owner s t =
    if w.may_block
    then (do
      s' ← suspend_internal threads s t w.expiry (some futexes) false
      some (s', blocks owner))
    else some (s, passes owner)

abbrev pub start_wait : FutexWait → Thread → Thread
start_wait w th = record th { futex_wait_address = w.key; futex_priority_inheriting = w.inheriting }

-- The boost of the owner, `none` if there is no such thread, by the running thread `t`.
unfoldable pub wait_for_owner : ℕ → FutexWait → Sched → ℕ → Option ℕ → Option (Sched × Progress)
unfolding priority_boost_update priority_boost_for_thread suspend_on_futex
wait_for_owner threads w s t none = some (s, returns invalid)
wait_for_owner threads w s t (some owner) = if owner == t then some (s, returns invalid) else (do
  s₁ ← priority_boost_update threads s w.key owner
  boost ← priority_boost_for_thread threads s₁ owner (s₁.thread t).priority
  s₂ ← priority_boost threads s₁ owner boost
  suspend_on_futex threads w (some owner) s₂ t)

-- `futex_timed_wait` of the running thread `t`, up to the yield of `suspend`, with valid pointers, for a
-- futex whose word is `word`.
unfoldable pub futex_timed_wait : ℕ → FutexWait → ℕ → Sched → ℕ → Option (Sched × Progress)
unfolding wait_for_owner suspend_on_futex get_thread
futex_timed_wait threads w word s t =
    if word == w.expected
    then (let s₁ = set_thread s t (start_wait w (s.thread t)) in
        if w.inheriting
        then wait_for_owner threads w s₁ t (get_thread threads (word % 2 ^ 16))
        else suspend_on_futex threads w none s₁ t)
    else some (s, returns success)

-- The boost of the owner, once the thread has left the list.
unfoldable pub undo_boost : ℕ → Sched → Option ℕ → Option Sched
unfolding priority_boost_for_thread
undo_boost threads s none = some s
undo_boost threads s (some owner) = do
  boost ← priority_boost_for_thread threads s owner 0
  priority_boost threads s owner boost

-- The rest of `futex_timed_wait`; `elapsed` tells whether the timeout has, `valid` whether the memory of
-- the futex is still there.
unfoldable pub futex_wait_end :
    ℕ → Option ℕ → Bool → Bool → Sched → ℕ → Option (Sched × FutexResult)
unfolding undo_boost
futex_wait_end threads owner elapsed valid s t = do
  let s₁ = set_thread s t (record (s.thread t) { futex_wait_address = 0 })
  s₂ ← undo_boost threads s₁ owner
  some (s₂, if elapsed then timed_out else if valid then success else invalid)
