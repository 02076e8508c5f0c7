-- ===== src/Sched/MultiWaiter.antt =====
-- `MultiWaiterInternal` of sdk/core/scheduler/multiwait.h and `multiwaiter_wait` of
-- sdk/core/scheduler/main.cc. `memory` gives the word at an address, and `none` where `check_pointer`
-- refuses the pointer. The array `events` is a function; its first `used_length` elements are in use.
pub mod Report
use cheriot_rtos.Base.{
  ℕ, zero, suc, ◌+◌, ◌-◌, ◌%◌, Bool, true, false, not, ◌||◌, Option, none, some, List, [], ◌∷◌,
  ◌==◌, leb, ltb, if◌then◌else◌, update, length,
}
use cheriot_rtos.Sched.Links.{ThreadList}
use cheriot_rtos.Sched.State.{Sched, WakeReason, timer, multi_waiters}
use cheriot_rtos.Sched.Thread.{
  ◌>>=◌, ◌>>◌, assert, set_thread, make_ready, suspend_internal, forget, same_thread,
}
use cheriot_rtos.Sched.Walk.{walk_thread_list}

pub record EventWaiter : Type 0 where
  pub event_source : ℕ
  pub event_value : ℕ
  pub flags : ℕ
  pub ready_events : ℕ

-- `EventWaiterSource`, of the caller.
pub record EventWaiterSource : Type 0 where
  pub event_source : ℕ
  pub value : ℕ

pub record MultiWaiter : Type 0 where
  pub capacity : ℕ
  pub used_length : ℕ
  pub events : ℕ → EventWaiter

-- `set_ready(1)`.
abbrev pub set_ready : EventWaiter → EventWaiter
set_ready e = record e { ready_events = e.ready_events - e.ready_events % 2 + 1 }

-- `EventWaiter::reset`, for an address whose word is `word`: the waiter, and whether it has fired.
unfoldable pub reset : ℕ → ℕ → ℕ → EventWaiter × Bool
reset word address value =
    let e : EventWaiter = record {
      event_source = address;
      event_value = value;
      flags = 0;
      ready_events = 0;
    } in
    if word == value then (e, false) else (set_ready e, true)

-- `EventWaiter::trigger`.
unfoldable pub trigger : ℕ → EventWaiter → EventWaiter × Bool
trigger address e = if e.event_source == address then (set_ready e, true) else (e, false)

pub data EventOperationResult : Type 0 where
  error wake sleep : EventOperationResult

-- The loop of `set_events`, from the index `i`: the events, and whether one has fired, or `none` for the
-- error return, with the events as they are then.
unfoldable pub set_loop :
    (ℕ → Option ℕ)
    → List EventWaiterSource
    → ℕ
    → Bool
    → (ℕ → EventWaiter)
    → (ℕ → EventWaiter) × Option Bool
unfolding reset
set_loop memory [] i triggered events = (events, some triggered)
set_loop memory (new ∷ news) i triggered events = elim (memory new.event_source) [
  | none ↦ (events, none)
  | some word ↦
      let (e, fired) = reset word new.event_source new.value in
      set_loop memory news (i + 1) (triggered || fired) (update events i e)
]

abbrev pub result_of : Option Bool → EventOperationResult
result_of none = error
result_of (some true) = wake
result_of (some false) = sleep

-- `set_events`.
unfoldable pub set_events :
    (ℕ → Option ℕ) → MultiWaiter → List EventWaiterSource → MultiWaiter × EventOperationResult
unfolding set_loop
set_events memory mw news =
    let (events', triggered) = set_loop memory news 0 false mw.events in
    (
      record mw {
        events = events';
        used_length = elim triggered [ none ↦ mw.used_length | some b ↦ length news ];
      },
      result_of triggered,
    )

-- The loop of `get_results`: the caller's array, and whether an event was found.
unfoldable pub results_loop :
    (ℕ → EventWaiter) → ℕ → List EventWaiterSource → List EventWaiterSource × Bool
results_loop events i [] = ([], false)
results_loop events i (new ∷ news) =
    let (rest, found) = results_loop events (i + 1) news in
    let e = (events i).ready_events in (record new { value = e } ∷ rest, not (e == 0) || found)

-- `get_results`; `none` is the failed assertion.
unfoldable pub get_results :
    MultiWaiter → List EventWaiterSource → Option (MultiWaiter × List EventWaiterSource × Bool)
unfolding results_loop
get_results mw news = do
  assert (leb (length news) mw.capacity)
  let (news', found) = results_loop mw.events 0 news
  some (record mw { used_length = 0 }, news', found)

-- `MultiWaiterInternal::trigger`, on the first `n` events.
unfoldable pub trigger_loop : ℕ → ℕ → (ℕ → EventWaiter) → (ℕ → EventWaiter) × Bool
unfolding trigger
trigger_loop zero address events = (events, false)
trigger_loop (suc n) address events =
    let (before_last, wakes) = trigger_loop n address events in
    let (e, fired) = trigger address (before_last n) in (update before_last n e, wakes || fired)

unfoldable pub trigger_all : ℕ → MultiWaiter → MultiWaiter × Bool
unfolding trigger_loop
trigger_all address mw =
    let (events', wakes) = trigger_loop mw.used_length address mw.events in
    (record mw { events = events' }, wakes)

-- The scheduler with its multiwaiters, and `woken` of `wake_waiters`.
pub record Waiters : Type 0 where
  pub sched : Sched
  pub multi : ℕ → MultiWaiter
  pub woken : ℕ

abbrev pub waiters_list : Waiters → ThreadList
waiters_list w = record { links = w.sched.links; head = w.sched.multi_waiter_threads }

-- The visitor of `wake_waiters`; a null `multiWaiter` faults.
unfoldable pub wake_waiter : ℕ → ℕ → Waiters → ℕ → Option Waiters
unfolding trigger_all
wake_waiter threads source w t = do
  m ← (w.sched.thread t).multi_waiter
  let (mw, wakes) = trigger_all source (w.multi m)
  let w' = record w { multi = update w.multi m mw }
  if wakes
      then (do
        s' ← make_ready threads w'.sched t WakeReason.multi_waiter
        some (record w' { sched = s'; woken = w'.woken + 1 }))
      else some w'

unfoldable pub wake_waiters : ℕ → ℕ → ℕ → Sched → (ℕ → MultiWaiter) → Option Waiters
unfolding wake_waiter
wake_waiters threads source max_wakes s multi =
    walk_thread_list waiters_list (wake_waiter threads source) (λ w. leb max_wakes w.woken) threads
      (record { sched = s; multi = multi; woken = 0 })

-- The visitor of the destructor of the multiwaiter `m`.
unfoldable pub release : ℕ → ℕ → Sched → ℕ → Option Sched
release threads m s t =
    if same_thread m (s.thread t).multi_waiter
    then make_ready threads (set_thread s t (forget true (s.thread t))) t timer
    else some s

unfoldable pub destroy : ℕ → ℕ → Sched → Option Sched
unfolding release
destroy threads m s =
    walk_thread_list (λ s'. record { links = s'.links; head = s'.multi_waiter_threads })
      (release threads m) (λ s'. false) threads s

-- What `multiwaiter_wait` returns, with the caller's array.
pub data WaitResult : Type 0 where
  failed_invalid failed_busy : WaitResult
  found timed_out : List EventWaiterSource → WaitResult

-- The end of `multiwaiter_wait`, of the multiwaiter `m`.
unfoldable pub collect :
    ℕ → (ℕ → MultiWaiter) → List EventWaiterSource → Option ((ℕ → MultiWaiter) × WaitResult)
unfolding get_results
collect m multi news = do
  (mw, news', any) ← get_results (multi m) news
  some (update multi m mw, if any then found news' else timed_out news')

-- How `multiwaiter_wait` of the running thread goes on: it returns, or it waits to be woken.
pub data Waited : Type 0 where
  returns : Sched → (ℕ → MultiWaiter) → WaitResult → Waited
  blocks : Sched → (ℕ → MultiWaiter) → Waited

-- `wait`, up to its yield, at a timeout that may block until `expiry`.
unfoldable pub wait : ℕ → ℕ → Sched → ℕ → ℕ → Option Sched
wait threads m s t expiry =
    suspend_internal threads (set_thread s t (record (s.thread t) { multi_waiter = some m })) t
      expiry (some multi_waiters) false

unfoldable pub start_events :
    ℕ
    → ℕ
    → Sched
    → (ℕ → MultiWaiter)
    → ℕ
    → Option ℕ
    → List EventWaiterSource
    → EventOperationResult
    → Option Waited
unfolding collect wait
start_events threads m s multi t timeout news error = some (returns s multi failed_invalid)
start_events threads m s multi t timeout news wake = do
  (multi', result) ← collect m multi news
  some (returns s multi' result)
start_events threads m s multi t none news sleep = do
  (multi', result) ← collect m multi news
  some (returns s multi' result)
start_events threads m s multi t (some expiry) news sleep = do
  s' ← wait threads m s t expiry
  some (blocks s' multi)

-- `multiwaiter_wait` of the running thread `t`, with valid pointers, up to the yield; the timeout is the
-- time at which it expires, or `none` if it may not block.
unfoldable pub multiwaiter_wait :
    (ℕ → Option ℕ)
    → ℕ
    → ℕ
    → Sched
    → (ℕ → MultiWaiter)
    → ℕ
    → Option ℕ
    → List EventWaiterSource
    → Option Waited
unfolding set_events start_events
multiwaiter_wait memory threads m s multi t timeout news =
    if ltb (multi m).capacity (length news)
    then some (returns s multi failed_invalid)
    else if ltb 0 (multi m).used_length
    then some (returns s multi failed_busy)
    else (let (mw, result) = set_events memory (multi m) news in
        start_events threads m s (update multi m mw) t timeout news result)

-- The rest of `multiwaiter_wait`, once the thread `t` runs again; `valid` tells whether the multiwaiter
-- and the caller's array are still there.
unfoldable pub multiwaiter_wait_end :
    Bool → ℕ → Sched → (ℕ → MultiWaiter) → ℕ → List EventWaiterSource → Option Waited
unfolding collect
multiwaiter_wait_end valid m s multi t news =
    let s' = set_thread s t (forget true (s.thread t)) in
    if valid
    then (do (multi', result) ← collect m multi news; some (returns s' multi' result))
    else some (returns s' multi failed_invalid)
