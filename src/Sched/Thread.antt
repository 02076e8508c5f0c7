-- ===== src/Sched/Thread.antt =====
-- The operations of `ThreadImpl` in sdk/core/scheduler/thread.h. `none` is a failed assertion or a null
-- pointer that is followed; `threads` bounds the rounds of a list's scan.
pub mod Priorities
pub mod Wakes
pub mod Moves
pub mod Ready
pub mod RoundRobin
pub mod Schedule
use cheriot_rtos.Base.{
  ℕ, ◌+◌, ◌-◌, ◌%◌, ◌^◌, max, Bool, true, false, Option, none, some, ◌==◌, leb, ltb, if◌then◌else◌,
  update, not,
}
use cheriot_rtos.Sched.Links.{Links, ThreadList, list_insert, list_remove}
use cheriot_rtos.Sched.State.{
  ThreadState, ready, suspended, exited, WakeReason, timer, futex, multi_waiter, delete, SleepQueue,
  futexes, multi_waiters, Thread, Sched, sleep_head, set_sleep_head, leading_zeros, any_bit,
}

infixl 5 ◌>>=◌ ◌>>◌
abbrev pub ◌>>=◌ {ℓ κ} : {A : Type ℓ} {B : Type κ} → Option A → (A → Option B) → Option B
none >>= f = none
some a >>= f = f a

abbrev pub ◌>>◌ {ℓ} : {B : Type ℓ} → Option (Unit {0}) → Option B → Option B
m >> k = m >>= λ _. k

-- `Debug::Assert(state == …)`.
abbrev pub in_state : ThreadState → ThreadState → Bool
in_state ready ready = true
in_state suspended suspended = true
in_state exited exited = true
in_state _ _ = false

abbrev pub assert : Bool → Option (Unit {0})
assert true = some tt
assert false = none

abbrev pub set_thread : Sched → ℕ → Thread → Sched
set_thread s t th = record s { thread = update s.thread t th }

-- The tests by which the two kinds of list are sorted.
abbrev pub outranks : Sched → ℕ → ℕ → Bool
outranks s t iter = ltb (s.thread iter).priority (s.thread t).priority

abbrev pub expires_before : Sched → ℕ → ℕ → Bool
expires_before s t iter = ltb (s.thread t).expiry_time (s.thread iter).expiry_time

module _ (threads : ℕ) where
  -- `list_insert(&priorityList[p])`, and so on for the other lists.
  unfoldable pub ready_insert : Sched → ℕ → ℕ → Option Sched
  ready_insert s t p = do
    r ← list_insert threads (outranks s t) s.links t (s.priority_list p)
    some (record s { links = r.links; priority_list = update s.priority_list p r.head })

  unfoldable pub sleep_insert : Sched → ℕ → SleepQueue → Option Sched
  sleep_insert s t q = do
    r ← list_insert threads (outranks s t) s.links t (sleep_head s q)
    some (set_sleep_head (record s { links = r.links }) q r.head)

  -- `timer_list_insert(&waitingList)`.
  unfoldable pub timer_insert : Sched → ℕ → Option Sched
  timer_insert s t = do
    assert (in_state (s.thread t).state suspended)
    r ← list_insert threads (expires_before s t) s.timer_links t s.waiting_list
    some (record s { timer_links = r.links; waiting_list = r.head })

unfoldable pub ready_remove : Sched → ℕ → ℕ → Option Sched
ready_remove s t p = do
  r ← list_remove s.links t (s.priority_list p)
  some (record s { links = r.links; priority_list = update s.priority_list p r.head })

unfoldable pub sleep_remove : Sched → ℕ → SleepQueue → Option Sched
sleep_remove s t q = do
  r ← list_remove s.links t (sleep_head s q)
  some (set_sleep_head (record s { links = r.links }) q r.head)

unfoldable pub timer_remove : Sched → ℕ → Option Sched
timer_remove s t = do
  r ← list_remove s.timer_links t s.waiting_list
  some (record s { timer_links = r.links; waiting_list = r.head })

-- `priority_map_remove`, for a thread of priority `p`.
unfoldable pub priority_map_remove : Sched → ℕ → Sched
priority_map_remove s p = elim (s.priority_list p) [
  | some t ↦ s
  | none ↦
      let map' = update s.priority_map p false in
      record s {
        priority_map = map';
        highest_priority = if any_bit 32 map' then 31 - leading_zeros 32 map' else 0;
      }
]

-- The removal from the list of the resource that the thread waits for.
unfoldable pub leave_sleep_queue : Sched → ℕ → Option SleepQueue → Option Sched
unfolding sleep_remove
leave_sleep_queue s t none = some s
leave_sleep_queue s t (some q) = do
  s' ← sleep_remove s t q
  some (set_thread s' t (record (s'.thread t) { sleep_queue = none }))

-- The bit and the highest priority, when the first thread of a priority is ready.
unfoldable pub priority_map_add : Sched → ℕ → Sched
priority_map_add s p = elim (s.priority_list p) [
  | some t ↦ s
  | none ↦ record s {
    priority_map = update s.priority_map p true;
    highest_priority = if ltb s.highest_priority p then p else s.highest_priority;
  }
]

abbrev pub forgets_multi_waiter : WakeReason → Bool
forgets_multi_waiter timer = true
forgets_multi_waiter delete = true
forgets_multi_waiter _ = false

-- `multiWaiter = nullptr`, if it is to be forgotten.
abbrev pub forget : Bool → Thread → Thread
forget forgets th = record th {
  multi_waiter = if forgets then none else th.multi_waiter;
  futex_wait_address = if forgets then 0 else th.futex_wait_address;
  futex_priority_boosted_thread = if forgets then 0 else th.futex_priority_boosted_thread;
  futex_priority_inheriting = if forgets then false else th.futex_priority_inheriting;
}

-- `ready(reason)`.
unfoldable pub make_ready : ℕ → Sched → ℕ → WakeReason → Option Sched
unfolding timer_remove leave_sleep_queue priority_map_add ready_insert
make_ready threads s t reason = do
  assert (in_state (s.thread t).state suspended)
  s₁ ← timer_remove s t
  s₂ ← leave_sleep_queue s₁ t (s₁.thread t).sleep_queue
  let s₃ = set_thread s₂ t (record (s₂.thread t) { state = ready })
  let p = (s₃.thread t).priority
  let s₄ = priority_map_add s₃ p
  let s₅ = set_thread s₄ t (forget (forgets_multi_waiter reason) (s₄.thread t))
  s₆ ← ready_insert threads s₅ t p
  some (set_thread s₆ t (record (s₆.thread t) { is_yielding = false }))

-- The insertion into the list of the resource that the thread is to wait for.
unfoldable pub join_sleep_queue : ℕ → Sched → ℕ → Option SleepQueue → Option Sched
unfolding sleep_insert
join_sleep_queue threads s t none = some s
join_sleep_queue threads s t (some q) = do
  s' ← sleep_insert threads s t q
  some (set_thread s' t (record (s'.thread t) { sleep_queue = some q }))

-- `suspend_internal`, with the time at which the timeout expires.
unfoldable pub suspend_internal : ℕ → Sched → ℕ → ℕ → Option SleepQueue → Bool → Option Sched
unfolding ready_remove priority_map_remove join_sleep_queue timer_insert
suspend_internal threads s t expiry new_sleep_queue yield_not_sleep = do
  let s₁ = set_thread s t (record (s.thread t) { is_yielding = yield_not_sleep })
  assert (in_state (s₁.thread t).state ready)
  let p = (s₁.thread t).priority
  s₂ ← ready_remove s₁ t p
  let s₃ = set_thread s₂ t (record (s₂.thread t) { state = suspended })
  let s₄ = priority_map_remove s₃ p
  s₅ ← join_sleep_queue threads s₄ t new_sleep_queue
  let s₆ = set_thread s₅ t (record (s₅.thread t) { expiry_time = expiry })
  timer_insert threads s₆ t

-- The move of a runnable thread to the run queue of its new priority. `list_insert` reads the thread's
-- old priority here, as in the source.
unfoldable pub move_ready : ℕ → Sched → ℕ → ℕ → Option Sched
unfolding ready_remove ready_insert priority_map_remove
move_ready threads s t new_priority = do
  let p = (s.thread t).priority
  s₁ ← ready_remove s t p
  s₂ ← ready_insert threads s₁ t new_priority
  some (
      priority_map_remove (record s₂ { priority_map = update s₂.priority_map new_priority true }) p)

-- The removal from a sleep queue that is sorted by priority, and the insertion at the new priority.
unfoldable pub leave_for_boost : Sched → ℕ → Option SleepQueue → Option Sched
unfolding sleep_remove
leave_for_boost s t none = some s
leave_for_boost s t (some q) = sleep_remove s t q

unfoldable pub rejoin_for_boost : ℕ → Sched → ℕ → Option SleepQueue → Option Sched
unfolding sleep_insert
rejoin_for_boost threads s t none = some s
rejoin_for_boost threads s t (some q) = sleep_insert threads s t q

-- `priority_boost(newPriority)`.
unfoldable pub priority_boost : ℕ → Sched → ℕ → ℕ → Option Sched
unfolding move_ready leave_for_boost rejoin_for_boost
priority_boost threads s t requested =
    let new_priority = max requested (s.thread t).original_priority in
    if new_priority == (s.thread t).priority then some s else (do
      s₁ ← if in_state (s.thread t).state ready then move_ready threads s t new_priority else some s
      s₂ ← leave_for_boost s₁ t (s₁.thread t).sleep_queue
      let s₃ = set_thread s₂ t (record (s₂.thread t) { priority = new_priority })
      rejoin_for_boost threads s₃ t (s₃.thread t).sleep_queue)

-- `exit()`: the new state, and whether this was the last thread.
unfoldable pub exit : Sched → Option (Sched × Bool)
unfolding ready_remove priority_map_remove
exit s = do
  t ← s.current
  let p = (s.thread t).priority
  s₁ ← ready_remove s t p
  let s₂ = priority_map_remove s₁ p
  let s₃ = set_thread s₂ t (record (s₂.thread t) { state = exited })
  let left = (s₃.thread_count + 2 ^ 16 - 1) % 2 ^ 16
  some (record s₃ { thread_count = left }, left == 0)

-- `priorityList[th->priority] = th->next`, for a thread that can go on running.
unfoldable pub rotate : Sched → ℕ → Sched
rotate s t =
    if in_state (s.thread t).state ready
    then record s { priority_list = update s.priority_list (s.thread t).priority (s.links.next t) }
    else s

-- The first half of `schedule`: a running thread goes to the end of its round, and its stack is kept.
unfoldable pub put_back : Sched → Option ℕ → ℕ → Sched
unfolding rotate
put_back s none tstack = record s { sched_t_stack = tstack }
put_back s (some t) tstack =
    let s₁ = rotate s t in set_thread s₁ t (record (s₁.thread t) { t_stack_ptr = tstack })

abbrev pub same_thread : ℕ → Option ℕ → Bool
same_thread t none = false
same_thread t (some u) = t == u

-- A thread that was not running before notes the time at which it was scheduled.
abbrev pub note_start : Option ℕ → ℕ → ℕ → Thread → Thread
note_start previous now t th =
    if same_thread t previous then th else record th { expiry_time = now }

-- The second half: `chosen` is the head of the highest run queue, `previous` the thread that ran.
unfoldable pub dispatch : Sched → Option ℕ → ℕ → Option ℕ → Option (Sched × ℕ)
dispatch s previous now none = some (record s { current = none }, s.sched_t_stack)
dispatch s previous now (some t) =
    if s.highest_priority == (s.thread t).priority
    then some (
      set_thread (record s { current = some t }) t (note_start previous now t (s.thread t)),
      (s.thread t).t_stack_ptr,
    )
    else none

-- `schedule(tstack)` at time `now`: the new state and the stack to run on.
unfoldable pub schedule : Sched → ℕ → ℕ → Option (Sched × ℕ)
unfolding put_back dispatch
schedule s tstack now =
    let s₁ = put_back s s.current tstack in
    dispatch s₁ s.current now (s₁.priority_list s₁.highest_priority)

unfoldable pub is_highest_priority : Sched → ℕ → Option Bool
is_highest_priority s t =
    if leb (s.thread t).priority s.highest_priority
    then some ((s.thread t).priority == s.highest_priority)
    else none

unfoldable pub has_priority_peers : Sched → ℕ → Option Bool
has_priority_peers s t =
    if in_state (s.thread t).state ready then some (not (same_thread t (s.links.next t))) else none
