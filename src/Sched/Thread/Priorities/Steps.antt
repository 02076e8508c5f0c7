-- ===== src/Sched/Thread/Priorities/Steps.antt =====
-- Every operation of sdk/core/scheduler/thread.h that wakes, suspends, boosts, ends or switches threads
-- keeps the highest ready priority and the bits of the ready priorities right.
use cheriot_rtos.Base.{ℕ, ◌<◌, ◌≤◌, ◌≡◌, Bool, true, Option, some, max}
use cheriot_rtos.Sched.State.{ready, suspended, WakeReason, SleepQueue, Sched}
use cheriot_rtos.Sched.Thread.{
  ready_insert, timer_insert, ready_remove, timer_remove, leave_sleep_queue, join_sleep_queue,
  priority_map_add, priority_map_remove, set_thread, assert, in_state, make_ready, suspend_internal,
  priority_boost, exit, schedule, forgets_multi_waiter, forget,
}
use cheriot_rtos.Sched.Thread.Priorities.{IsConsistent, Loosened, Sets}
use cheriot_rtos.Sched.Thread.Priorities.Bits.{
  priority_map_remove-IsConsistent, priority_map_add-Sets,
}
use cheriot_rtos.Sched.Thread.Priorities.Boost.{
  IsQueued, priority_boost-Ensures, exit-Ensures, schedule-Ensures,
}
use cheriot_rtos.Sched.Thread.Priorities.Parts.{
  Ensures, Ensures-bind, Ensures-some, Ensures-self, kept, with_thread, set_thread-IsSmall,
  timer_remove-Keeps, timer_insert-Keeps, leave_sleep_queue-Keeps, join_sleep_queue-Keeps,
  ready_insert-IsConsistent, ready_remove-Loosened,
}

pub make_ready-Ensures :
    (threads : ℕ) (s : Sched) (t : ℕ) (reason : WakeReason)
    → IsConsistent s
    → Ensures IsConsistent (make_ready threads s t reason)
unfolding make_ready
make_ready-Ensures threads s t reason a =
    Ensures-bind IsConsistent (assert (in_state (s.thread t).state suspended)) _ (λ u g.
      Ensures-bind IsConsistent (timer_remove s t) _ (λ s₁ e₁.
        Ensures-bind IsConsistent (leave_sleep_queue s₁ t (s₁.thread t).sleep_queue) _ (λ s₂ e₂.
          let a₁ = kept s _ s₁ a (timer_remove-Keeps threads s t) e₁ in
          let a₂ = kept s₁ _ s₂ a₁ (leave_sleep_queue-Keeps threads s₁ t _) e₂ in
          let s₃ = set_thread s₂ t (record (s₂.thread t) { state = ready }) in
          let a₃ : IsConsistent s₃ = with_thread s₂ t _ (a₂.1 t) a₂ in
          let p = (s₃.thread t).priority in
          let s₄ = priority_map_add s₃ p in
          let (a₄, set, small₄) = priority_map_add-Sets s₃ p (a₃.1 t) a₃ in
          let th = forget (forgets_multi_waiter reason) (s₄.thread t) in
          let s₅ = set_thread s₄ t th in
          let ok₅ : Sets p s₅ = (a₄, set, set_thread-IsSmall s₄ t th (small₄ t) small₄) in
          Ensures-bind IsConsistent (ready_insert threads s₅ t p) _ (λ s₆ e₆.
            let a₆ =
              Ensures-some IsConsistent _ s₆ (ready_insert-IsConsistent threads s₅ t p ok₅) e₆ in
            with_thread s₆ t _ (a₆.1 t) a₆))))

pub suspend_internal-Ensures :
    (threads : ℕ) (s : Sched) (t expiry : ℕ) (o : Option SleepQueue) (y : Bool)
    → IsConsistent s
    → Ensures IsConsistent (suspend_internal threads s t expiry o y)
unfolding suspend_internal
suspend_internal-Ensures threads s t expiry o y a =
    let s₁ = set_thread s t (record (s.thread t) { is_yielding = y }) in
    let a₁ : IsConsistent s₁ = with_thread s t _ (a.1 t) a in
    let p = (s₁.thread t).priority in
    Ensures-bind IsConsistent (assert (in_state (s₁.thread t).state ready)) _ (λ u g.
      Ensures-bind IsConsistent (ready_remove s₁ t p) _ (λ s₂ e₂.
        let (l₂, small₂) = Ensures-some (Loosened p) _ s₂ (ready_remove-Loosened s₁ t p a₁) e₂ in
        let th = record (s₂.thread t) { state = suspended } in
        let s₃ = set_thread s₂ t th in
        let s₄ = priority_map_remove s₃ p in
        let a₄ : IsConsistent s₄ =
          priority_map_remove-IsConsistent s₃ p
            (l₂, set_thread-IsSmall s₂ t th (small₂ t) small₂) in
        Ensures-bind IsConsistent (join_sleep_queue threads s₄ t o) _ (λ s₅ e₅.
          let a₅ = kept s₄ _ s₅ a₄ (join_sleep_queue-Keeps threads s₄ t o) e₅ in
          let s₆ = set_thread s₅ t (record (s₅.thread t) { expiry_time = expiry }) in
          let a₆ : IsConsistent s₆ = with_thread s₅ t _ (a₅.1 t) a₅ in
          Ensures-self IsConsistent (timer_insert threads s₆ t)
            (λ s₇ e₇. kept s₆ _ s₇ a₆ (timer_insert-Keeps threads s₆ t) e₇))))

-- What the scheduler does to its threads, with the fault-free result of each operation.
pub data Step (threads : ℕ) (s : Sched) : Sched → Type 0 where
  wake :
      {s' : Sched} (t : ℕ) (reason : WakeReason)
      → make_ready threads s t reason ≡ some s'
      → Step threads s s'
  suspend :
      {s' : Sched} (t expiry : ℕ) (o : Option SleepQueue) (y : Bool)
      → suspend_internal threads s t expiry o y ≡ some s'
      → Step threads s s'
  boost :
      {s' : Sched} (t requested : ℕ)
      → max requested (s.thread t).original_priority < 32
      → (in_state (s.thread t).state ready ≡ true
          → max requested (s.thread t).original_priority ≤ s.highest_priority)
      → priority_boost threads s t requested ≡ some s'
      → Step threads s s'
  finish : {s' : Sched} (last : Bool) → exit s ≡ some (s', last) → Step threads s s'
  switch :
      {s' : Sched} (tstack now stack : ℕ)
      → IsQueued s s.current
      → schedule s tstack now ≡ some (s', stack)
      → Step threads s s'

pub data Reach (threads : ℕ) (s : Sched) : Sched → Type 0 where
  here : Reach threads s s
  next : {s' s'' : Sched} → Reach threads s s' → Step threads s' s'' → Reach threads s s''

pub Step-IsConsistent :
    (threads : ℕ) (s s' : Sched) → Step threads s s' → IsConsistent s → IsConsistent s'
Step-IsConsistent threads s s' (wake t reason e) a =
    Ensures-some IsConsistent _ s' (make_ready-Ensures threads s t reason a) e
Step-IsConsistent threads s s' (suspend t expiry o y e) a =
    Ensures-some IsConsistent _ s' (suspend_internal-Ensures threads s t expiry o y a) e
Step-IsConsistent threads s s' (boost t requested fits le e) a =
    Ensures-some IsConsistent _ s' (priority_boost-Ensures threads s t requested fits le a) e
Step-IsConsistent threads s s' (finish last e) a =
    Ensures-some (λ (r : Sched × Bool). IsConsistent r.0) _ (s', last) (exit-Ensures s a) e
Step-IsConsistent threads s s' (switch tstack now stack h e) a =
    Ensures-some (λ (r : Sched × ℕ). IsConsistent r.0) _ (s', stack)
      (schedule-Ensures s tstack now h a) e

-- Whatever wakes, suspensions, exits, switches and boosts follow one another, if none faults, every
-- boost is to a priority below 32 and, of a ready thread, to at most the highest ready priority, and at
-- every switch the running thread, if it is ready, has a next thread exactly if its run queue is not
-- empty: a priority's bit is set exactly if its run queue is not empty, no run queue above the highest priority has a thread,
-- and the highest priority's run queue has one unless that priority is 0.
pub Reach-IsConsistent :
    (threads : ℕ) (s s' : Sched) → Reach threads s s' → IsConsistent s → IsConsistent s'
Reach-IsConsistent threads s s' here a = a
Reach-IsConsistent threads s s' (next {s' = mid} r st) a =
    Step-IsConsistent threads mid s' st (Reach-IsConsistent threads s mid r a)
