-- ===== src/Sched/Timer/Expiry.antt =====
-- What one call of `expiretimers` of sdk/core/scheduler/timer.h wakes.
use cheriot_rtos.Base.{
  ℕ, suc, ◌≤◌, ◌≡◌, sym, subst, true, Option, none, some, List, [], ◌∷◌, arith, leb, le→leb,
  ==-refl,
}
use cheriot_rtos.Sched.Links.{ThreadList, list_remove}
use cheriot_rtos.Sched.Links.Chain.{IsRing}
use cheriot_rtos.Sched.Links.Remove.{list_remove_lem}
use cheriot_rtos.Sched.State.{
  ready, suspended, WakeReason, timer, SleepQueue, futexes, multi_waiters, Sched,
}
use cheriot_rtos.Sched.Thread.{
  make_ready, timer_remove, leave_sleep_queue, sleep_remove, priority_map_add, ready_insert,
  set_thread, assert, in_state, forgets_multi_waiter, forget,
}
use cheriot_rtos.Sched.Thread.Priorities.Parts.{Ensures, Ensures-bind, Ensures-some}
use cheriot_rtos.Sched.Timer.{expire_loop}

-- The list of waiting threads and its links are those of `r`.
abbrev HasTimers : ThreadList → Sched → Type 0
HasTimers r s = (s.timer_links ≡ r.links) × (s.waiting_list ≡ r.head)

leave_sleep_queue-HasTimers :
    (r : ThreadList) (s : Sched) (t : ℕ) (o : Option SleepQueue)
    → HasTimers r s
    → Ensures (HasTimers r) (leave_sleep_queue s t o)
unfolding leave_sleep_queue sleep_remove
leave_sleep_queue-HasTimers r s t none h = h
leave_sleep_queue-HasTimers r s t (some futexes) h = ground arith
leave_sleep_queue-HasTimers r s t (some multi_waiters) h = ground arith

priority_map_add-HasTimers :
    (r : ThreadList) (s : Sched) (p : ℕ) → HasTimers r s → HasTimers r (priority_map_add s p)
unfolding priority_map_add
priority_map_add-HasTimers r s p h = ground arith

ready_insert-HasTimers :
    (r : ThreadList) (threads : ℕ) (s : Sched) (t p : ℕ)
    → HasTimers r s
    → Ensures (HasTimers r) (ready_insert threads s t p)
unfolding ready_insert
ready_insert-HasTimers r threads s t p h = ground arith

timer_remove-HasTimers :
    (s : Sched) (t : ℕ) (r : ThreadList)
    → list_remove s.timer_links t s.waiting_list ≡ some r
    → Ensures (HasTimers r) (timer_remove s t)
unfolding timer_remove
timer_remove-HasTimers s t r e = ground arith

-- Waking a thread leaves on the timer list what its removal leaves there.
make_ready-HasTimers :
    (threads : ℕ) (s : Sched) (t : ℕ) (reason : WakeReason) (r : ThreadList)
    → list_remove s.timer_links t s.waiting_list ≡ some r
    → Ensures (HasTimers r) (make_ready threads s t reason)
unfolding make_ready
make_ready-HasTimers threads s t reason r e =
    Ensures-bind (HasTimers r) (assert (in_state (s.thread t).state suspended)) _ (λ u g.
      Ensures-bind (HasTimers r) (timer_remove s t) _ (λ s₁ e₁.
        Ensures-bind (HasTimers r) (leave_sleep_queue s₁ t (s₁.thread t).sleep_queue) _ (λ s₂ e₂.
          let h₁ = Ensures-some (HasTimers r) _ s₁ (timer_remove-HasTimers s t r e) e₁ in
          let h₂ = Ensures-some (HasTimers r) _ s₂ (leave_sleep_queue-HasTimers r s₁ t _ h₁) e₂ in
          let s₃ = set_thread s₂ t (record (s₂.thread t) { state = ready }) in
          let p = (s₃.thread t).priority in
          let s₄ = priority_map_add s₃ p in
          let h₄ = priority_map_add-HasTimers r s₃ p h₂ in
          let s₅ = set_thread s₄ t (forget (forgets_multi_waiter reason) (s₄.thread t)) in
          Ensures-bind (HasTimers r) (ready_insert threads s₅ t p) _ (λ s₆ e₆.
            Ensures-some (HasTimers r) _ s₆ (ready_insert-HasTimers r threads s₅ t p h₄) e₆))))

-- A call of `expiretimers` wakes at most one thread for its timeout: if the first waiting thread has
-- expired, and waking it does not fault, its loop wakes that thread and stops, with all the others still
-- waiting in their order, expired or not.
pub expire_loop-wakes_one :
    (threads fuel now : ℕ) (s : Sched) (x : ℕ) (rest : List ℕ) (s' : Sched)
    → IsRing s.timer_links s.waiting_list (x ∷ rest)
    → (s.thread x).expiry_time ≤ now
    → make_ready threads s x timer ≡ some s'
    → (expire_loop (suc fuel) threads now s x ≡ some s')
      × IsRing s'.timer_links s'.waiting_list rest
unfolding expire_loop
expire_loop-wakes_one threads fuel now s x rest s' ring due woken =
    let (r, removed, left) = list_remove_lem s.timer_links x s.waiting_list [] rest ring in
    let (same_links, same_head) =
      Ensures-some (HasTimers r) _ s' (make_ready-HasTimers threads s x timer r removed) woken in
    (
      stops rest ring r same_head left.ring (le→leb _ _ due),
      subst (λ l. IsRing l s'.waiting_list rest) (sym same_links)
          (subst (λ h. IsRing r.links h rest) (sym same_head) left.ring),
    )
  where
    stops :
        (rest : List ℕ)
        → IsRing s.timer_links s.waiting_list (x ∷ rest)
        → (r : ThreadList) → s'.waiting_list ≡ r.head
        → IsRing r.links r.head rest
        → leb (s.thread x).expiry_time now ≡ true
        → expire_loop (suc fuel) threads now s x ≡ some s'
    stops [] ring r e left due = ground (arith, ring.2.0)
    stops (y ∷ ys) ring r e left due = ground (arith, ring.2.0.0, left.0, ==-refl y)
