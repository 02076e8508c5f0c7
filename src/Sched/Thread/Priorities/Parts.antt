-- ===== src/Sched/Thread/Priorities/Parts.antt =====
-- What the list operations of sdk/core/scheduler/thread.h do to the run queues' heads, the bits and the
-- highest priority.
use cheriot_rtos.Base.{
  ℕ, ◌<◌, ◌≡◌, refl, sym, ap, subst, ◌∙◌, Bool, true, false, Option, none, some, arith, update,
  update_ne, update_self, ℕ_discrete, if◌then◌else◌,
}
use cheriot_rtos.Sched.Links.{Links, ThreadList, list_insert, list_remove}
use cheriot_rtos.Sched.State.{
  ThreadState, SleepQueue, futexes, multi_waiters, Thread, Sched, set_sleep_head,
}
use cheriot_rtos.Sched.Thread.{
  ◌>>=◌, ready_insert, sleep_insert, timer_insert, ready_remove, sleep_remove, timer_remove,
  leave_sleep_queue, join_sleep_queue, leave_for_boost, rejoin_for_boost, set_thread, assert,
  in_state, outranks, expires_before,
}
use cheriot_rtos.Sched.Thread.Priorities.{
  is_some, Agrees, AgreesBut, IsSmall, IsConsistent, Loosened, Sets,
}

-- What holds of the result, unless the operation faults.
abbrev pub Ensures {ℓ κ} : {A : Type ℓ} → (A → Type κ) → Option A → Type κ
Ensures P none = Unit
Ensures P (some a) = P a

pub Ensures-bind {ℓ κ ι} :
    {A : Type ℓ} {B : Type κ} (P : B → Type ι) (m : Option A) (f : A → Option B)
    → ((a : A) → m ≡ some a → Ensures P (f a))
    → Ensures P (m >>= f)
Ensures-bind P none f h = tt
Ensures-bind P (some a) f h = h a refl

pub Ensures-some {ℓ κ} :
    {A : Type ℓ} (P : A → Type κ) (m : Option A) (a : A) → Ensures P m → m ≡ some a → P a
Ensures-some P m a h e = subst (Ensures P) e h

-- `s'` has the run queues, bits and highest priority of `s`, and its priorities fit if those of `s` do.
abbrev pub Keeps : Sched → Sched → Type 0
Keeps s s' =
    (s'.priority_list ≡ s.priority_list)
    × (s'.priority_map ≡ s.priority_map)
    × (s'.highest_priority ≡ s.highest_priority)
    × (IsSmall s → IsSmall s')

pub Keeps-IsConsistent : (s s' : Sched) → Keeps s s' → IsConsistent s → IsConsistent s'
Keeps-IsConsistent s s' (e, f, g, k) (a, small) = (
  subst (λ h. Agrees s'.priority_list s'.priority_map h) (sym g)
      (subst (λ m. Agrees s'.priority_list m s.highest_priority) (sym f)
        (subst (λ l. Agrees l s.priority_map s.highest_priority) (sym e) a)),
  k small,
)

pub set_thread-IsSmall :
    (s : Sched) (t : ℕ) (th : Thread) → th.priority < 32 → IsSmall s → IsSmall (set_thread s t th)
set_thread-IsSmall s t th h small u = ground (arith, small u)

set_sleep_head-Keeps : (s : Sched) (q : SleepQueue) (h : Option ℕ) → Keeps s (set_sleep_head s q h)
set_sleep_head-Keeps s futexes h = (refl, refl, refl, λ small. small)
set_sleep_head-Keeps s multi_waiters h = (refl, refl, refl, λ small. small)

module _ (threads : ℕ) (s : Sched) (t : ℕ) where
  pub timer_remove-Keeps : Ensures (Keeps s) (timer_remove s t)
  unfolding timer_remove
  timer_remove-Keeps =
      Ensures-bind (Keeps s) (list_remove s.timer_links t s.waiting_list)
        (λ (r : ThreadList). some (record s { timer_links = r.links; waiting_list = r.head }))
        (λ r e. (refl, refl, refl, λ small. small))

  pub timer_insert-Keeps : Ensures (Keeps s) (timer_insert threads s t)
  unfolding timer_insert
  timer_insert-Keeps =
      Ensures-bind (Keeps s) (assert (in_state (s.thread t).state ThreadState.suspended)) _ (λ u a.
        Ensures-bind (Keeps s) (list_insert threads (expires_before s t) s.timer_links t _)
          (λ (r : ThreadList). some (record s { timer_links = r.links; waiting_list = r.head }))
          (λ r e. (refl, refl, refl, λ small. small)))

  pub sleep_insert-Keeps : (q : SleepQueue) → Ensures (Keeps s) (sleep_insert threads s t q)
  unfolding sleep_insert
  sleep_insert-Keeps q =
      Ensures-bind (Keeps s) _
        (λ (r : ThreadList). some (set_sleep_head (record s { links = r.links }) q r.head))
        (λ r e. set_sleep_head-Keeps (record s { links = r.links }) q r.head)

  pub sleep_remove-Keeps : (q : SleepQueue) → Ensures (Keeps s) (sleep_remove s t q)
  unfolding sleep_remove
  sleep_remove-Keeps q =
      Ensures-bind (Keeps s) _
        (λ (r : ThreadList). some (set_sleep_head (record s { links = r.links }) q r.head))
        (λ r e. set_sleep_head-Keeps (record s { links = r.links }) q r.head)

  pub leave_sleep_queue-Keeps :
      (o : Option SleepQueue) → Ensures (Keeps s) (leave_sleep_queue s t o)
  unfolding leave_sleep_queue
  leave_sleep_queue-Keeps none = (refl, refl, refl, λ small. small)
  leave_sleep_queue-Keeps (some q) = Ensures-bind (Keeps s) _ _ (λ s' e.
      let (a, b, c, k) = Ensures-some (Keeps s) _ s' (sleep_remove-Keeps q) e in
      (a, b, c, λ small. set_thread-IsSmall s' t _ (k small t) (k small)))

  pub join_sleep_queue-Keeps :
      (o : Option SleepQueue) → Ensures (Keeps s) (join_sleep_queue threads s t o)
  unfolding join_sleep_queue
  join_sleep_queue-Keeps none = (refl, refl, refl, λ small. small)
  join_sleep_queue-Keeps (some q) = Ensures-bind (Keeps s) _ _ (λ s' e.
      let (a, b, c, k) = Ensures-some (Keeps s) _ s' (sleep_insert-Keeps q) e in
      (a, b, c, λ small. set_thread-IsSmall s' t _ (k small t) (k small)))

  pub leave_for_boost-Keeps : (o : Option SleepQueue) → Ensures (Keeps s) (leave_for_boost s t o)
  unfolding leave_for_boost
  leave_for_boost-Keeps none = (refl, refl, refl, λ small. small)
  leave_for_boost-Keeps (some q) = sleep_remove-Keeps q

  pub rejoin_for_boost-Keeps :
      (o : Option SleepQueue) → Ensures (Keeps s) (rejoin_for_boost threads s t o)
  unfolding rejoin_for_boost
  rejoin_for_boost-Keeps none = (refl, refl, refl, λ small. small)
  rejoin_for_boost-Keeps (some q) = sleep_insert-Keeps q

-- After an insertion a list is not empty, and a removal fills no empty list.
pub list_insert-head :
    (threads : ℕ) (passes : ℕ → Bool) (l : Links) (t : ℕ) (head : Option ℕ)
    → Ensures (λ r. is_some r.head ≡ true) (list_insert threads passes l t head)
unfolding list_insert
list_insert-head threads passes l t none = refl
list_insert-head threads passes l t (some h) = ground arith

list_remove-head :
    (l : Links) (t : ℕ) (head : Option ℕ)
    → Ensures (λ r. is_some r.head ≡ true → is_some head ≡ true) (list_remove l t head)
unfolding list_remove
list_remove-head l t none = ground arith
list_remove-head l t (some h) = ground arith

module _ (lists : ℕ → Option ℕ) (bits : ℕ → Bool) (highest q : ℕ) where
  -- The run queue of a priority whose bit is set gets a thread.
  filled-Agrees :
      (h : Option ℕ)
      → is_some h ≡ true
      → AgreesBut q lists bits highest
      → bits q ≡ true
      → Agrees (update lists q h) bits highest
  filled-Agrees h full a set = record {
    bit = λ p. elim (ℕ_discrete q p) [
      | yes same ↦
          subst (λ p. bits p ≡ is_some (update lists q h p)) same
            (set ∙ sym (ap (λ o. is_some o) (update_self lists q h) ∙ full))
      | no n ↦ a.bit p n ∙ sym (ap (λ o. is_some o) (update_ne lists q p h n))
    ];
    width = a.width;
    bound = a.bound;
    top = a.top;
  }

  -- The run queue of a priority loses a thread.
  changed-AgreesBut :
      (h : Option ℕ)
      → (is_some h ≡ true → is_some (lists q) ≡ true)
      → Agrees lists bits highest
      → AgreesBut q (update lists q h) bits highest
  changed-AgreesBut h less a = record {
    bit = λ p n. a.bit p ∙ sym (ap (λ o. is_some o) (update_ne lists q p h n));
    here = λ full. a.bit q ∙ less (sym (ap (λ o. is_some o) (update_self lists q h)) ∙ full);
    width = a.width;
    bound = a.bound;
    top = a.top;
  }

pub ready_insert-IsConsistent :
    (threads : ℕ) (s : Sched) (t q : ℕ)
    → Sets q s
    → Ensures IsConsistent (ready_insert threads s t q)
unfolding ready_insert
ready_insert-IsConsistent threads s t q (a, set, small) =
    Ensures-bind IsConsistent (list_insert threads (outranks s t) s.links t (s.priority_list q))
      (λ (r : ThreadList).
        some (record s { links = r.links; priority_list = update s.priority_list q r.head }))
      (λ r e. (
        filled-Agrees s.priority_list s.priority_map s.highest_priority q r.head
            (Ensures-some (λ r. is_some r.head ≡ true) _ r
              (list_insert-head threads (outranks s t) s.links t (s.priority_list q)) e)
            a set,
        small,
      ))

pub ready_remove-Loosened :
    (s : Sched) (t q : ℕ) → IsConsistent s → Ensures (Loosened q) (ready_remove s t q)
unfolding ready_remove
ready_remove-Loosened s t q (a, small) =
    Ensures-bind (Loosened q) (list_remove s.links t (s.priority_list q))
      (λ (r : ThreadList).
        some (record s { links = r.links; priority_list = update s.priority_list q r.head }))
      (λ r e. (
        changed-AgreesBut s.priority_list s.priority_map s.highest_priority q r.head
            (Ensures-some (λ r. is_some r.head ≡ true → is_some (s.priority_list q) ≡ true) _ r
              (list_remove-head s.links t (s.priority_list q)) e)
            a,
        small,
      ))

pub Ensures-self {ℓ κ} :
    {A : Type ℓ} (P : A → Type κ) (m : Option A) → ((a : A) → m ≡ some a → P a) → Ensures P m
Ensures-self P none h = tt
Ensures-self P (some a) h = h a refl

-- A part of an operation that keeps the run queues.
pub kept :
    (s : Sched) (m : Option Sched) (s' : Sched)
    → IsConsistent s
    → Ensures (Keeps s) m
    → m ≡ some s'
    → IsConsistent s'
kept s m s' a h e = Keeps-IsConsistent s s' (Ensures-some (Keeps s) m s' h e) a

pub with_thread :
    (s : Sched) (t : ℕ) (th : Thread)
    → th.priority < 32
    → IsConsistent s
    → IsConsistent (set_thread s t th)
with_thread s t th h (a, small) = (a, set_thread-IsSmall s t th h small)

pub Ensures-if {ℓ κ} :
    {A : Type ℓ} (P : A → Type κ) (b : Bool) (m n : Option A)
    → (b ≡ true → Ensures P m)
    → (b ≡ false → Ensures P n)
    → Ensures P (if b then m else n)
Ensures-if P true m n h k = h refl
Ensures-if P false m n h k = k refl
