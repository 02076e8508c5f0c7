-- ===== src/Sched/MultiWaiter/Report.antt =====
-- What a multiwaiter of sdk/core/scheduler/multiwait.h reports.
use cheriot_rtos.Base.{
  ℕ, ◌+◌, ◌≡◌, Bool, false, not, ◌||◌, Option, none, some, List, [], ◌∷◌, ◌==◌, if◌then◌else◌,
}
use cheriot_rtos.Sched.MultiWaiter.{
  EventWaiter, EventWaiterSource, MultiWaiter, trigger_all, EventOperationResult, error, wake,
  sleep,
}

-- An event of the caller's that has fired or not.
abbrev shown : EventWaiterSource → Bool → EventWaiter
shown new fired = record {
  event_source = new.event_source;
  event_value = new.value;
  flags = 0;
  ready_events = if fired then 1 else 0;
}

-- The elements of the array from the index `i` on are the events of the caller, fired as `f` tells.
abbrev Shows : (EventWaiterSource → Bool) → (ℕ → EventWaiter) → ℕ → List EventWaiterSource → Type 0
Shows f events i [] = Unit
Shows f events i (new ∷ news) = (events i ≡ shown new (f new)) × Shows f events (i + 1) news

abbrev pub any_of : (EventWaiterSource → Bool) → List EventWaiterSource → Bool
any_of f [] = false
any_of f (new ∷ news) = f new || any_of f news

-- The word at the address is not the value that the caller saw.
abbrev pub differs : (ℕ → ℕ) → EventWaiterSource → Bool
differs word new = not (word new.event_source == new.value)

module _ (word : ℕ → ℕ) where
  abbrev pub memory : ℕ → Option ℕ
  memory a = some (word a)

-- The event is for the address, or has fired before.
abbrev also : ℕ → (EventWaiterSource → Bool) → EventWaiterSource → Bool
also key f new = (new.event_source == key) || f new

-- The thread waits on the event.
abbrev pub hits : ℕ → EventWaiterSource → Bool
hits key new = new.event_source == key

-- The notifications of the futexes at the addresses `keys`, in their order, as they reach a sleeping
-- thread: the first that triggers the multiwaiter takes the thread off the list, and `wake_waiters` then
-- passes it by.
abbrev pub notify_asleep : List ℕ → MultiWaiter → MultiWaiter
notify_asleep [] mw = mw
notify_asleep (key ∷ keys) mw =
    if (trigger_all key mw).1
    then (trigger_all key mw).0
    else notify_asleep keys (trigger_all key mw).0

-- The multiwaiter when the thread collects: at once, unless `set_events` lets it sleep.
abbrev pub notified : EventOperationResult → List ℕ → MultiWaiter → MultiWaiter
notified error keys mw = mw
notified wake keys mw = mw
notified sleep keys mw = notify_asleep keys mw

-- The first of the addresses on which the thread waits, and the events for it.
abbrev pub first_hit : List ℕ → List EventWaiterSource → Option ℕ
first_hit [] news = none
first_hit (key ∷ keys) news = if any_of (hits key) news then some key else first_hit keys news

abbrev pub fired_by : Option ℕ → EventWaiterSource → Bool
fired_by none new = false
fired_by (some key) new = hits key new

abbrev pub reported : (EventWaiterSource → Bool) → List EventWaiterSource → List EventWaiterSource
reported f [] = []
reported f (new ∷ news) = record new { value = if f new then 1 else 0 } ∷ reported f news

-- Two answers for the same events.
abbrev Agree :
    (EventWaiterSource → Bool) → (EventWaiterSource → Bool) → List EventWaiterSource → Type 0
Agree f g [] = Unit
Agree f g (new ∷ news) = (f new ≡ g new) × Agree f g news

-- What has fired when the thread collects.
abbrev pub fires : (ℕ → ℕ) → List ℕ → List EventWaiterSource → EventWaiterSource → Bool
fires word keys news =
    if any_of (differs word) news then differs word else fired_by (first_hit keys news)
