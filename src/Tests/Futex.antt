-- ===== src/Tests/Futex.antt =====
-- Two threads of priority 3 that wait for the futex at address 100; the first inherits for thread 5.
use cheriot_rtos.Base.{
  ℕ, zero, suc, ◌≡◌, ◌≢◌, refl, arith, false, none, some, List, [], ◌∷◌, All, inl, inr, ◌==◌,
  if◌then◌else◌,
}
use cheriot_rtos.Sched.Links.Chain.{IsRing}
use cheriot_rtos.Sched.Links.Board.{IsOff, IsBoard}
use cheriot_rtos.Sched.Links.{Links}
use cheriot_rtos.Sched.State.{suspended, Thread, Sched, futexes, multi_waiters, SleepQueue, futex}
use cheriot_rtos.Sched.Thread.{make_ready}
use cheriot_rtos.Sched.Thread.Wakes.{heads, number, IsAsleep}
use cheriot_rtos.Sched.Links.Occurs.{Occurs}
use cheriot_rtos.Sched.Thread.Ready.{IsPlaced, IsWoken, make_ready_lem}
use cheriot_rtos.Sched.Walk.{walk_thread_list}
use cheriot_rtos.Sched.Walk.Visits.{visit_list, walk-visit_list}
use cheriot_rtos.Sched.Futex.{Waking, waking_list, wake_sleeper, wake_sleepers}
use cheriot_rtos.Sched.Futex.Wake.{
  Waits, Waits-IsRing, wake_sleeper-IsMild, IsWake, wake_sleepers_lem,
}
use cheriot_rtos.Sched.MultiWaiter.{EventWaiterSource, MultiWaiter, set_events}
use cheriot_rtos.Sched.MultiWaiter.Report.{memory, notified}

abbrev two_links : Links
two_links = record {
  prev = λ u. if u == 1 then some 2 else if u == 2 then some 1 else none;
  next = λ u. if u == 1 then some 2 else if u == 2 then some 1 else none;
}

abbrev sleeper : ℕ → Thread
sleeper t = record {
  sleep_queue = some futexes;
  expiry_time = 9;
  multi_waiter = none;
  t_stack_ptr = 0;
  priority = 3;
  original_priority = 3;
  state = suspended;
  is_yielding = false;
  futex_wait_address = 100;
  futex_priority_boosted_thread = 5;
  futex_priority_inheriting = t == 1;
}

abbrev sleeping_two : Sched
sleeping_two = record {
  thread = sleeper;
  links = two_links;
  timer_links = two_links;
  thread_count = 2;
  ticks_since_boot = 0;
  waiting_list = some 1;
  futex_waiting_list = some 1;
  multi_waiter_threads = none;
  current = none;
  priority_list = λ p. none;
  priority_map = λ p. false;
  highest_priority = 0;
  sched_t_stack = 0;
}

abbrev on_lists : ℕ → List ℕ
on_lists zero = 1 ∷ 2 ∷ []
on_lists (suc q) = []

two-IsRing : IsRing two_links (some 1) (1 ∷ 2 ∷ [])
two-IsRing = (refl, (((omega arith), tt), (tt, tt)), ((refl, refl), (refl, refl)))

sleeping_two-IsBoard : IsBoard two_links (heads sleeping_two) on_lists
sleeping_two-IsBoard = record { ring = rings; apart = aparts }
  where
    rings : (q : ℕ) → IsRing two_links (heads sleeping_two q) (on_lists q)
    rings zero = two-IsRing
    rings (suc zero) = refl
    rings (suc (suc p)) = refl

    aparts : (p q : ℕ) → p ≢ q → All (λ x. IsOff x (on_lists q)) (on_lists p)
    aparts zero zero n = absurd (n refl)
    aparts zero (suc q) n = (tt, (tt, tt))
    aparts (suc p) q n = tt

sleeping_two-IsPlaced : IsPlaced 4 sleeping_two on_lists (1 ∷ 2 ∷ [])
sleeping_two-IsPlaced = record {
  board = sleeping_two-IsBoard;
  waiters = two-IsRing;
  level = λ p. tt;
  awake = λ p. tt;
  room = λ p. omega arith;
  asleep = asleeps;
  waits = both;
}
  where
    asleeps : (q : SleepQueue) → All (IsAsleep sleeping_two q) (on_lists (number q))
    asleeps futexes = ((refl, refl), ((refl, refl), tt))
    asleeps multi_waiters = tt

    both : (q : SleepQueue) → All (λ x. Occurs x (1 ∷ 2 ∷ [])) (on_lists (number q))
    both futexes = (inl refl, (inr (inl refl), tt))
    both multi_waiters = tt

make_ready_lem_example :
    (s' : Sched) × (make_ready 4 sleeping_two 2 futex ≡ some s')
    × IsWoken 4 sleeping_two on_lists (1 ∷ 2 ∷ []) futexes (1 ∷ []) 2 s'
make_ready_lem_example =
    make_ready_lem 4 sleeping_two on_lists (1 ∷ 2 ∷ []) sleeping_two-IsPlaced futexes (1 ∷ []) [] 2
      refl futex

wake_sleepers_lem_example :
    (w : Waking) × (wake_sleepers 4 100 1 sleeping_two ≡ some w)
    × IsWake 4 100 sleeping_two
        (record { sched = sleeping_two; recalculate = false; count = 1; woke = 0 })
        on_lists
        (1 ∷ 2 ∷ [])
        (1 ∷ [])
        (2 ∷ [])
        w
wake_sleepers_lem_example =
    wake_sleepers_lem 4 100 1 sleeping_two on_lists (1 ∷ 2 ∷ []) sleeping_two-IsPlaced (omega arith)

abbrev wake_both : Waking
wake_both = record { sched = sleeping_two; recalculate = false; count = 7; woke = 0 }

walk-visit_list_example :
    walk_thread_list waking_list (wake_sleeper 4 100) (λ w. w.count == 0) 4 wake_both
    ≡ visit_list waking_list (wake_sleeper 4 100) (λ w. w.count == 0) (1 ∷ 2 ∷ []) wake_both
walk-visit_list_example =
    walk-visit_list waking_list (wake_sleeper 4 100) (λ w. w.count == 0) (Waits 4 100)
      (Waits-IsRing 4 100) (wake_sleeper-IsMild 4 100) 4 wake_both (1 ∷ 2 ∷ [])
      (on_lists, (1 ∷ 2 ∷ []), sleeping_two-IsPlaced, refl) (omega arith)

-- The word at every address is 5, as the caller has seen it; address 300 is notified, then 200 and 100.
abbrev sources : List EventWaiterSource
sources = record { event_source = 100; value = 5 } ∷ record { event_source = 200; value = 5 } ∷ []

abbrev free_two : MultiWaiter
free_two = record {
  capacity = 2;
  used_length = 0;
  events = λ i. record { event_source = 0; event_value = 0; flags = 0; ready_events = 0 };
}

abbrev armed_two : MultiWaiter
armed_two = (set_events (memory (λ a. 5)) free_two sources).0

abbrev told_two : MultiWaiter
told_two =
    notified (set_events (memory (λ a. 5)) free_two sources).1 (300 ∷ 200 ∷ 100 ∷ []) armed_two
