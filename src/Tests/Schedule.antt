-- ===== src/Tests/Schedule.antt =====
-- Two ready threads of priority 0 that take turns.
use cheriot_rtos.Base.{
  ℕ, zero, suc, ◌≡◌, ◌≢◌, refl, arith, false, none, some, List, [], ◌∷◌, All, inl, length, update,
  ◌+◌, ◌≤◌, ◌==◌, if◌then◌else◌,
}
use cheriot_rtos.Sched.Links.Chain.{IsRing}
use cheriot_rtos.Sched.Links.Board.{IsOff}
use cheriot_rtos.Sched.Links.{Links}
use cheriot_rtos.Sched.State.{ready, Thread, Sched, SleepQueue, futexes, multi_waiters}
use cheriot_rtos.Sched.Thread.{schedule}
use cheriot_rtos.Sched.Thread.Priorities.{IsConsistent}
use cheriot_rtos.Sched.Thread.Wakes.{heads, number, run_queue, IsAsleep}
use cheriot_rtos.Sched.Links.Occurs.{Occurs}
use cheriot_rtos.Sched.Thread.Ready.{IsPlaced}
use cheriot_rtos.Sched.MultiWaiter.{MultiWaiter}
use cheriot_rtos.Sched.Thread.Schedule.{IsScheduled, schedule_lem}

abbrev both_linked : Links
both_linked = record {
  prev = λ u. if u == 1 then some 2 else if u == 2 then some 1 else none;
  next = λ u. if u == 1 then some 2 else if u == 2 then some 1 else none;
}

abbrev runnable : ℕ → Thread
runnable t = record {
  sleep_queue = none;
  expiry_time = 0;
  multi_waiter = none;
  t_stack_ptr = 7;
  priority = 0;
  original_priority = 0;
  state = ready;
  is_yielding = false;
  futex_wait_address = 0;
  futex_priority_boosted_thread = 0;
  futex_priority_inheriting = false;
}

abbrev ready_two : Sched
ready_two = record {
  thread = runnable;
  links = both_linked;
  timer_links = record { prev = λ u. none; next = λ u. none };
  thread_count = 2;
  ticks_since_boot = 0;
  waiting_list = none;
  futex_waiting_list = none;
  multi_waiter_threads = none;
  current = some 1;
  priority_list = λ p. if p == 0 then some 1 else none;
  priority_map = λ p. p == 0;
  highest_priority = 0;
  sched_t_stack = 0;
}

abbrev queues : ℕ → List ℕ
queues zero = []
queues (suc zero) = []
queues (suc (suc zero)) = 1 ∷ 2 ∷ []
queues (suc (suc (suc p))) = []

ready_two-IsPlaced : IsPlaced 2 ready_two queues []
ready_two-IsPlaced = record {
  board = record { ring = rings; apart = aparts };
  waiters = refl;
  level = levels;
  awake = awakes;
  room = rooms;
  asleep = asleeps;
  waits = waiting;
}
  where
    rings : (q : ℕ) → IsRing both_linked (heads ready_two q) (queues q)
    rings zero = refl
    rings (suc zero) = refl
    rings (suc (suc zero)) = (refl, (((omega arith), tt), (tt, tt)), ((refl, refl), (refl, refl)))
    rings (suc (suc (suc p))) = ground arith

    aparts : (p q : ℕ) → p ≢ q → All (λ x. IsOff x (queues q)) (queues p)
    aparts zero q n = tt
    aparts (suc zero) q n = tt
    aparts (suc (suc zero)) zero n = (tt, (tt, tt))
    aparts (suc (suc zero)) (suc zero) n = (tt, (tt, tt))
    aparts (suc (suc zero)) (suc (suc zero)) n = absurd (n refl)
    aparts (suc (suc zero)) (suc (suc (suc q))) n = (tt, (tt, tt))
    aparts (suc (suc (suc p))) q n = tt

    levels : (p : ℕ) → All (λ x. (ready_two.thread x).priority ≡ p) (queues (run_queue p))
    levels zero = (refl, (refl, tt))
    levels (suc p) = tt

    awakes : (p : ℕ) → All (λ x. (ready_two.thread x).state ≡ ready) (queues (run_queue p))
    awakes zero = (refl, (refl, tt))
    awakes (suc p) = tt

    rooms : (p : ℕ) → length (queues (run_queue p)) + 0 ≤ 2
    rooms zero = omega arith
    rooms (suc p) = omega arith

    asleeps : (q : SleepQueue) → All (IsAsleep ready_two q) (queues (number q))
    asleeps futexes = tt
    asleeps multi_waiters = tt

    waiting : (q : SleepQueue) → All (λ x. Occurs x []) (queues (number q))
    waiting futexes = tt
    waiting multi_waiters = tt

ready_two-IsConsistent : IsConsistent ready_two
ready_two-IsConsistent = (
  record {
    bit = λ p. ground arith;
    width = λ p ge. ground arith;
    bound = λ p h. ground arith;
    top = inl refl;
  },
  λ t. omega arith,
)

schedule_lem_example :
    (s' : Sched) × (stack : ℕ) × (schedule ready_two 9 40 ≡ some (s', stack))
    × IsScheduled 2 ready_two queues [] 1 9 (update queues 2 (2 ∷ 1 ∷ [])) s' stack
schedule_lem_example =
    schedule_lem 2 ready_two queues [] 1 9 40 [] (2 ∷ []) ready_two-IsPlaced ready_two-IsConsistent
      refl refl refl

abbrev none_made : ℕ → MultiWaiter
none_made m = record {
  capacity = 0;
  used_length = 0;
  events = λ i. record { event_source = 0; event_value = 0; flags = 0; ready_events = 0 };
}
