-- ===== src/Tests/Sched.antt =====
-- Lists of three threads, and a scheduler that has one ready and two expired threads.
use cheriot_rtos.Base.{
  ℕ, ◌≡◌, refl, arith, Bool, false, Option, none, some, [], ◌∷◌, ◌==◌, if◌then◌else◌, inl, inr,
  ne→==, sym,
}
use cheriot_rtos.Sched.Links.{Links, ThreadList, list_insert, list_remove}
use cheriot_rtos.Sched.Links.Chain.{IsRing}
use cheriot_rtos.Sched.Links.Place.{IsInserted, list_insert-place}
use cheriot_rtos.Sched.State.{suspended, Thread, Sched, timer}
use cheriot_rtos.Sched.Thread.{make_ready, suspend_internal}
use cheriot_rtos.Sched.Thread.Priorities.{IsConsistent, Loosened}
use cheriot_rtos.Sched.Thread.Priorities.Steps.{wake, suspend, here, next, Reach-IsConsistent}
use cheriot_rtos.Sched.Timer.{expire_loop}
use cheriot_rtos.Sched.Timer.Expiry.{expire_loop-wakes_one}

-- The list 1, 2 and no other.
abbrev pair : Links
pair = record {
  prev = λ u. if u == 1 then some 2 else if u == 2 then some 1 else none;
  next = λ u. if u == 1 then some 2 else if u == 2 then some 1 else none;
}

pair-IsRing : IsRing pair (some 1) (1 ∷ 2 ∷ [])
pair-IsRing = (refl, (((omega arith), tt), (tt, tt)), ((refl, refl), (refl, refl)))

abbrev passes_two : ℕ → Bool
passes_two u = u == 2

list_insert-place_example :
    (t : ThreadList) × (list_insert 5 passes_two pair 3 (some 1) ≡ some t)
    × IsInserted pair 3 (1 ∷ 2 ∷ []) (1 ∷ 3 ∷ 2 ∷ []) t
list_insert-place_example =
    list_insert-place passes_two pair 3 (some 1) (1 ∷ 2 ∷ []) 5 pair-IsRing
      (omega arith, (omega arith, tt)) ((λ e. (refl, tt)), ((λ e. tt), tt)) (omega arith)

abbrev sleeping : ℕ → Thread
sleeping p = record {
  sleep_queue = none;
  expiry_time = 9;
  multi_waiter = none;
  t_stack_ptr = 0;
  priority = p;
  original_priority = p;
  state = suspended;
  is_yielding = false;
  futex_wait_address = 0;
  futex_priority_boosted_thread = 0;
  futex_priority_inheriting = false;
}

-- Threads 1 and 2 wait until time 9, at priority 3.
abbrev waiting : Sched
waiting = record {
  thread = λ t. sleeping 3;
  links = record { prev = λ u. none; next = λ u. none };
  timer_links = pair;
  thread_count = 2;
  ticks_since_boot = 0;
  waiting_list = some 1;
  futex_waiting_list = none;
  multi_waiter_threads = none;
  current = none;
  priority_list = λ p. none;
  priority_map = λ p. false;
  highest_priority = 0;
  sched_t_stack = 0;
}

waiting-IsConsistent : IsConsistent waiting
waiting-IsConsistent = (
  record { bit = λ p. refl; width = λ p ge. refl; bound = λ p h. ground arith; top = inl refl },
  λ t. omega arith,
)

abbrev or_else : Option Sched → Sched → Sched
or_else (some s) d = s
or_else none d = d

abbrev woken : Sched
woken = or_else (make_ready 5 waiting 1 timer) waiting

wakes : make_ready 5 waiting 1 timer ≡ some woken
unfolding make_ready list_remove list_insert
wakes = refl

-- Both threads have expired at time 12, and only thread 1 is woken.
expire_loop-wakes_one_example :
    (expire_loop 5 5 12 waiting 1 ≡ some woken)
    × IsRing woken.timer_links woken.waiting_list (2 ∷ [])
expire_loop-wakes_one_example =
    expire_loop-wakes_one 5 4 12 waiting 1 (2 ∷ []) woken pair-IsRing (omega arith) wakes

abbrev asleep : Sched
asleep = or_else (suspend_internal 5 woken 1 20 none false) waiting

sleeps : suspend_internal 5 woken 1 20 none false ≡ some asleep
unfolding make_ready suspend_internal list_remove list_insert
sleeps = refl

Reach-IsConsistent_example : IsConsistent asleep
Reach-IsConsistent_example =
    Reach-IsConsistent 5 waiting asleep
      (next (next here (wake 1 timer wakes)) (suspend 1 20 none false sleeps)) waiting-IsConsistent

-- The run queues of `woken` after its thread has left them, with its priority's bit still set.
abbrev emptied : Sched
emptied = record waiting { priority_map = λ p. p == 3; highest_priority = 3 }

emptied-Loosened : Loosened 3 emptied
emptied-Loosened = (
  record {
    bit = λ p n. ne→== p 3 (λ e. n (sym e));
    here = λ h. ground arith;
    width = λ p ge. ground arith;
    bound = λ p h. ground arith;
    top = inr refl;
  },
  λ t. omega arith,
)
