-- ===== src/Sched/Thread/Wakes.antt =====
-- What `ready` of sdk/core/scheduler/thread.h does to the lists of threads, when it wakes a thread that waits
-- for a resource.
use cheriot_rtos.Base.{
  ℕ, zero, suc, ◌≡◌, ◌≢◌, inl, inr, refl, ap, ◌∙◌, subst, Bool, true, false, Option, none, some,
  Option-cases, List, [], ◌∷◌, ◌++◌, All, update, update_self, update_ne, arith, ltb, if◌then◌else◌,
}
use cheriot_rtos.Sched.Links.{Links, ThreadList, list_remove}
use cheriot_rtos.Sched.Links.Chain.{IsRing}
use cheriot_rtos.Sched.Links.Place.{place, Upward}
use cheriot_rtos.Sched.Links.Board.{IsOff, IsBoard}
use cheriot_rtos.Sched.State.{
  ready, suspended, WakeReason, SleepQueue, futexes, multi_waiters, Thread, Sched, sleep_head,
  set_sleep_head,
}
use cheriot_rtos.Sched.Thread.{
  timer_remove, leave_sleep_queue, sleep_remove, priority_map_add, ◌>>=◌, set_thread,
  forgets_multi_waiter, forget,
}

-- The numbers of the lists: the two sleep queues, and the run queue of each priority.
abbrev pub heads : Sched → ℕ → Option ℕ
heads s zero = s.futex_waiting_list
heads s (suc zero) = s.multi_waiter_threads
heads s (suc (suc p)) = s.priority_list p

abbrev pub number : SleepQueue → ℕ
number futexes = 0
number multi_waiters = 1

abbrev pub run_queue : ℕ → ℕ
run_queue p = suc (suc p)

-- A waiting thread, and where.
abbrev pub IsAsleep : Sched → SleepQueue → ℕ → Type 0
IsAsleep s q x = ((s.thread x).state ≡ suspended) × ((s.thread x).sleep_queue ≡ some q)

-- While `t` is moved: it is on none of the lists, and the other threads are as in `s`.
pub record IsBetween (s : Sched) (t : ℕ) (members : ℕ → List ℕ) (timers : List ℕ) (a : Sched)
    : Type 0 where
  pub board : IsBoard a.links (heads a) members
  pub off : (p : ℕ) → IsOff t (members p)
  pub waiters : IsRing a.timer_links a.waiting_list timers
  pub thread : (u : ℕ) → t ≢ u → a.thread u ≡ s.thread u
  pub priority : (a.thread t).priority ≡ (s.thread t).priority

pub IsBoard-heads :
    (l : Links) (h h' : ℕ → Option ℕ) (m : ℕ → List ℕ)
    → ((w : ℕ) → h w ≡ h' w)
    → IsBoard l h m
    → IsBoard l h' m
IsBoard-heads l h h' m same board = record {
  ring = λ w. subst (λ k. IsRing l k (m w)) (same w) (board.ring w);
  apart = board.apart;
}

set_thread-IsBetween :
    (s : Sched) (t : ℕ) (members : ℕ → List ℕ) (timers : List ℕ) (a : Sched) (th : Thread)
    → th.priority ≡ (a.thread t).priority
    → IsBetween s t members timers a
    → IsBetween s t members timers (set_thread a t th)
set_thread-IsBetween s t members timers a th e b = record {
  board = IsBoard-heads a.links (heads a) (heads (set_thread a t th)) members same b.board;
  off = b.off;
  waiters = b.waiters;
  thread = λ u n. update_ne a.thread t u th n ∙ b.thread u n;
  priority = ap (λ (x : Thread). x.priority) (update_self a.thread t th) ∙ e ∙ b.priority;
}
  where
    same : (w : ℕ) → heads a w ≡ heads (set_thread a t th) w
    same zero = refl
    same (suc zero) = refl
    same (suc (suc p)) = refl

-- `priority_map_add` changes neither lists nor threads.
priority_map_add-IsBetween :
    (s : Sched) (t : ℕ) (members : ℕ → List ℕ) (timers : List ℕ) (a : Sched) (p : ℕ)
    → IsBetween s t members timers a
    → IsBetween s t members timers (priority_map_add a p)
unfolding priority_map_add
priority_map_add-IsBetween s t members timers a p b = elim (Option-cases (a.priority_list p)) [
  | inl first ↦
      rw (first, priority_map_add)
        (record {
          board = IsBoard-heads a.links (heads a) _ members same b.board;
          off = b.off;
          waiters = b.waiters;
          thread = b.thread;
          priority = b.priority;
        })
  | inr (x, more) ↦ rw (more, priority_map_add) b
]
  where
    same :
        (w : ℕ)
        → heads a w
          ≡ heads
              (record a {
                priority_map = update a.priority_map p true;
                highest_priority = if ltb a.highest_priority p then p else a.highest_priority;
              })
              w
    same zero = refl
    same (suc zero) = refl
    same (suc (suc p)) = refl

pub sleep_head-number : (s : Sched) (q : SleepQueue) → sleep_head s q ≡ heads s (number q)
sleep_head-number s futexes = refl
sleep_head-number s multi_waiters = refl

-- The state when a thread has left the list of waiting threads and its sleep queue.
abbrev pub left_queue : Sched → ℕ → ThreadList → SleepQueue → ThreadList → Sched
left_queue s t timers q l =
    let a =
      set_sleep_head
        (record s { timer_links = timers.links; waiting_list = timers.head; links = l.links }) q
        l.head in
    set_thread a t (record (a.thread t) { sleep_queue = none })

pub left_queue-IsBetween :
    (s : Sched) (t : ℕ) (timers : ThreadList) (q : SleepQueue) (l : ThreadList)
    (members : ℕ → List ℕ) (ts : List ℕ)
    → IsBoard l.links (update (heads s) (number q) l.head) members
    → ((p : ℕ) → IsOff t (members p))
    → IsRing timers.links timers.head ts
    → IsBetween s t members ts (left_queue s t timers q l)
left_queue-IsBetween s t timers futexes l members ts board off ring =
    set_thread-IsBetween s t members ts _ _ refl (record {
      board = IsBoard-heads l.links (update (heads s) 0 l.head) _ members same board;
      off = off;
      waiters = ring;
      thread = λ u n. refl;
      priority = refl;
    })
  where
    same :
        (w : ℕ)
        → update (heads s) 0 l.head w
          ≡ heads
              (record s {
                links = l.links;
                futex_waiting_list = l.head;
                timer_links = timers.links;
                waiting_list = timers.head;
              })
              w
    same zero = refl
    same (suc zero) = refl
    same (suc (suc p)) = update_ne (heads s) 0 (suc (suc p)) l.head (omega arith)
left_queue-IsBetween s t timers multi_waiters l members ts board off ring =
    set_thread-IsBetween s t members ts _ _ refl (record {
      board = IsBoard-heads l.links (update (heads s) 1 l.head) _ members same board;
      off = off;
      waiters = ring;
      thread = λ u n. refl;
      priority = refl;
    })
  where
    same :
        (w : ℕ)
        → update (heads s) 1 l.head w
          ≡ heads
              (record s {
                links = l.links;
                multi_waiter_threads = l.head;
                timer_links = timers.links;
                waiting_list = timers.head;
              })
              w
    same zero = update_ne (heads s) 1 0 l.head (omega arith)
    same (suc zero) = refl
    same (suc (suc p)) = update_ne (heads s) 1 (suc (suc p)) l.head (omega arith)

-- The first half of `ready`, up to the removal from the sleep queue.
pub leaves :
    (s : Sched) (t : ℕ) (timers : ThreadList) (q : SleepQueue) (l : ThreadList)
    → (s.thread t).sleep_queue ≡ some q
    → list_remove s.timer_links t s.waiting_list ≡ some timers
    → list_remove s.links t (sleep_head s q) ≡ some l
    → (timer_remove s t >>= λ a. leave_sleep_queue a t (a.thread t).sleep_queue)
      ≡ some (left_queue s t timers q l)
unfolding timer_remove leave_sleep_queue sleep_remove
leaves s t timers futexes l e off gone = ground (arith, e, off, gone)
leaves s t timers multi_waiters l e off gone = ground (arith, e, off, gone)

-- The second half of `ready`: the run queue of the thread's priority, of which it is the last.
abbrev pub entering : Sched → ℕ → WakeReason → Sched
entering a t reason =
    let b = set_thread a t (record (a.thread t) { state = ready }) in
    let c = priority_map_add b (b.thread t).priority in
    set_thread c t (forget (forgets_multi_waiter reason) (c.thread t))

pub entering-IsBetween :
    (s : Sched) (t : ℕ) (members : ℕ → List ℕ) (ts : List ℕ) (a : Sched) (reason : WakeReason)
    → IsBetween s t members ts a
    → IsBetween s t members ts (entering a t reason)
entering-IsBetween s t members ts a reason b =
    let ready_one = set_thread a t (record (a.thread t) { state = ready }) in
    let p = (ready_one.thread t).priority in
    set_thread-IsBetween s t members ts (priority_map_add ready_one p) _ refl (
      priority_map_add-IsBetween s t members ts ready_one p
        (set_thread-IsBetween s t members ts a _ refl b))

-- Threads that the newcomer does not pass stay before it.
pub lowest :
    (passes : ℕ → Bool) (t : ℕ) (xs : List ℕ)
    → All (λ x. passes x ≡ false) xs
    → Upward passes xs × (place passes t xs ≡ xs ++ t ∷ [])
lowest passes t [] h = (tt, refl)
lowest passes t (x ∷ xs) h =
    let (up, last) = lowest passes t xs h.1 in
    (((λ moves. ground (arith, h.0, moves)), up), rw h.0 (ap (λ ys. x ∷ ys) last))
