-- ===== src/Sched/Thread/Ready.antt =====
-- `ready` of sdk/core/scheduler/thread.h wakes a thread that waits for a resource: it does not fault, and
-- the thread is moved from its sleep queue and the list of waiting threads to its run queue.
use cheriot_rtos.Base.{
  ℕ, zero, suc, ◌+◌, ◌≤◌, ◌≡◌, ◌≢◌, refl, sym, ap, ◌∙◌, subst, false, some, List, [], ◌∷◌, ◌++◌,
  All, All-append, length, length-append, update, update_self, update_ne, ℕ_discrete, arith,
}
use cheriot_rtos.Sched.Links.{ThreadList, list_remove}
use cheriot_rtos.Sched.Links.Chain.{IsRing}
use cheriot_rtos.Sched.Links.Remove.{list_remove_lem}
use cheriot_rtos.Sched.Links.Board.{IsOff, IsBoard, All-and, All-middle, board_remove, shrinks}
use cheriot_rtos.Sched.State.{ready, WakeReason, SleepQueue, futexes, multi_waiters, Thread, Sched}
use cheriot_rtos.Sched.Thread.{make_ready, set_thread, ◌>>=◌, timer_remove, leave_sleep_queue}
use cheriot_rtos.Sched.Links.Occurs.{
  Occurs, Occurs-middle, length-middle, remove_first, Occurs-remove_first,
}
use cheriot_rtos.Sched.Thread.Moves.{entered, make_ready_steps, entering-state}
use cheriot_rtos.Sched.Thread.Wakes.{
  heads, number, run_queue, IsBoard-heads, IsAsleep, IsBetween, sleep_head-number, left_queue,
  left_queue-IsBetween, leaves, entering, entering-IsBetween,
}

-- The lists are rings with no common thread, the threads on a run queue are ready and of its priority, the
-- threads on a sleep queue are asleep on it and on the waiting list, and they are at most `threads`.
pub record IsPlaced (threads : ℕ) (s : Sched) (members : ℕ → List ℕ) (timers : List ℕ)
    : Type 0 where
  pub board : IsBoard s.links (heads s) members
  pub waiters : IsRing s.timer_links s.waiting_list timers
  pub level : (p : ℕ) → All (λ x. (s.thread x).priority ≡ p) (members (run_queue p))
  pub awake : (p : ℕ) → All (λ x. (s.thread x).state ≡ ready) (members (run_queue p))
  pub room : (p : ℕ) → length (members (run_queue p)) + length timers ≤ threads
  pub asleep : (q : SleepQueue) → All (IsAsleep s q) (members (number q))
  pub waits : (q : SleepQueue) → All (λ x. Occurs x timers) (members (number q))

-- `t` goes from the sleep queue `q` to the end of the run queue of priority `p`.
abbrev pub moved : (ℕ → List ℕ) → SleepQueue → List ℕ → ℕ → ℕ → ℕ → List ℕ
moved members q left t p =
    update (update members (number q) left) (run_queue p) (members (run_queue p) ++ t ∷ [])

pub number_ne : (q : SleepQueue) (p : ℕ) → number q ≢ run_queue p
number_ne futexes p = omega arith
number_ne multi_waiters p = omega arith

-- The state after `ready`: the lists are as they were, but for `t`, which has moved.
pub record IsWoken (threads : ℕ) (s : Sched) (members : ℕ → List ℕ) (timers : List ℕ)
    (q : SleepQueue) (left : List ℕ) (t : ℕ) (s' : Sched) : Type 0 where
  pub placed :
      IsPlaced threads s' (moved members q left t (s.thread t).priority) (remove_first t timers)
  pub state : (s'.thread t).state ≡ ready
  pub others : (u : ℕ) → t ≢ u → s'.thread u ≡ s.thread u

-- The state with `t` on the run queue `r`.
abbrev queued : Sched → ℕ → ℕ → ThreadList → Sched
queued c t p r =
    let f : Sched = record c { links = r.links; priority_list = update c.priority_list p r.head } in
    set_thread f t (record (f.thread t) { is_yielding = false })

module _ (threads : ℕ) (s : Sched) (members : ℕ → List ℕ) (timers : List ℕ)
    (placed : IsPlaced threads s members timers) (q : SleepQueue) (pre post : List ℕ) (t : ℕ)
    (e : members (number q) ≡ pre ++ t ∷ post) (reason : WakeReason) where
  abbrev taken : ℕ → List ℕ
  taken = update members (number q) (pre ++ post)

  asleep_here : IsAsleep s q t
  asleep_here =
      (All-middle (IsAsleep s q) pre post t (subst (All (IsAsleep s q)) e (placed.asleep q))).0

  waits_here : Occurs t timers
  waits_here =
      (All-middle (λ x. Occurs x timers) pre post t
        (subst (All (λ x. Occurs x timers)) e (placed.waits q))).0

  -- Off both lists.
  left_both :
      (front rear : List ℕ) × (timers ≡ front ++ t ∷ rear)
      × (front ++ rear ≡ remove_first t timers)
      × (b : ThreadList) × (l : ThreadList) × ((timer_remove s t >>= λ a.
            leave_sleep_queue a t (a.thread t).sleep_queue)
          ≡ some (left_queue s t b q l))
      × IsBetween s t taken (front ++ rear) (left_queue s t b q l)
  left_both =
      let (front, rear, split, kept) = Occurs-remove_first t timers waits_here in
      let (b, done, removed) =
        list_remove_lem s.timer_links t s.waiting_list front rear
          (subst (IsRing s.timer_links s.waiting_list) split placed.waiters) in
      let (l, gone, board, off) =
        board_remove s.links (heads s) members placed.board (number q) t pre post e in
      (
        front,
        rear,
        split,
        kept,
        b,
        l,
        leaves s t b q l asleep_here.1 done
            (ap (list_remove s.links t) (sleep_head-number s q) ∙ gone),
        left_queue-IsBetween s t b q l taken (front ++ rear) board off removed.ring,
      )

  abbrev after : ℕ → List ℕ
  after = moved members q (pre ++ post) t (s.thread t).priority

  taken_same : (p : ℕ) → taken (run_queue p) ≡ members (run_queue p)
  taken_same p = update_ne members (number q) (run_queue p) (pre ++ post) (number_ne q p)

  -- What holds of the threads on a list goes on to hold of those that stay on it.
  carried :
      (off : (p : ℕ) → IsOff t (taken p)) (P Q : ℕ → Type 0) (w : ℕ)
      → ((x : ℕ) → t ≢ x → P x → Q x)
      → All P (members w)
      → All Q (taken w)
  carried off P Q w f h =
      All-and P (λ x. t ≢ x) Q (taken w) (λ x k n. f x n k)
        (shrinks s.links (heads s) members placed.board (number q) t pre post e P w h) (off w)

  joins :
      (Q : ℕ → Type 0) (w : ℕ)
      → (run_queue (s.thread t).priority ≡ w → Q t)
      → All Q (taken w)
      → All Q (after w)
  joins Q w new h = elim (ℕ_discrete (run_queue (s.thread t).priority) w) [
    | yes same ↦
        let p = (s.thread t).priority in
        subst (λ k. All Q (after k)) same
          (subst (All Q) (sym (update_self taken (run_queue p) (members (run_queue p) ++ t ∷ []))) (
            All-append Q (members (run_queue p)) (t ∷ [])
              (subst (All Q) (taken_same p) (subst (λ k. All Q (taken k)) (sym same) h))
              (new same, tt)))
    | no n ↦ subst (All Q) (sym (update_ne taken (run_queue (s.thread t).priority) w _ n)) h
  ]

  joins_none :
      (Q : ℕ → Type 0) (q' : SleepQueue) → All Q (taken (number q')) → All Q (after (number q'))
  joins_none Q q' h =
      subst (All Q)
        (sym (
          update_ne taken (run_queue (s.thread t).priority) (number q') _
            (λ k. number_ne q' (s.thread t).priority (sym k))))
        h

  after-room :
      (ts : List ℕ)
      → length timers ≡ length ts + 1
      → (p : ℕ) → length (after (run_queue p)) + length ts ≤ threads
  after-room ts one p = elim (ℕ_discrete (s.thread t).priority p) [
    | yes same ↦
        let p' = (s.thread t).priority in
        subst (λ k. length (after (run_queue k)) + length ts ≤ threads) same
          (omega (
            arith,
            ap (λ (ys : List ℕ). length ys)
                (update_self taken (run_queue p') (members (run_queue p') ++ t ∷ [])),
            length-append (members (run_queue p')) (t ∷ []),
            placed.room p',
            one,
          ))
    | no n ↦ omega (
      arith,
      ap (λ (ys : List ℕ). length ys)
          (update_ne taken (run_queue (s.thread t).priority) (run_queue p)
            (members (run_queue (s.thread t).priority) ++ t ∷ []) (λ k. n (omega arith))),
      ap (λ (ys : List ℕ). length ys) (taken_same p),
      placed.room p,
      one,
    )
  ]

  module _ (ts : List ℕ) (c : Sched) (r : ThreadList) (one : length timers ≡ length ts + 1)
      (stays : (x : ℕ) → t ≢ x → Occurs x timers → Occurs x ts) (b : IsBetween s t taken ts c)
      (awake : (c.thread t).state ≡ ready)
      (board : IsBoard r.links (update (heads c) (run_queue (s.thread t).priority) r.head) (
        update taken
          (run_queue (s.thread t).priority)
          (taken (run_queue (s.thread t).priority) ++ t ∷ []))) where
    abbrev end_state : Sched
    end_state = queued c t (s.thread t).priority r

    same_thread_end : (u : ℕ) → t ≢ u → end_state.thread u ≡ s.thread u
    same_thread_end u n = update_ne c.thread t u _ n ∙ b.thread u n

    same_heads :
        (w : ℕ) → update (heads c) (run_queue (s.thread t).priority) r.head w ≡ heads end_state w
    same_heads zero = update_ne (heads c) (run_queue (s.thread t).priority) 0 r.head (omega arith)
    same_heads (suc zero) =
        update_ne (heads c) (run_queue (s.thread t).priority) 1 r.head (omega arith)
    same_heads (suc (suc p)) = ground arith

    -- All steps of `ready` end in a state of the invariant.
    ended :
        ts ≡ remove_first t timers → IsWoken threads s members timers q (pre ++ post) t end_state
    ended kept = record {
      placed = subst (IsPlaced threads end_state after) kept (record {
        board =
            subst
              (λ ys.
                IsBoard r.links (heads end_state)
                  (update taken (run_queue (s.thread t).priority) (ys ++ t ∷ [])))
              (taken_same (s.thread t).priority)
              (IsBoard-heads r.links _ (heads end_state) _ same_heads board);
        waiters = b.waiters;
        level = λ p.
            joins (λ x. (end_state.thread x).priority ≡ p) (run_queue p)
              (λ same.
                ap (λ (th : Thread). th.priority) (update_self c.thread t _)
                ∙ b.priority
                ∙ omega (arith, same))
              (carried b.off (λ x. (s.thread x).priority ≡ p) _ (run_queue p)
                (λ x n h. ap (λ (th : Thread). th.priority) (same_thread_end x n) ∙ h)
                (placed.level p));
        awake = λ p.
            joins (λ x. (end_state.thread x).state ≡ ready) (run_queue p)
              (λ same. ap (λ (th : Thread). th.state) (update_self c.thread t _) ∙ awake)
              (carried b.off (λ x. (s.thread x).state ≡ ready) _ (run_queue p)
                (λ x n h. ap (λ (th : Thread). th.state) (same_thread_end x n) ∙ h)
                (placed.awake p));
        room = after-room ts one;
        asleep = λ q'. joins_none (IsAsleep end_state q') q' (
            carried b.off (IsAsleep s q') _ (number q')
              (λ x n h. (
                ap (λ (th : Thread). th.state) (same_thread_end x n) ∙ h.0,
                ap (λ (th : Thread). th.sleep_queue) (same_thread_end x n) ∙ h.1,
              ))
              (placed.asleep q'));
        waits = λ q'.
            joins_none (λ x. Occurs x ts) q'
              (carried b.off (λ x. Occurs x timers) _ (number q') stays (placed.waits q'));
      });
      state = ap (λ (th : Thread). th.state) (update_self c.thread t _) ∙ awake;
      others = same_thread_end;
    }

  -- Let the run queues, the sleep queues and the list of waiting threads be rings, with ready threads of
  -- its priority on each run queue and, on each sleep queue, threads that sleep there and wait. Then waking
  -- a thread of a sleep queue does not fault, whatever the reason: the thread is off that queue and off
  -- the list of waiting threads, at the end of the run queue of its priority, and ready. All other threads
  -- are unchanged and on the same lists in the same order, and the lists are again such rings.
  pub make_ready_lem :
      (s' : Sched) × (make_ready threads s t reason ≡ some s')
      × IsWoken threads s members timers q (pre ++ post) t s'
  make_ready_lem =
      let (front, rear, split, kept, b, l, left, between) = left_both in
      let p = (s.thread t).priority in
      let a = left_queue s t b q l in
      let c = entering a t reason in
      let ready_one = entering-IsBetween s t taken (front ++ rear) a reason between in
      let fits : length (members (run_queue p)) ≤ threads = omega (arith, placed.room p) in
      let (r, inserted, board) =
        entered threads s t p taken (front ++ rear) c ready_one refl
          (subst (All (λ x. (s.thread x).priority ≡ p)) (sym (taken_same p)) (placed.level p))
          (subst (λ (ys : List ℕ). length ys ≤ threads) (sym (taken_same p)) fits) in
      (
        queued c t p r,
        make_ready_steps threads s t p reason a _ asleep_here.0 left
            (ap (λ (th : Thread). th.priority) (update_self a.thread t _) ∙ between.priority)
            inserted,
        ended (front ++ rear) c r
            (ap (λ (ys : List ℕ). length ys) split ∙ length-middle front rear t)
            (λ x n occurs. Occurs-middle x t front rear n (subst (Occurs x) split occurs)) ready_one
            (entering-state a t reason) board kept,
      )
