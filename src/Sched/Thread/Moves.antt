-- ===== src/Sched/Thread/Moves.antt =====
-- The steps of `ready` of sdk/core/scheduler/thread.h, put together.
use cheriot_rtos.Base.{
  ℕ, ◌≤◌, ◌≡◌, ◌≢◌, refl, ap, ◌∙◌, subst, false, Option, none, some, List, [], ◌∷◌, ◌++◌, All,
  length, update, update_self, arith,
}
use cheriot_rtos.Sched.Links.{ThreadList, list_insert}
use cheriot_rtos.Sched.Links.Board.{IsBoard, All-and, board_insert}
use cheriot_rtos.Sched.State.{ready, suspended, WakeReason, Thread, Sched}
use cheriot_rtos.Sched.Thread.{
  priority_map_add, make_ready, ready_insert, outranks, set_thread, ◌>>=◌, timer_remove,
  leave_sleep_queue, assert, in_state,
}
use cheriot_rtos.Sched.Thread.Wakes.{heads, run_queue, IsBetween, entering, lowest}

ready_insert_lem :
    (threads : ℕ) (e : Sched) (t p : ℕ) (r : ThreadList)
    → list_insert threads (outranks e t) e.links t (e.priority_list p) ≡ some r
    → ready_insert threads e t p
      ≡ some (record e { links = r.links; priority_list = update e.priority_list p r.head })
unfolding ready_insert
ready_insert_lem threads e t p r done = rw done refl

-- The insertion into the run queue, for a thread that is on no list.
pub entered :
    (threads : ℕ) (s : Sched) (t p : ℕ) (members : ℕ → List ℕ) (ts : List ℕ) (e : Sched)
    → IsBetween s t members ts e
    → (s.thread t).priority ≡ p
    → All (λ x. (s.thread x).priority ≡ p) (members (run_queue p))
    → length (members (run_queue p)) ≤ threads
    → (r : ThreadList) × (ready_insert threads e t p
        ≡ some (record e { links = r.links; priority_list = update e.priority_list p r.head }))
      × IsBoard r.links
          (update (heads e) (run_queue p) r.head)
          (update members (run_queue p) (members (run_queue p) ++ t ∷ []))
entered threads s t p members ts e b own level enough =
    let queue = members (run_queue p) in
    let passed : All (λ x. outranks e t x ≡ false) queue =
      All-and (λ x. (s.thread x).priority ≡ p) (λ x. t ≢ x) _ queue
        (λ x lv n.
          ground (arith, ap (λ (th : Thread). th.priority) (b.thread x n), lv, own, b.priority))
        level (b.off (run_queue p)) in
    let (up, last) = lowest (outranks e t) t queue passed in
    let (r, done, board) =
      board_insert e.links (heads e) members b.board (run_queue p) t threads (outranks e t) b.off up
        enough in
    (
      r,
      ready_insert_lem threads e t p r done,
      subst
          (λ ys.
            IsBoard r.links (update (heads e) (run_queue p) r.head)
              (update members (run_queue p) ys))
          last board,
    )

bind_assoc :
    {A B C : Type 0} (m : Option A) (f : A → Option B) (g : B → Option C)
    → (m >>= λ a. f a >>= g) ≡ (m >>= f >>= g)
bind_assoc none f g = refl
bind_assoc (some a) f g = refl

pub bind_some :
    {A B : Type 0} (m : Option A) (a : A) (f : A → Option B) → m ≡ some a → (m >>= f) ≡ f a
bind_some m a f h = ap (λ o. o >>= f) h

-- The steps of `ready`, one after the other.
pub make_ready_steps :
    (threads : ℕ) (s : Sched) (t p : ℕ) (reason : WakeReason) (a f : Sched)
    → (s.thread t).state ≡ suspended
    → (timer_remove s t >>= λ b. leave_sleep_queue b t (b.thread t).sleep_queue) ≡ some a
    → ((set_thread a t (record (a.thread t) { state = ready })).thread t).priority ≡ p
    → ready_insert threads (entering a t reason) t p ≡ some f
    → make_ready threads s t reason
      ≡ some (set_thread f t (record (f.thread t) { is_yielding = false }))
unfolding make_ready
make_ready_steps threads s t p reason a f asleep left own inserted =
    let finish =
      λ (g : Sched). some (set_thread g t (record (g.thread t) { is_yielding = false })) in
    let rest = λ (b : Sched).
      ready_insert threads (entering b t reason) t
        ((set_thread b t (record (b.thread t) { state = ready })).thread t).priority
      >>= finish in
    ap
      (λ st. assert (in_state st suspended) >>= λ u.
        timer_remove s t >>= λ b. leave_sleep_queue b t (b.thread t).sleep_queue >>= rest)
      asleep
    ∙ bind_assoc (timer_remove s t) (λ b. leave_sleep_queue b t (b.thread t).sleep_queue) rest
    ∙ bind_some _ a rest left
    ∙ ap (λ k. ready_insert threads (entering a t reason) t k >>= finish) own
    ∙ bind_some _ f finish inserted

priority_map_add-thread : (s : Sched) (p : ℕ) → (priority_map_add s p).thread ≡ s.thread
unfolding priority_map_add
priority_map_add-thread s p = ground arith

pub entering-state :
    (a : Sched) (t : ℕ) (reason : WakeReason) → ((entering a t reason).thread t).state ≡ ready
entering-state a t reason =
    let b = set_thread a t (record (a.thread t) { state = ready }) in
    let c = priority_map_add b (b.thread t).priority in
    ap (λ (th : Thread). th.state) (update_self c.thread t _)
    ∙ ap (λ f. (f t).state) (priority_map_add-thread b (b.thread t).priority)
    ∙ ap (λ (th : Thread). th.state) (update_self a.thread t _)
