-- ===== src/Sched/Thread/Schedule.antt =====
-- Which thread `schedule` of sdk/core/scheduler/thread.h runs next.
use cheriot_rtos.Base.{
  ℕ, zero, suc, ◌≤◌, ◌<◌, ◌≡◌, inl, inr, refl, sym, ap, ◌∙◌, subst, true, Bool-cases, Option, none,
  some, List, [], ◌∷◌, ◌++◌, All, length, length-append, update, update_self, update_ne, ℕ_discrete,
  arith, ◌==◌, ==-refl, if◌then◌else◌,
}
use cheriot_rtos.Sched.Links.Chain.{IsRing}
use cheriot_rtos.Sched.State.{ready, Thread, Sched}
use cheriot_rtos.Sched.Thread.{
  put_back, rotate, dispatch, schedule, set_thread, in_state, note_start, same_thread,
}
use cheriot_rtos.Sched.Thread.Priorities.{IsConsistent, is_some}
use cheriot_rtos.Sched.Thread.Wakes.{heads, run_queue}
use cheriot_rtos.Sched.Thread.Ready.{IsPlaced}
use cheriot_rtos.Sched.Thread.RoundRobin.{
  turned, after_turn, length-after_turn, after_turn-IsPlaced,
}

-- A change of a thread that a view of it does not see.
unseen :
    {A : Type 0} (v : Thread → A) (f : ℕ → Thread) (t : ℕ) (th : Thread)
    → v th ≡ v (f t)
    → (x : ℕ) → v (update f t th x) ≡ v (f x)
unseen v f t th e x = elim (ℕ_discrete t x) [
  | yes same ↦ subst (λ k. v (update f t th k) ≡ v (f k)) same (ap v (update_self f t th) ∙ e)
  | no n ↦ ap v (update_ne f t x th n)
]

note_start_unseen :
    {A : Type 0} (v : Thread → A) (previous : Option ℕ) (now t : ℕ) (th : Thread)
    → v (record th { expiry_time = now }) ≡ v th
    → v (note_start previous now t th) ≡ v th
note_start_unseen v previous now t th e = elim (Bool-cases (same_thread t previous)) [
  | inl again ↦ ap (λ b. v (if b then th else record th { expiry_time = now })) again
  | inr fresh ↦ ap (λ b. v (if b then th else record th { expiry_time = now })) fresh ∙ e
]

-- The state between the halves of `schedule`, and the one after it.
abbrev waiting_turn : Sched → ℕ → ℕ → Sched
waiting_turn s t tstack =
    let s₁ : Sched = record s {
      priority_list = update s.priority_list (s.thread t).priority (s.links.next t);
    } in
    set_thread s₁ t (record (s₁.thread t) { t_stack_ptr = tstack })

put_back_ready :
    (s : Sched) (t tstack : ℕ)
    → (s.thread t).state ≡ ready
    → put_back s (some t) tstack ≡ waiting_turn s t tstack
unfolding put_back rotate
put_back_ready s t tstack e =
    let turn : Sched = record s {
      priority_list = update s.priority_list (s.thread t).priority (s.links.next t);
    } in
    ap
      (λ st.
        let a = if in_state st ready then turn else s in
        set_thread a t (record (a.thread t) { t_stack_ptr = tstack }))
      e

abbrev running : Sched → ℕ → ℕ → ℕ → ℕ → Sched
running s t tstack now u =
    let s₁ = waiting_turn s t tstack in
    set_thread (record s₁ { current = some u }) u (note_start (some t) now u (s₁.thread u))

running_unseen :
    {A : Type 0} (v : Thread → A) (s : Sched) (t tstack now u : ℕ)
    → ((th : Thread) → v (record th { expiry_time = now }) ≡ v th)
    → ((th : Thread) → v (record th { t_stack_ptr = tstack }) ≡ v th)
    → (x : ℕ) → v ((running s t tstack now u).thread x) ≡ v (s.thread x)
running_unseen v s t tstack now u time stack x =
    let s₁ = waiting_turn s t tstack in
    unseen v s₁.thread u _ (note_start_unseen v (some t) now u (s₁.thread u) (time (s₁.thread u))) x
    ∙ unseen v s.thread t _ (stack (s.thread t)) x

nonempty : (xs : List ℕ) → 0 < length xs → (y : ℕ) × (ys : List ℕ) × (xs ≡ y ∷ ys)
nonempty [] h = absurd (omega (arith, h))
nonempty (y ∷ ys) h = (y, ys, refl)

ring-some :
    (s : Sched) (h : Option ℕ) (xs : List ℕ)
    → IsRing s.links h xs
    → is_some h ≡ true
    → 0 < length xs
ring-some s h [] ring e = ground (arith, ring, e)
ring-some s h (x ∷ xs) ring e = omega arith

pub some-ring :
    (s : Sched) (h : Option ℕ) (xs : List ℕ)
    → IsRing s.links h xs
    → 0 < length xs
    → is_some h ≡ true
some-ring s h [] ring e = absurd (omega (arith, e))
some-ring s h (x ∷ xs) ring e = ap (λ o. is_some o) ring.0

-- `u` runs next, after `t`.
pub record IsScheduled (threads : ℕ) (s : Sched) (members : ℕ → List ℕ) (timers : List ℕ)
    (t tstack : ℕ) (after : ℕ → List ℕ) (s' : Sched) (stack : ℕ) : Type 0 where
  pub u : ℕ
  pub rest : List ℕ
  pub runs : s'.current ≡ some u
  pub turn : after (run_queue (s.thread u).priority) ≡ u ∷ rest
  pub highest : (q : ℕ) → 0 < length (members (run_queue q)) → q ≤ (s.thread u).priority
  pub context : stack ≡ (s'.thread u).t_stack_ptr
  pub saved : (s'.thread t).t_stack_ptr ≡ tstack
  pub placed : IsPlaced threads s' after timers

module _ (threads : ℕ) (s : Sched) (members : ℕ → List ℕ) (timers : List ℕ)
    (placed : IsPlaced threads s members timers) (consistent : IsConsistent s) (t : ℕ)
    (pre post : List ℕ) (e : members (run_queue (s.thread t).priority) ≡ pre ++ t ∷ post) where
  abbrev after : ℕ → List ℕ
  after = after_turn threads s members timers placed t (s.thread t).priority pre post e

  has_thread : (q : ℕ) → 0 < length (members (run_queue q)) → s.priority_map q ≡ true
  has_thread q h =
      consistent.0.bit q ∙ some-ring s (s.priority_list q) _ (placed.board.ring (run_queue q)) h

  here : 0 < length (members (run_queue (s.thread t).priority))
  here = omega (arith, ap (λ (ys : List ℕ). length ys) e, length-append pre (t ∷ post))

  top_has_thread : 0 < length (members (run_queue s.highest_priority))
  top_has_thread = elim (consistent.0.top) [
    | inl none_up ↦
        let le = consistent.0.bound (s.thread t).priority (has_thread (s.thread t).priority here) in
        let same : (s.thread t).priority ≡ s.highest_priority = omega (arith, le, none_up) in
        subst (λ q. 0 < length (members (run_queue q))) same here
    | inr set ↦
        ring-some s (s.priority_list s.highest_priority) _
          (placed.board.ring (run_queue s.highest_priority))
          (sym (consistent.0.bit s.highest_priority) ∙ set)
  ]

  running-IsPlaced : (tstack now u : ℕ) → IsPlaced threads (running s t tstack now u) after timers
  running-IsPlaced tstack now u =
      after_turn-IsPlaced threads s members timers placed t (s.thread t).priority pre post e
        (running s t tstack now u) refl refl refl same
        (λ x. (
          running_unseen (λ (th : Thread). th.priority) s t tstack now u (λ th. refl) (λ th. refl)
              x,
          running_unseen (λ (th : Thread). th.state) s t tstack now u (λ th. refl) (λ th. refl) x,
          running_unseen (λ (th : Thread). th.sleep_queue) s t tstack now u (λ th. refl)
              (λ th. refl) x,
        ))
    where
      same :
          (w : ℕ)
          → update (heads s) (run_queue (s.thread t).priority) (s.links.next t) w
            ≡ heads (running s t tstack now u) w
      same zero =
          update_ne (heads s) (run_queue (s.thread t).priority) 0 (s.links.next t) (omega arith)
      same (suc zero) =
          update_ne (heads s) (run_queue (s.thread t).priority) 1 (s.links.next t) (omega arith)
      same (suc (suc q)) = ground arith

dispatch-some :
    (a : Sched) (previous head : Option ℕ) (now u : ℕ)
    → head ≡ some u
    → (a.thread u).priority ≡ a.highest_priority
    → dispatch a previous now head
      ≡ some (
        set_thread (record a { current = some u }) u (note_start previous now u (a.thread u)),
        (a.thread u).t_stack_ptr,
      )
unfolding dispatch
dispatch-some a previous head now u e top =
    ap (dispatch a previous now) e
    ∙ ap
        (λ b.
          if b
          then some (
            set_thread (record a { current = some u }) u (note_start previous now u (a.thread u)),
            (a.thread u).t_stack_ptr,
          )
          else none)
        (ap (λ k. a.highest_priority == k) top ∙ ==-refl a.highest_priority)

-- In a state in which every thread is on the lists that its state says and the highest priority and the
-- bits agree with the run queues, a running thread that is ready gives way without a fault. The thread
-- that runs next has the highest priority of all that are ready, and is the first of its run queue, in
-- which the one that gave way has gone behind all others of its priority. The context to run is the one
-- that is saved for it, and the context of the thread that gave way is saved. The lists stay as they are
-- otherwise.
pub schedule_lem :
    (threads : ℕ) (s : Sched) (members : ℕ → List ℕ) (timers : List ℕ) (t tstack now : ℕ)
    (pre post : List ℕ)
    → IsPlaced threads s members timers
    → IsConsistent s
    → s.current ≡ some t
    → (s.thread t).state ≡ ready
    → members (run_queue (s.thread t).priority) ≡ pre ++ t ∷ post
    → (s' : Sched) × (stack : ℕ) × (schedule s tstack now ≡ some (s', stack))
      × IsScheduled threads s members timers t tstack
          (update members (run_queue (s.thread t).priority) (turned pre t post))
          s'
          stack
unfolding schedule
schedule_lem threads s members timers t tstack now pre post placed consistent cur awake e =
    let after = after threads s members timers placed consistent t pre post e in
    let top = s.highest_priority in
    let (u, rest, first) = nonempty (after (run_queue top)) (
      omega (
        arith,
        length-after_turn threads s members timers placed t (s.thread t).priority pre post e
            (run_queue top),
        top_has_thread threads s members timers placed consistent t pre post e,
      )) in
    let end = running s t tstack now u in
    let end_placed =
      running-IsPlaced threads s members timers placed consistent t pre post e tstack now u in
    let end_level : (end.thread u).priority ≡ top =
      (subst (All (λ x. (end.thread x).priority ≡ top)) first (end_placed.level top)).0 in
    let own : (s.thread u).priority ≡ top =
      sym
        (running_unseen (λ (th : Thread). th.priority) s t tstack now u (λ th. refl) (λ th. refl) u)
      ∙ end_level in
    let a = waiting_turn s t tstack in
    let head : a.priority_list top ≡ some u =
      (subst (IsRing end.links (heads end (run_queue top))) first
        (end_placed.board.ring (run_queue top))).0 in
    let kept =
      note_start_unseen (λ (th : Thread). th.t_stack_ptr) (some t) now u (a.thread u) refl in
    (
      end,
      (a.thread u).t_stack_ptr,
      ap (λ c. let b = put_back s c tstack in dispatch b c now (b.priority_list b.highest_priority))
            cur
          ∙ ap (λ b. dispatch b (some t) now (b.priority_list b.highest_priority))
              (put_back_ready s t tstack awake)
          ∙ dispatch-some a (some t) _ now u head
              (unseen (λ (th : Thread). th.priority) s.thread t _ refl u ∙ own),
      record {
        u = u;
        rest = rest;
        runs = refl;
        turn = subst (λ q. after (run_queue q) ≡ u ∷ rest) (sym own) first;
        highest = λ q some_up.
            subst (λ k. q ≤ k) (sym own)
              (consistent.0.bound q
                (has_thread threads s members timers placed consistent t pre post e q some_up));
        context = sym (ap (λ (th : Thread). th.t_stack_ptr) (update_self a.thread u _) ∙ kept);
        saved =
            unseen (λ (th : Thread). th.t_stack_ptr) a.thread u _ kept t
            ∙ ap (λ (th : Thread). th.t_stack_ptr) (update_self s.thread t _);
        placed = end_placed;
      },
    )
