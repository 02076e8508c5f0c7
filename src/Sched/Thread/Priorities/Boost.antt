-- ===== src/Sched/Thread/Priorities/Boost.antt =====
-- `priority_boost`, `exit` and `schedule` of sdk/core/scheduler/thread.h keep the highest ready priority
-- right.
use cheriot_rtos.Base.{
  ℕ, ◌<◌, ◌≤◌, ◌≡◌, ◌≢◌, ◌⊎◌, refl, sym, ap, subst, ◌∙◌, Bool, true, false, Option, none, some,
  arith, update, update_ne, update_self, ◌==◌, ==→ne, inl, inr, ℕ_discrete, if◌then◌else◌, max,
}
use cheriot_rtos.Sched.Links.{ThreadList, list_insert, list_remove}
use cheriot_rtos.Sched.State.{ready, exited, Sched}
use cheriot_rtos.Sched.Thread.{
  ready_insert, ready_remove, leave_for_boost, rejoin_for_boost, priority_map_remove, set_thread,
  in_state, move_ready, priority_boost, exit, rotate, put_back, dispatch, schedule, outranks,
  same_thread, note_start,
}
use cheriot_rtos.Sched.Thread.Priorities.{is_some, Agrees, AgreesBut, IsConsistent, Loosened}
use cheriot_rtos.Sched.Thread.Priorities.Bits.{priority_map_remove-IsConsistent}
use cheriot_rtos.Sched.Thread.Priorities.Parts.{
  Ensures, Ensures-bind, Ensures-some, Ensures-self, Ensures-if, kept, with_thread,
  leave_for_boost-Keeps, rejoin_for_boost-Keeps, ready_remove-Loosened, list_insert-head,
}

ready_remove-highest :
    (s : Sched) (t q : ℕ)
    → Ensures (λ s'. s'.highest_priority ≡ s.highest_priority) (ready_remove s t q)
unfolding ready_remove
ready_remove-highest s t q =
    Ensures-bind (λ (s' : Sched). s'.highest_priority ≡ s.highest_priority)
      (list_remove s.links t (s.priority_list q))
      (λ (r : ThreadList).
        some (record s { links = r.links; priority_list = update s.priority_list q r.head }))
      (λ r e. refl)

-- One run queue is being changed, and a thread joins another one, not above the highest.
filled_other :
    (lists : ℕ → Option ℕ) (bits : ℕ → Bool) (highest p q : ℕ) (h : Option ℕ)
    → is_some h ≡ true
    → p ≢ q
    → q < 32
    → q ≤ highest
    → AgreesBut p lists bits highest
    → AgreesBut p (update lists q h) (update bits q true) highest
filled_other lists bits highest p q h full n small le a = record {
  bit = λ r m. elim (ℕ_discrete q r) [
    | yes same ↦
        subst (λ r. update bits q true r ≡ is_some (update lists q h r)) same
          (update_self bits q true ∙ sym (ap (λ o. is_some o) (update_self lists q h) ∙ full))
    | no other ↦
        update_ne bits q r true other
        ∙ a.bit r m
        ∙ sym (ap (λ o. is_some o) (update_ne lists q r h other))
  ];
  here = λ f.
      update_ne bits q p true (λ e. n (sym e))
      ∙ a.here (sym (ap (λ o. is_some o) (update_ne lists q p h (λ e. n (sym e)))) ∙ f);
  width = λ r ge. ground (arith, a.width r ge);
  bound = λ r e. ground (arith, a.bound r);
  top = top_or a.top;
}
  where
    top_or :
        (highest ≡ 0) ⊎ (bits highest ≡ true) → (highest ≡ 0) ⊎ (update bits q true highest ≡ true)
    top_or (inl z) = inl z
    top_or (inr set) = inr (ground arith)

abbrev with_bit : ℕ → Sched → Sched
with_bit q s = record s { priority_map = update s.priority_map q true }

ready_insert-Loosened :
    (threads : ℕ) (s : Sched) (t p q : ℕ)
    → p ≢ q
    → q < 32
    → q ≤ s.highest_priority
    → Loosened p s
    → Ensures (λ s'. Loosened p (with_bit q s')) (ready_insert threads s t q)
unfolding ready_insert
ready_insert-Loosened threads s t p q n fits le (a, small) =
    Ensures-bind (λ (s' : Sched). Loosened p (with_bit q s'))
      (list_insert threads (outranks s t) s.links t (s.priority_list q))
      (λ (r : ThreadList).
        some (record s { links = r.links; priority_list = update s.priority_list q r.head }))
      (λ r e. (
        filled_other s.priority_list s.priority_map s.highest_priority p q r.head
            (Ensures-some (λ r. is_some r.head ≡ true) _ r
              (list_insert-head threads (outranks s t) s.links t (s.priority_list q)) e)
            n fits le a,
        small,
      ))

move_ready-Ensures :
    (threads : ℕ) (s : Sched) (t q : ℕ)
    → (s.thread t).priority ≢ q
    → q < 32
    → q ≤ s.highest_priority
    → IsConsistent s
    → Ensures IsConsistent (move_ready threads s t q)
unfolding move_ready
move_ready-Ensures threads s t q n fits le a =
    let p = (s.thread t).priority in
    Ensures-bind IsConsistent (ready_remove s t p) _ (λ s₁ e₁.
      let l₁ = Ensures-some (Loosened p) _ s₁ (ready_remove-Loosened s t p a) e₁ in
      let h₁ =
        Ensures-some (λ s'. s'.highest_priority ≡ s.highest_priority) _ s₁
          (ready_remove-highest s t p) e₁ in
      Ensures-bind IsConsistent (ready_insert threads s₁ t q) _ (λ s₂ e₂.
        priority_map_remove-IsConsistent (with_bit q s₂) p (
          Ensures-some (λ s'. Loosened p (with_bit q s')) _ s₂
            (ready_insert-Loosened threads s₁ t p q n fits (omega arith) l₁) e₂)))

pub priority_boost-Ensures :
    (threads : ℕ) (s : Sched) (t requested : ℕ)
    → let q = max requested (s.thread t).original_priority in
      q < 32
      → (in_state (s.thread t).state ready ≡ true → q ≤ s.highest_priority)
      → IsConsistent s
      → Ensures IsConsistent (priority_boost threads s t requested)
unfolding priority_boost
priority_boost-Ensures threads s t requested fits le a =
    let q = max requested (s.thread t).original_priority in
    Ensures-if IsConsistent (q == (s.thread t).priority) _ _ (λ same. a)
      (λ other.
        Ensures-bind IsConsistent
          (if in_state (s.thread t).state ready then move_ready threads s t q else some s) _
          (λ s₁ e₁.
            let a₁ =
              Ensures-some IsConsistent _ s₁
                (Ensures-if IsConsistent (in_state (s.thread t).state ready) _ _
                  (λ runs.
                    move_ready-Ensures threads s t q
                      (λ e. ==→ne q (s.thread t).priority other (sym e)) fits (le runs) a)
                  (λ rests. a))
                e₁ in
            Ensures-bind IsConsistent (leave_for_boost s₁ t (s₁.thread t).sleep_queue) _ (λ s₂ e₂.
              let a₂ = kept s₁ _ s₂ a₁ (leave_for_boost-Keeps threads s₁ t _) e₂ in
              let s₃ = set_thread s₂ t (record (s₂.thread t) { priority = q }) in
              let a₃ : IsConsistent s₃ = with_thread s₂ t _ fits a₂ in
              Ensures-self IsConsistent (rejoin_for_boost threads s₃ t (s₃.thread t).sleep_queue)
                (λ s₄ e₄. kept s₃ _ s₄ a₃ (rejoin_for_boost-Keeps threads s₃ t _) e₄))))

pub exit-Ensures :
    (s : Sched) → IsConsistent s → Ensures (λ (r : Sched × Bool). IsConsistent r.0) (exit s)
unfolding exit
exit-Ensures s a =
    Ensures-bind (λ (r : Sched × Bool). IsConsistent r.0) s.current _
      (λ t e.
        let p = (s.thread t).priority in
        Ensures-bind (λ (r : Sched × Bool). IsConsistent r.0) (ready_remove s t p) _
          (λ s₁ e₁.
            let l₁ = Ensures-some (Loosened p) _ s₁ (ready_remove-Loosened s t p a) e₁ in
            let s₂ = priority_map_remove s₁ p in
            let a₂ : IsConsistent s₂ = priority_map_remove-IsConsistent s₁ p l₁ in
            with_thread s₂ t (record (s₂.thread t) { state = exited }) (a₂.1 t) a₂))

-- The running thread, if it is ready, stands on a run queue with its successor.
abbrev pub IsQueued : Sched → Option ℕ → Type 0
IsQueued s none = Unit
IsQueued s (some t) =
    in_state (s.thread t).state ready ≡ true
    → is_some (s.links.next t) ≡ is_some (s.priority_list (s.thread t).priority)

rotated-Agrees :
    (lists : ℕ → Option ℕ) (bits : ℕ → Bool) (highest q : ℕ) (h : Option ℕ)
    → is_some h ≡ is_some (lists q)
    → Agrees lists bits highest
    → Agrees (update lists q h) bits highest
rotated-Agrees lists bits highest q h e a = record {
  bit = λ p. elim (ℕ_discrete q p) [
    | yes same ↦
        subst (λ p. bits p ≡ is_some (update lists q h p)) same
          (a.bit q ∙ sym (ap (λ o. is_some o) (update_self lists q h) ∙ e))
    | no n ↦ a.bit p ∙ sym (ap (λ o. is_some o) (update_ne lists q p h n))
  ];
  width = a.width;
  bound = a.bound;
  top = a.top;
}

rotate-IsConsistent :
    (s : Sched) (t : ℕ) → IsQueued s (some t) → IsConsistent s → IsConsistent (rotate s t)
unfolding rotate
rotate-IsConsistent s t h a = turned (in_state (s.thread t).state ready) h
  where
    turned :
        (b : Bool)
        → (b ≡ true → is_some (s.links.next t) ≡ is_some (s.priority_list (s.thread t).priority))
        → IsConsistent (
            if b
            then record s {
              priority_list = update s.priority_list (s.thread t).priority (s.links.next t);
            }
            else s)
    turned true k = (rotated-Agrees _ _ _ (s.thread t).priority _ (k refl) a.0, a.1)
    turned false k = a

put_back-IsConsistent :
    (s : Sched) (o : Option ℕ) (tstack : ℕ)
    → IsQueued s o
    → IsConsistent s
    → IsConsistent (put_back s o tstack)
unfolding put_back
put_back-IsConsistent s none tstack h a = a
put_back-IsConsistent s (some t) tstack h a =
    let turned = rotate-IsConsistent s t h a in with_thread (rotate s t) t _ (turned.1 t) turned

dispatch-Ensures :
    (s : Sched) (previous : Option ℕ) (now : ℕ) (chosen : Option ℕ)
    → IsConsistent s
    → Ensures (λ (r : Sched × ℕ). IsConsistent r.0) (dispatch s previous now chosen)
unfolding dispatch
dispatch-Ensures s previous now none a = a
dispatch-Ensures s previous now (some t) a =
    Ensures-if (λ (r : Sched × ℕ). IsConsistent r.0) (s.highest_priority == (s.thread t).priority)
      (some (
        set_thread (record s { current = some t }) t (note_start previous now t (s.thread t)),
        (s.thread t).t_stack_ptr,
      ))
      none
      (λ same.
        with_thread (record s { current = some t }) t (note_start previous now t (s.thread t))
          (fits (same_thread t previous)) a)
      (λ other. tt)
  where
    fits :
        (b : Bool)
        → (if b then s.thread t else record (s.thread t) { expiry_time = now }).priority < 32
    fits true = a.1 t
    fits false = a.1 t

pub schedule-Ensures :
    (s : Sched) (tstack now : ℕ)
    → IsQueued s s.current
    → IsConsistent s
    → Ensures (λ (r : Sched × ℕ). IsConsistent r.0) (schedule s tstack now)
unfolding schedule
schedule-Ensures s tstack now h a =
    dispatch-Ensures (put_back s s.current tstack) s.current now _
      (put_back-IsConsistent s s.current tstack h a)
