-- ===== src/Sched/Thread/RoundRobin.antt =====
-- `schedule` of sdk/core/scheduler/thread.h takes turns between the threads of the highest priority.
use cheriot_rtos.Base.{
  ℕ, ◌≡◌, ◌≢◌, sym, ap, ◌∙◌, subst, Option, List, [], ◌∷◌, ◌++◌, All, All-append, All-append_left,
  All-append_right, Distinct, Distinct-swap, length, length-append, update, update_self, update_ne,
  ℕ_discrete, arith,
}
use cheriot_rtos.Sched.Links.{Links}
use cheriot_rtos.Sched.Links.Chain.{IsRing, IsCycle, IsCycle-rotate, Chain, Chain-append}
use cheriot_rtos.Sched.Links.Board.{IsOff, All-weaken, IsRing-Distinct}
use cheriot_rtos.Sched.State.{ready, Sched}
use cheriot_rtos.Sched.Thread.Wakes.{heads, run_queue, number, IsAsleep}
use cheriot_rtos.Sched.Thread.Ready.{IsPlaced}
use cheriot_rtos.Sched.Links.Occurs.{Occurs}

-- A list whose thread `t` has gone to the end of its round.
abbrev pub turned : List ℕ → ℕ → List ℕ → List ℕ
turned pre t post = (post ++ pre) ++ t ∷ []

All-turned :
    (P : ℕ → Type 0) (pre : List ℕ) (t : ℕ) (post : List ℕ)
    → All P (pre ++ t ∷ post)
    → All P (turned pre t post)
All-turned P pre t post h =
    let rear = All-append_right P pre (t ∷ post) h in
    All-append P (post ++ pre) (t ∷ [])
      (All-append P post pre rear.1 (All-append_left P pre (t ∷ post) h)) (rear.0, tt)

length-turned :
    (pre : List ℕ) (t : ℕ) (post : List ℕ) → length (turned pre t post) ≡ length (pre ++ t ∷ post)
length-turned pre t post = omega (
  arith,
  length-append (post ++ pre) (t ∷ []),
  length-append post pre,
  length-append pre (t ∷ post),
)

IsRing-IsCycle : (l : Links) (h : Option ℕ) (xs : List ℕ) → IsRing l h xs → IsCycle l xs
IsRing-IsCycle l h [] r = tt
IsRing-IsCycle l h (x ∷ xs) r = r.2

close :
    (l : Links) (t : ℕ) (ys : List ℕ)
    → Distinct (ys ++ t ∷ [])
    → Chain l t ys t
    → IsRing l (l.next t) (ys ++ t ∷ [])
close l t [] d c = (c.0, d, c)
close l t (y ∷ ys) d c = (c.0.0, d, Chain-append l y t y ys [] c.1 c.0)

turned-IsRing :
    (l : Links) (h : Option ℕ) (pre : List ℕ) (t : ℕ) (post : List ℕ)
    → IsRing l h (pre ++ t ∷ post)
    → IsRing l (l.next t) (turned pre t post)
turned-IsRing l h pre t post ring =
    close l t (post ++ pre)
      (Distinct-swap (t ∷ []) (post ++ pre)
        (Distinct-swap pre (t ∷ post) (IsRing-Distinct l h (pre ++ t ∷ post) ring)))
      (IsCycle-rotate l t pre post (IsRing-IsCycle l h (pre ++ t ∷ post) ring))

module _ (threads : ℕ) (s : Sched) (members : ℕ → List ℕ) (timers : List ℕ)
    (placed : IsPlaced threads s members timers) (t p : ℕ) (pre post : List ℕ)
    (e : members (run_queue p) ≡ pre ++ t ∷ post) where
  abbrev pub after_turn : ℕ → List ℕ
  after_turn = update members (run_queue p) (turned pre t post)

  turns : (P : ℕ → Type 0) (w : ℕ) → All P (members w) → All P (after_turn w)
  turns P w h = elim (ℕ_discrete (run_queue p) w) [
    | yes same ↦
        subst (λ k. All P (after_turn k)) same
          (subst (All P) (sym (update_self members (run_queue p) (turned pre t post))) (
            All-turned P pre t post
              (subst (All P) e (subst (λ k. All P (members k)) (sym same) h))))
    | no n ↦ subst (All P) (sym (update_ne members (run_queue p) w (turned pre t post) n)) h
  ]

  pub length-after_turn : (w : ℕ) → length (after_turn w) ≡ length (members w)
  length-after_turn w = elim (ℕ_discrete (run_queue p) w) [
    | yes same ↦
        subst (λ k. length (after_turn k) ≡ length (members k)) same
          (ap (λ (ys : List ℕ). length ys) (update_self members (run_queue p) (turned pre t post))
            ∙ length-turned pre t post
            ∙ ap (λ (ys : List ℕ). length ys) (sym e))
    | no n ↦
        ap (λ (ys : List ℕ). length ys) (update_ne members (run_queue p) w (turned pre t post) n)
  ]

  -- The state with the head of the run queue moved on, and with threads that differ only in what the
  -- lists do not depend on.
  pub after_turn-IsPlaced :
      (s' : Sched)
      → s'.links ≡ s.links
      → s'.timer_links ≡ s.timer_links
      → s'.waiting_list ≡ s.waiting_list
      → ((w : ℕ) → update (heads s) (run_queue p) (s.links.next t) w ≡ heads s' w)
      → ((x : ℕ)
          → ((s'.thread x).priority ≡ (s.thread x).priority)
            × ((s'.thread x).state ≡ (s.thread x).state)
            × ((s'.thread x).sleep_queue ≡ (s.thread x).sleep_queue))
      → IsPlaced threads s' after_turn timers
  after_turn-IsPlaced s' l tl wl hs same = record {
    board = record {
      ring = λ w. subst (λ k. IsRing k (heads s' w) (after_turn w)) (sym l) (rings w);
      apart = λ w w' n.
          turns (λ x. IsOff x (after_turn w')) w
            (All-weaken (λ x. IsOff x (members w')) _ (members w) (λ x. turns (λ y. x ≢ y) w')
              (placed.board.apart w w' n));
    };
    waiters =
        subst (λ k. IsRing k s'.waiting_list timers) (sym tl)
          (subst (λ h. IsRing s.timer_links h timers) (sym wl) placed.waiters);
    level = λ q.
        turns (λ x. (s'.thread x).priority ≡ q) (run_queue q)
          (All-weaken (λ x. (s.thread x).priority ≡ q) _ (members (run_queue q))
            (λ x h. (same x).0 ∙ h) (placed.level q));
    awake = λ q.
        turns (λ x. (s'.thread x).state ≡ ready) (run_queue q)
          (All-weaken (λ x. (s.thread x).state ≡ ready) _ (members (run_queue q))
            (λ x h. (same x).1 ∙ h) (placed.awake q));
    room = λ q. omega (arith, length-after_turn (run_queue q), placed.room q);
    asleep = λ q. turns (IsAsleep s' q) (number q) (
        All-weaken (IsAsleep s q) _ (members (number q))
          (λ x h. ((same x).1 ∙ h.0, (same x).2 ∙ h.1)) (placed.asleep q));
    waits = λ q. turns (λ x. Occurs x timers) (number q) (placed.waits q);
  }
    where
      rings : (w : ℕ) → IsRing s.links (heads s' w) (after_turn w)
      rings w = elim (ℕ_discrete (run_queue p) w) [
        | yes same' ↦
            subst (λ k. IsRing s.links (heads s' k) (after_turn k)) same'
              (subst (λ h. IsRing s.links h (after_turn (run_queue p)))
                (sym (update_self (heads s) (run_queue p) (s.links.next t)) ∙ hs (run_queue p))
                (subst (IsRing s.links (s.links.next t))
                  (sym (update_self members (run_queue p) (turned pre t post)))
                  (turned-IsRing s.links (heads s (run_queue p)) pre t post (
                    subst (IsRing s.links (heads s (run_queue p))) e
                      (placed.board.ring (run_queue p))))))
        | no n ↦
            subst (λ h. IsRing s.links h (after_turn w))
              (sym (update_ne (heads s) (run_queue p) w (s.links.next t) n) ∙ hs w)
              (subst (IsRing s.links (heads s w))
                (sym (update_ne members (run_queue p) w (turned pre t post) n))
                (placed.board.ring w))
      ]
