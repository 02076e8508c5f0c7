-- ===== src/Sched/Futex/Wake.antt =====
-- What `futex_wake` of sdk/core/scheduler/main.cc wakes.
use cheriot_rtos.Base.{
  or-false, or_assoc, ℕ, zero, suc, ◌+◌, ◌^◌, ◌≤◌, ◌<◌, ◌≡◌, ◌≢◌, inl, inr, refl, sym, ap, ◌∙◌,
  subst, Bool, true, false, Bool-cases, ◌||◌, some, List, [], ◌∷◌, ◌++◌, All, Distinct, length,
  append_assoc, append-nil, ==→eq, if◌then◌else◌, update, update_ne, update_self, arith, ne→==,
  ◌==◌, sub32,
}
use mathlib.Core.Option.{some-injective}
use cheriot_rtos.Sched.Links.Chain.{IsRing}
use cheriot_rtos.Sched.Links.Board.{All-and, All-weaken, IsRing-Distinct}
use cheriot_rtos.Sched.State.{ready, Sched, Thread, futex, futexes}
use cheriot_rtos.Sched.Links.Occurs.{Occurs, pigeonhole, remove_first}
use cheriot_rtos.Sched.Thread.Wakes.{run_queue}
use cheriot_rtos.Sched.Futex.Chosen.{chosen, left_over, any, All-chosen}
use cheriot_rtos.Sched.Thread.Ready.{IsPlaced, IsWoken, make_ready_lem, moved, number_ne}
use cheriot_rtos.Sched.Walk.Visits.{visit_list, walk-visit_list, IsMild}
use cheriot_rtos.Sched.Futex.{Waking, waking_list, wake_sleeper, wake_sleepers}

module _ (threads key : ℕ) where
  -- `xs` are the threads that wait for futexes, in a state of the invariant.
  abbrev pub Waits : Waking → List ℕ → Type 0
  Waits w xs =
      (members : ℕ → List ℕ) × (timers : List ℕ) × IsPlaced threads w.sched members timers
      × (members 0 ≡ xs)

  pub Waits-IsRing :
      (w : Waking) (xs : List ℕ) → Waits w xs → IsRing (waking_list w).links (waking_list w).head xs
  Waits-IsRing w xs (members, timers, placed, e) =
      subst (IsRing w.sched.links w.sched.futex_waiting_list) e (placed.board.ring 0)

  Waits-length : (w : Waking) (xs : List ℕ) → Waits w xs → length xs ≤ threads
  Waits-length w xs (members, timers, placed, e) = omega (
    arith,
    pigeonhole xs timers
        (IsRing-Distinct w.sched.links _ xs (Waits-IsRing w xs (members, timers, placed, e)))
        (subst (All (λ x. Occurs x timers)) e (placed.waits futexes)),
    placed.room 0,
  )

  abbrev after_wake : Waking → Sched → ℕ → Waking
  after_wake w s' t = record {
    sched = s';
    recalculate = w.recalculate || (w.sched.thread t).futex_priority_inheriting;
    count = sub32 w.count 1;
    woke = w.woke + 1;
  }

  -- A thread that waits for the key is woken, another one is not.
  wake_sleeper-some :
      (w : Waking) (members : ℕ → List ℕ) (timers pre post : List ℕ) (t : ℕ)
      → IsPlaced threads w.sched members timers
      → members 0 ≡ pre ++ t ∷ post
      → ((w.sched.thread t).futex_wait_address == key) ≡ true
      → (s' : Sched) × (wake_sleeper threads key w t ≡ some (after_wake w s' t))
        × IsWoken threads w.sched members timers futexes (pre ++ post) t s'
  unfolding wake_sleeper
  wake_sleeper-some w members timers pre post t placed e hit =
      let (s', done, woken) =
        make_ready_lem threads w.sched members timers placed futexes pre post t e futex in
      (s', rw (hit, done) refl, woken)

  -- The sleep queues and the run queues when one thread has been woken.
  moved_futexes :
      (members : ℕ → List ℕ) (left : List ℕ) (t p : ℕ) → moved members futexes left t p 0 ≡ left
  moved_futexes members left t p =
      update_ne (update members 0 left) (run_queue p) 0 _ (omega arith) ∙ update_self members 0 left

  moved_others :
      (members : ℕ → List ℕ) (left : List ℕ) (t p : ℕ)
      → moved members futexes left t p 1 ≡ members 1
  moved_others members left t p =
      update_ne (update members 0 left) (run_queue p) 1 _ (omega arith)
      ∙ update_ne members 0 1 left (omega arith)

  moved_queue :
      (members : ℕ → List ℕ) (left : List ℕ) (t p' p : ℕ)
      → moved members futexes left t p' (run_queue p)
        ≡ members (run_queue p) ++ (if p' == p then t ∷ [] else [])
  moved_queue members left t p' p = elim (Bool-cases (p' == p)) [
    | inl same ↦ rw same (
        subst (λ k. moved members futexes left t p' (run_queue k) ≡ members (run_queue k) ++ t ∷ [])
          (==→eq p' p same)
          (update_self (update members 0 left) (run_queue p') (members (run_queue p') ++ t ∷ [])))
    | inr other ↦ rw other (
        update_ne (update members 0 left) (run_queue p') (run_queue p) _ (apart_queues p' p other)
        ∙ update_ne members 0 (run_queue p) left (number_ne futexes p)
        ∙ sym (append-nil (members (run_queue p))))
  ]
    where
      apart_queues : (p' p : ℕ) → (p' == p) ≡ false → run_queue p' ≢ run_queue p
      apart_queues p' p other = ground (arith, other)

  wake_sleeper-none :
      (w : Waking) (t : ℕ)
      → ((w.sched.thread t).futex_wait_address == key) ≡ false
      → wake_sleeper threads key w t ≡ some w
  unfolding wake_sleeper
  wake_sleeper-none w t miss = rw miss refl

  pub wake_sleeper-IsMild : IsMild waking_list (wake_sleeper threads key) (λ w. w.count == 0) Waits
  wake_sleeper-IsMild w w' pre post t waits seen =
      elim (Bool-cases ((w.sched.thread t).futex_wait_address == key)) [
        | inl hit ↦
            let (members, timers, placed, e) = waits in
            let (s', done, woken) = wake_sleeper-some w members timers pre post t placed e hit in
            let p = (w.sched.thread t).priority in
            inr (
              subst (λ v. Waits v (pre ++ post)) (some-injective _ _ (sym done ∙ seen))
                (
                  moved members futexes (pre ++ post) t p,
                  remove_first t timers,
                  woken.placed,
                  moved_futexes members (pre ++ post) t p,
                ))
        | inr miss ↦ inl (
            subst (λ v. Waits v (pre ++ t ∷ post))
              (some-injective _ _ (sym (wake_sleeper-none w t miss) ∙ seen)) waits)
      ]

  module _ (s : Sched) where
    abbrev pub waits_for : ℕ → Bool
    waits_for t = (s.thread t).futex_wait_address == key

    abbrev pub inherits : ℕ → Bool
    inherits t = (s.thread t).futex_priority_inheriting

    -- Those of some threads that have priority `p`, in their order.
    abbrev pub of_priority : ℕ → List ℕ → List ℕ
    of_priority p [] = []
    of_priority p (t ∷ ts) = (if (s.thread t).priority == p then t ∷ [] else []) ++ of_priority p ts

    abbrev pub remove_all : List ℕ → List ℕ → List ℕ
    remove_all [] timers = timers
    remove_all (t ∷ ts) timers = remove_all ts (remove_first t timers)

    -- `w'` is `w` when the threads `woken` have been: they were on the sleep queue `members 0` and on the
    -- list `timers`, of which `left` and all others are left, and are at the ends of their run queues.
    pub record IsWake (w : Waking) (members : ℕ → List ℕ) (timers woken left : List ℕ) (w' : Waking)
        : Type 0 where
      pub members_after : ℕ → List ℕ
      pub placed : IsPlaced threads w'.sched members_after (remove_all woken timers)
      pub sleepers : members_after 0 ≡ left
      pub others_asleep : members_after 1 ≡ members 1
      pub queues :
          (p : ℕ) → members_after (run_queue p) ≡ members (run_queue p) ++ of_priority p woken
      pub awake : All (λ t. (w'.sched.thread t).state ≡ ready) woken
      pub others : (u : ℕ) → All (λ t. t ≢ u) woken → w'.sched.thread u ≡ w.sched.thread u
      pub woke : w'.woke ≡ w.woke + length woken
      pub count : w'.count + length woken ≡ w.count
      pub recalculate : w'.recalculate ≡ (w.recalculate || any inherits woken)

    abbrev VisitsTo : List ℕ → Waking → Waking → Type 0
    VisitsTo xs w w' =
        visit_list waking_list (wake_sleeper threads key) (λ v. v.count == 0) xs w ≡ some w'

    none_woken :
        (w : Waking) (members : ℕ → List ℕ) (timers xs : List ℕ)
        → IsPlaced threads w.sched members timers
        → members 0 ≡ xs
        → IsWake w members timers [] xs w
    none_woken w members timers xs placed e = record {
      members_after = members;
      placed = placed;
      sleepers = e;
      others_asleep = refl;
      queues = λ p. sym (append-nil (members (run_queue p)));
      awake = tt;
      others = λ u h. refl;
      woke = omega arith;
      count = omega arith;
      recalculate = sym (or-false w.recalculate);
    }

    VisitsTo-go :
        (x : ℕ) (xs : List ℕ) (w v w' : Waking)
        → (w.count == 0) ≡ false
        → wake_sleeper threads key w x ≡ some v
        → VisitsTo xs v w'
        → VisitsTo (x ∷ xs) w w'
    unfolding visit_list
    VisitsTo-go x xs w v w' go seen rest = ground (arith, go, seen, rest)

    VisitsTo-stop :
        (x : ℕ) (xs : List ℕ) (w : Waking) → (w.count == 0) ≡ true → VisitsTo (x ∷ xs) w w
    unfolding visit_list
    VisitsTo-stop x xs w halt = ground (arith, halt)

    VisitsTo-nil : (w : Waking) → VisitsTo [] w w
    unfolding visit_list
    VisitsTo-nil w = refl

    -- The first of the threads is woken, and then `woken` are.
    one_more_woken :
        (w w' : Waking) (members : ℕ → List ℕ) (timers rest_asleep left woken : List ℕ) (x : ℕ)
        (s' : Sched)
        → All (λ t. t ≢ x) woken
        → w.sched.thread x ≡ s.thread x
        → 0 < w.count
        → w.count < 2 ^ 32
        → IsWoken threads w.sched members timers futexes rest_asleep x s'
        → IsWake
            (after_wake w s' x)
            (moved members futexes rest_asleep x (w.sched.thread x).priority)
            (remove_first x timers)
            woken
            left
            w'
        → IsWake w members timers (x ∷ woken) left w'
    one_more_woken w w' members timers rest_asleep left woken x s' off same pos small one rest =
        record {
          members_after = rest.members_after;
          placed = rest.placed;
          sleepers = rest.sleepers;
          others_asleep = rest.others_asleep ∙ moved_others members rest_asleep x _;
          queues = λ p.
              rest.queues p
              ∙ ap (λ ys. ys ++ of_priority p woken)
                  (moved_queue members rest_asleep x (w.sched.thread x).priority p)
              ∙ append_assoc (members (run_queue p))
                  (if (w.sched.thread x).priority == p then x ∷ [] else []) (of_priority p woken)
              ∙ ap
                  (λ (th : Thread).
                    members (run_queue p)
                    ++ ((if th.priority == p then x ∷ [] else []) ++ of_priority p woken))
                  same;
          awake = (ap (λ (th : Thread). th.state) (rest.others x off) ∙ one.state, rest.awake);
          others = λ u h. rest.others u h.1 ∙ one.others u h.0;
          woke = omega (arith, rest.woke);
          count = omega (arith, rest.count);
          recalculate =
              rest.recalculate
              ∙ ap
                  (λ (th : Thread).
                    (w.recalculate || th.futex_priority_inheriting) || any inherits woken)
                  same
              ∙ or_assoc w.recalculate (inherits x) (any inherits woken);
        }

    wakes :
        (n : ℕ) (xs pre : List ℕ) (w : Waking) (members : ℕ → List ℕ) (timers : List ℕ)
        → IsPlaced threads w.sched members timers
        → members 0 ≡ pre ++ xs
        → Distinct xs
        → All (λ t. w.sched.thread t ≡ s.thread t) xs
        → w.count ≡ n
        → n < 2 ^ 32
        → (w' : Waking) × VisitsTo xs w w'
          × IsWake w members timers (chosen waits_for n xs) (pre ++ left_over waits_for n xs) w'
    wakes zero [] pre w members timers placed at d same e small =
        (w, VisitsTo-nil w, none_woken w members timers (pre ++ []) placed at)
    wakes (suc n) [] pre w members timers placed at d same e small =
        (w, VisitsTo-nil w, none_woken w members timers (pre ++ []) placed at)
    wakes zero (x ∷ xs) pre w members timers placed at d same e small = (
      w,
      VisitsTo-stop x xs w (ap (λ k. k == 0) e ∙ refl),
      none_woken w members timers (pre ++ x ∷ xs) placed at,
    )
    wakes (suc n) (x ∷ xs) pre w members timers placed at d same e small =
        let going : (w.count == 0) ≡ false = ne→== w.count 0 (omega (arith, e)) in
        let here = ap (λ (th : Thread). th.futex_wait_address == key) same.0 in
        elim (Bool-cases (waits_for x)) [
          | inl hit ↦
              let (s', done, one) =
                wake_sleeper-some w members timers pre xs x placed at (here ∙ hit) in
              let (w', visits, rest) =
                wakes n xs pre (after_wake w s' x)
                  (moved members futexes (pre ++ xs) x (w.sched.thread x).priority)
                  (remove_first x timers) one.placed (moved_futexes members (pre ++ xs) x _) d.1
                  (All-and (λ y. x ≢ y) (λ t. w.sched.thread t ≡ s.thread t) _ xs
                    (λ y apart k. one.others y apart ∙ k) d.0 same.1)
                  (omega (arith, e, small)) (omega arith) in
              rw hit (
                w',
                VisitsTo-go x xs w (after_wake w s' x) w' going done visits,
                one_more_woken w w' members timers (pre ++ xs) _ _ x s'
                    (All-chosen waits_for (λ t. t ≢ x) n xs
                      (All-weaken (λ y. x ≢ y) (λ y. y ≢ x) xs (λ y k q. k (sym q)) d.0))
                    same.0 (omega (arith, e)) (omega (arith, e, small)) one rest,
              )
          | inr miss ↦
              let (w', visits, rest) =
                wakes (suc n) xs (pre ++ x ∷ []) w members timers placed
                  (at ∙ sym (append_assoc pre (x ∷ []) xs)) d.1 same.1 e small in
              rw miss (
                w',
                VisitsTo-go x xs w w w' going (wake_sleeper-none w x (here ∙ miss)) visits,
                subst (λ ys. IsWake w members timers (chosen waits_for (suc n) xs) ys w')
                    (append_assoc pre (x ∷ []) (left_over waits_for (suc n) xs)) rest,
              )
        ]

-- Let the run queues, the sleep queues and the list of waiting threads be rings, with ready threads of
-- its priority on each run queue and, on each sleep queue, threads that sleep there and wait. Then waking
-- a futex, by at most a 32-bit count, does not fault and wakes, of the threads that sleep on the queue for
-- futexes, the first `count` in its order that wait for the address: these are off that queue and off the
-- list of waiting threads, each at the end of the run queue of its priority in the order in which they
-- slept, and ready. All other threads are unchanged and on the same lists in the same order, and the lists
-- are again such rings. The call counts the threads that it wakes and tells whether one of them inherits.
pub wake_sleepers_lem :
    (threads key count : ℕ) (s : Sched) (members : ℕ → List ℕ) (timers : List ℕ)
    → IsPlaced threads s members timers
    → count < 2 ^ 32
    → (w : Waking) × (wake_sleepers threads key count s ≡ some w)
      × IsWake threads key s
          (record { sched = s; recalculate = false; count = count; woke = 0 })
          members
          timers
          (chosen (waits_for threads key s) count (members 0))
          (left_over (waits_for threads key s) count (members 0))
          w
unfolding wake_sleepers
wake_sleepers_lem threads key count s members timers placed small =
    let start : Waking = record { sched = s; recalculate = false; count = count; woke = 0 } in
    let waits : Waits threads key start (members 0) = (members, timers, placed, refl) in
    let (w, visits, wake) =
      wakes threads key s count (members 0) [] start members timers placed refl
        (IsRing-Distinct s.links s.futex_waiting_list (members 0) (placed.board.ring 0))
        (All-refl s.thread (members 0)) refl small in
    (
      w,
      walk-visit_list waking_list (wake_sleeper threads key) (λ v. v.count == 0) (Waits threads key)
            (Waits-IsRing threads key) (wake_sleeper-IsMild threads key) threads start (members 0)
            waits (Waits-length threads key start (members 0) waits)
          ∙ visits,
      wake,
    )
  where
    All-refl : (f : ℕ → Thread) (xs : List ℕ) → All (λ t. f t ≡ f t) xs
    All-refl f [] = tt
    All-refl f (x ∷ xs) = (refl, All-refl f xs)
