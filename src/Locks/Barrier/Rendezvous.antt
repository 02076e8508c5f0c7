-- ===== src/Locks/Barrier/Rendezvous.antt =====
-- The threads of a barrier of sdk/lib/locks/barrier.cc meet: none goes on before all have arrived, and
-- none sleeps once the last has woken the others.
use cheriot_rtos.Base.{
  ℕ, ◌+◌, ◌^◌, ◌≤◌, ◌<◌, ◌≡◌, refl, inl, inr, true, false, Bool-cases, List, [], ◌∷◌, arith,
}
use cheriot_rtos.Locks.Barrier.{
  Result, Pc, idle, notifying, waiting, asleep, reading, returned_0, returned_1, timed_out, System,
  Action, arrive, go, stay, settle, enter, proceed, wait_on, act, run, calls, fresh,
}
use cheriot_rtos.Locks.Barrier.Inv.{
  is_past, is_asleep, is_notifying, Inv, enter-Inv, proceed-Inv, wait_on-Inv,
}

enter-arrived : (y : System) (t : ℕ) (p : Pc) → (enter y t p).arrived ≤ y.arrived + 1
unfolding enter settle
enter-arrived y t idle = omega arith
enter-arrived y t notifying = omega arith
enter-arrived y t (waiting r) = omega arith
enter-arrived y t asleep = omega arith
enter-arrived y t reading = omega arith
enter-arrived y t returned_0 = omega arith
enter-arrived y t returned_1 = omega arith
enter-arrived y t timed_out = omega arith

proceed-arrived : (r : Result) (y : System) (t : ℕ) (p : Pc) → (proceed r y t p).arrived ≡ y.arrived
unfolding proceed settle
proceed-arrived r y t idle = refl
proceed-arrived r y t notifying = refl
proceed-arrived r y t (waiting w) = refl
proceed-arrived r y t asleep = refl
proceed-arrived r y t reading = refl
proceed-arrived r y t returned_0 = refl
proceed-arrived r y t returned_1 = refl
proceed-arrived r y t timed_out = refl

wait_on-arrived : (y : System) (t : ℕ) (p : Pc) → (wait_on y t p).arrived ≡ y.arrived
unfolding wait_on settle
wait_on-arrived y t idle = refl
wait_on-arrived y t notifying = refl
wait_on-arrived y t (waiting w) = refl
wait_on-arrived y t asleep = refl
wait_on-arrived y t reading = refl
wait_on-arrived y t returned_0 = refl
wait_on-arrived y t returned_1 = refl
wait_on-arrived y t timed_out = refl

module _ (n : ℕ) (small : n < 2 ^ 32) where
  run-Inv :
      (actions : List Action) (y : System)
      → y.arrived + calls actions ≤ n
      → Inv n y
      → Inv n (run actions y)
  unfolding run act
  run-Inv [] y few inv = inv
  run-Inv (arrive t ∷ rest) y few inv =
      run-Inv rest (enter y t (y.pc t)) (omega (arith, enter-arrived y t (y.pc t), few))
        (enter-Inv n y t (y.pc t) refl small (omega (arith, few)) inv)
  run-Inv (go t r ∷ rest) y few inv =
      run-Inv rest (proceed r y t (y.pc t)) (omega (arith, proceed-arrived r y t (y.pc t), few))
        (proceed-Inv n y t r (y.pc t) refl inv)
  run-Inv (stay t ∷ rest) y few inv =
      run-Inv rest (wait_on y t (y.pc t)) (omega (arith, wait_on-arrived y t (y.pc t), few))
        (wait_on-Inv n y t (y.pc t) refl inv)

  fresh-Inv : Inv n (fresh n)
  fresh-Inv = record {
    count = omega arith;
    past = λ t h. absurd (cc);
    sees = λ t. tt;
    quiet = λ t h. absurd (cc);
  }

  -- When no more threads call than the barrier is for, a thread that has returned 0 or 1, or is about to
  -- wake the others, has done so after as many calls as the barrier is for.
  pub run-meets :
      (actions : List Action) (t : ℕ)
      → calls actions ≤ n
      → is_past ((run actions (fresh n)).pc t) ≡ true
      → (run actions (fresh n)).arrived ≡ n
  run-meets actions t few past =
      let inv = run-Inv actions (fresh n) (omega (arith, few)) fresh-Inv in
      omega (arith, inv.count, inv.past t past)

  -- When all threads that the barrier is for have called, and the last is done waking the others, no
  -- thread sleeps on it.
  pub run-awake :
      (actions : List Action) (t : ℕ)
      → calls actions ≤ n
      → (run actions (fresh n)).arrived ≡ n
      → ((u : ℕ) → is_notifying ((run actions (fresh n)).pc u) ≡ false)
      → is_asleep ((run actions (fresh n)).pc t) ≡ false
  run-awake actions t few all quiet =
      let y = run actions (fresh n) in
      let inv = run-Inv actions (fresh n) (omega (arith, few)) fresh-Inv in
      elim (Bool-cases (is_asleep (y.pc t))) [
        | inl h ↦ elim (inv.quiet t h) [
          | inl left ↦ absurd (left (omega (arith, inv.count, all)))
          | inr w ↦ absurd (let (u, k) = w in let q = quiet u in cc)
        ]
        | inr h ↦ h
      ]
