-- ===== src/Tests/TicketLock.antt =====
-- Two threads at a ticket lock whose tickets are about to wrap.
use cheriot_rtos.Base.{ℕ, ◌-◌, ◌^◌, ◌≡◌, refl, arith, true, List, [], ◌∷◌}
use cheriot_rtos.Locks.Ticket.{
  idle, holding, System, lock, unlock, Action, step, release, leave, act, run,
}
use cheriot_rtos.Locks.Ticket.Exclusion.{IsFresh, run-holds_one, run-unlock_wakes}

abbrev fresh : System
fresh = record { current = 2 ^ 32 - 1; next = 2 ^ 32 - 1; pc = λ t. idle }

fresh-IsFresh : IsFresh fresh
fresh-IsFresh = (omega arith, refl, λ t. refl)

-- Thread 1 is served, then thread 2.
abbrev handover : List Action
handover = step 1 ∷ step 1 ∷ step 2 ∷ release 1 ∷ step 2 ∷ []

second_holds : (run handover fresh).pc 2 ≡ holding 0
unfolding run act lock leave unlock
second_holds = refl

run-holds_one_example : ◌≡◌ {A = ℕ} 2 2
run-holds_one_example =
    run-holds_one handover fresh (omega arith) fresh-IsFresh 2 2 0 0 second_holds second_holds

run-unlock_wakes_example : (unlock (run handover fresh)).1 ≡ true
run-unlock_wakes_example =
    run-unlock_wakes handover fresh (omega arith) fresh-IsFresh 2 0 second_holds
