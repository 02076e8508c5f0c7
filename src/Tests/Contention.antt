-- ===== src/Tests/Contention.antt =====
-- Runs of the fallback lock of an atomic, of a barrier and of a function that runs once.
use cheriot_rtos.Base.{ℕ, ◌≡◌, ◌≢◌, refl, true, false, List, [], ◌∷◌, arith}
use cheriot_rtos.AtomicLock
use cheriot_rtos.AtomicLock.{holding, taking}
use cheriot_rtos.AtomicLock.Contended.{HasLost, run-contended}
use cheriot_rtos.AtomicLock.Exclusion.{run-one_holder}
use cheriot_rtos.Locks.Barrier
use cheriot_rtos.Locks.Barrier.{woken, returned_1}
use cheriot_rtos.Locks.Barrier.Inv.{is_past, is_asleep, is_notifying}
use cheriot_rtos.Locks.Barrier.Rendezvous.{run-meets, run-awake}
use cheriot_rtos.Locks.Condition
use cheriot_rtos.Locks.Condition.{locking}
use cheriot_rtos.Locks.Condition.Notified.{run-notified}
use cheriot_rtos.Locks.Once
use cheriot_rtos.Locks.Once.{returned, calling}
use cheriot_rtos.Locks.Once.Single.{run-calls_once}

-- Thread 1 has the lock, and thread 2 is about to try.
abbrev one_has : List AtomicLock.Action
one_has = AtomicLock.lock 1 ∷ AtomicLock.go 1 false ∷ AtomicLock.lock 2 ∷ []

abbrev one_waits : AtomicLock.System
one_waits = AtomicLock.run one_has AtomicLock.Exclusion.fresh

-- The holder lets go, and the other is woken.
abbrev release : List AtomicLock.Action
release =
    AtomicLock.unlock 1 ∷ AtomicLock.go 2 true ∷ AtomicLock.go 2 true ∷ AtomicLock.go 2 true ∷ []

run-contended_example : HasLost ((AtomicLock.run (AtomicLock.go 2 false ∷ release) one_waits).pc 2)
unfolding AtomicLock.run AtomicLock.act AtomicLock.lock_step AtomicLock.exchanged AtomicLock.switch
run-contended_example = run-contended false release one_waits 2 refl tt

holds : (AtomicLock.run one_has AtomicLock.Exclusion.fresh).pc 1 ≡ holding
unfolding AtomicLock.run AtomicLock.act AtomicLock.lock_step AtomicLock.exchanged AtomicLock.switch
holds = refl

run-one_holder_example : ◌≡◌ {A = ℕ} 1 1
run-one_holder_example = run-one_holder one_has 1 1 holds holds

-- Two threads: the first sleeps, and the second arrives and wakes it.
abbrev meeting : List Barrier.Action
meeting =
    Barrier.arrive 1
    ∷ Barrier.stay 1
    ∷ Barrier.arrive 2
    ∷ Barrier.go 2 woken
    ∷ Barrier.go 1 woken
    ∷ []

met : is_past ((Barrier.run meeting (Barrier.fresh 2)).pc 1) ≡ true
unfolding Barrier.run Barrier.act Barrier.enter Barrier.wait_on Barrier.proceed Barrier.settle
    Barrier.looked Barrier.sleeps Barrier.step Barrier.slept Barrier.rouse
met = refl

run-meets_example : (Barrier.run meeting (Barrier.fresh 2)).arrived ≡ 2
run-meets_example = run-meets 2 (omega arith) meeting 1 (omega arith) met

nobody_wakes : (u : ℕ) → is_notifying ((Barrier.run meeting (Barrier.fresh 2)).pc u) ≡ false
unfolding Barrier.run Barrier.act Barrier.enter Barrier.wait_on Barrier.proceed Barrier.settle
    Barrier.looked Barrier.sleeps Barrier.step Barrier.slept Barrier.rouse
nobody_wakes u = ground arith

all_there : (Barrier.run meeting (Barrier.fresh 2)).arrived ≡ 2
unfolding Barrier.run Barrier.act Barrier.enter Barrier.wait_on Barrier.proceed Barrier.settle
    Barrier.looked Barrier.sleeps Barrier.step Barrier.slept Barrier.rouse
all_there = refl

run-awake_example : is_asleep ((Barrier.run meeting (Barrier.fresh 2)).pc 1) ≡ false
run-awake_example = run-awake 2 (omega arith) meeting 1 (omega arith) all_there nobody_wakes

-- Thread 1 runs the callback while thread 2 waits for it.
abbrev twice : List Once.Action
twice =
    Once.run_once 1
    ∷ Once.run_once 2
    ∷ Once.go 1
    ∷ Once.go 2
    ∷ Once.go 1
    ∷ Once.go 2
    ∷ Once.go 2
    ∷ Once.go 1
    ∷ Once.go 1
    ∷ Once.go 1
    ∷ []

second_returns : (Once.run twice Once.fresh).pc 2 ≡ returned
unfolding Once.run Once.act Once.step Once.settle Once.tested Once.race Once.lost Once.waited
    Once.rouse
second_returns = refl

run-calls_once_example :
    ((Once.run twice Once.fresh).callbacks ≡ 1) × ((Once.run twice Once.fresh).pc 1 ≢ calling)
run-calls_once_example = run-calls_once twice 2 1 second_returns

-- A thread is notified between its release of the mutex and its wait.
abbrev early : List Condition.Action
early =
    Condition.notify (λ u. true)
    ∷ Condition.wait 1
    ∷ Condition.go 1 0
    ∷ Condition.go 1 0
    ∷ Condition.notify (λ u. false)
    ∷ []

arrived_late : (Condition.run early Condition.fresh).pc 1 ≡ Condition.waiting 1
unfolding Condition.run Condition.act Condition.step Condition.checked Condition.blocked
    Condition.woken
arrived_late = refl

run-notified_example :
    (Condition.act (Condition.fall_asleep 1) (Condition.run early Condition.fresh)).pc 1 ≡ locking
unfolding Condition.run Condition.act Condition.step Condition.checked Condition.blocked
    Condition.woken
run-notified_example = run-notified early 1 1 arrived_late (omega arith) (omega arith)
