-- ===== src/Tests/Mutex.antt =====
-- A recursive mutex taken three times, and a semaphore of two units.
use cheriot_rtos.Base.{◌+◌, ◌≤◌, ◌≡◌, refl, arith, List, [], ◌∷◌}
use cheriot_rtos.Locks.Flag.{proceed, owner}
use cheriot_rtos.Locks.Recursive.{
  entering, acquired, recursivemutex_trylock, acquire_nested, release_nested,
}
use cheriot_rtos.Locks.Recursive.Nesting.{acquire_nested-release_nested}
use cheriot_rtos.Locks.Semaphore.{
  available, idle, System, Action, semaphore_get, semaphore_put, go, run,
}
use cheriot_rtos.Locks.Semaphore.Count.{IsFresh, run-conserves}

acquire_nested-release_nested_example :
    let entered = recursivemutex_trylock proceed 7 (record { lock_word = 0; depth = 0 }) entering in
    let taken = recursivemutex_trylock proceed 7 entered.0 entered.1 in
    let inside = acquire_nested proceed 7 2 taken.0 in
    (taken.1 ≡ acquired)
    × (owner (release_nested 1 inside).lock_word ≡ 7)
    × (release_nested (2 + 1) inside ≡ record { lock_word = 0; depth = 0 })
acquire_nested-release_nested_example =
    acquire_nested-release_nested proceed proceed 2 1 7 0 (omega arith) (omega arith) (omega arith)
      (omega arith)

abbrev two : System
two = record { count = 2; pc = λ t. idle; gets = 0; puts = 0 }

two-IsFresh : IsFresh 2 two
two-IsFresh = (refl, refl, refl, λ t. refl)

abbrev actions : List Action
actions =
    semaphore_get 1
    ∷ semaphore_get 2
    ∷ go 1 proceed
    ∷ go 2 proceed
    ∷ go 1 proceed
    ∷ go 2 proceed
    ∷ semaphore_put 1
    ∷ go 1 proceed
    ∷ go 1 proceed
    ∷ []

run-conserves_example :
    let z = run 2 actions two in (available z.count + z.gets ≡ 2 + z.puts) × (available z.count ≤ 2)
run-conserves_example = run-conserves 2 2 actions two (omega arith) (omega arith) two-IsFresh
