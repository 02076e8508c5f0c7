-- ===== src/Tests/FlagLock.antt =====
-- Two threads at a flag lock.
use cheriot_rtos.Base.{ℕ, ◌+◌, ◌%◌, ◌^◌, ◌<◌, ◌≡◌, refl, arith, true, false, List, [], ◌∷◌}
use cheriot_rtos.Locks.Flag.{
  proceed, idle, trying, sleeping, is_holding, in_destruct_mode, owner, try_lock, blocked,
  contended, unlock, upgrade_for_destruction, System, Action, call, step, act, run,
}
use cheriot_rtos.Locks.Flag.Exclusion.{IsFresh, run-excludes, run-wakes}

abbrev thread_id : ℕ → ℕ
thread_id t = t % 2 ^ 16

small : (t : ℕ) → thread_id t < 2 ^ 16
small t = omega arith

abbrev fresh : System
fresh = record { lock_word = 0; pc = λ t. idle }

fresh-IsFresh : IsFresh fresh
fresh-IsFresh = (refl, λ t. refl)

-- Thread 1 takes the lock, and thread 2 goes to sleep.
abbrev contention : List Action
contention = call 1 ∷ step 1 proceed ∷ call 2 ∷ step 2 proceed ∷ step 2 proceed ∷ []

first_holds : is_holding ((run thread_id contention fresh).pc 1) ≡ true
unfolding run act try_lock blocked contended
first_holds = refl

second_sleeps : (run thread_id contention fresh).pc 2 ≡ sleeping (2 ^ 17 + 1)
unfolding run act try_lock blocked contended
second_sleeps = refl

word_unchanged : (run thread_id contention fresh).lock_word ≡ 2 ^ 17 + 1
unfolding run act try_lock blocked contended
word_unchanged = refl

run-excludes_example :
    (◌≡◌ {A = ℕ} 1 1) × (owner (run thread_id contention fresh).lock_word ≡ thread_id 1)
run-excludes_example =
    run-excludes thread_id small contention fresh fresh-IsFresh 1 1 first_holds first_holds

run-wakes_example :
    ((unlock (2 ^ 17 + 1)).1 ≡ true) × ((upgrade_for_destruction (2 ^ 17 + 1)).1 ≡ true)
run-wakes_example =
    run-wakes thread_id small contention fresh fresh-IsFresh 2 (2 ^ 17 + 1) second_sleeps
      word_unchanged

abbrev calling : List Action
calling = call 2 ∷ []

second_tries : (run thread_id calling fresh).pc 2 ≡ trying
unfolding run act
second_tries = refl

none_holds : (t : ℕ) → is_holding ((run thread_id calling fresh).pc t) ≡ false
unfolding run act
none_holds t = ground arith

not_destroyed : in_destruct_mode (run thread_id calling fresh).lock_word ≡ false
unfolding run act
not_destroyed = refl
