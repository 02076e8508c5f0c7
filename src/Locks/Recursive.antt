-- ===== src/Locks/Recursive.antt =====
-- The recursive mutex of sdk/lib/locks/locks.cc: a flag lock with a 16-bit depth.
pub mod Nesting
use cheriot_rtos.Base.{
  ℕ, zero, suc, ◌+◌, ◌-◌, ◌%◌, ◌^◌, Bool, true, false, ◌==◌, if◌then◌else◌, update,
}
use cheriot_rtos.Locks.Flag.{
  Errno, etimedout, eoverflow, Event, Pc, trying, holding, failed, owner, try_lock, unlock,
}

pub record RecursiveMutexState : Type 0 where
  pub lock_word : ℕ
  pub depth : ℕ

-- Where a thread stands in `recursivemutex_trylock`: before the test of the owner, in the flag lock's
-- `try_lock`, or at a return, of 0 or of an error.
pub data Call : Type 0 where
  entering : Call
  inner : Pc → Call
  acquired : Call
  refused : Errno → Call

-- What the mutex does with a step of the flag lock.
unfoldable pub settle : RecursiveMutexState → Pc → RecursiveMutexState × Call
settle m holding = (record m { depth = 1 }, acquired)
settle m (failed e) = (m, refused etimedout)
settle m p = (m, inner p)

-- One step of `recursivemutex_trylock` by the thread with identifier `id`.
unfoldable pub recursivemutex_trylock :
    Event → ℕ → RecursiveMutexState → Call → RecursiveMutexState × Call
unfolding settle
recursivemutex_trylock e id m entering =
    if owner m.lock_word == id
    then (if m.depth == 2 ^ 16 - 1
        then (m, refused eoverflow)
        else (record m { depth = m.depth + 1 }, acquired))
    else (m, inner trying)
recursivemutex_trylock e id m (inner p) =
    let (word, p') = try_lock e id m.lock_word p in settle (record m { lock_word = word }) p'
recursivemutex_trylock e id m c = (m, c)

-- `recursivemutex_unlock`.
unfoldable pub recursivemutex_unlock : RecursiveMutexState → RecursiveMutexState
recursivemutex_unlock m =
    let left = (m.depth + 2 ^ 16 - 1) % 2 ^ 16 in
    if left == 0
    then record { lock_word = (unlock m.lock_word).0; depth = left }
    else record m { depth = left }

-- `n` acquisitions by the owner, one inside the other, and `n` releases.
unfoldable pub acquire_nested : Event → ℕ → ℕ → RecursiveMutexState → RecursiveMutexState
unfolding recursivemutex_trylock
acquire_nested e id zero m = m
acquire_nested e id (suc n) m = acquire_nested e id n (recursivemutex_trylock e id m entering).0

unfoldable pub release_nested : ℕ → RecursiveMutexState → RecursiveMutexState
unfolding recursivemutex_unlock
release_nested zero m = m
release_nested (suc n) m = release_nested n (recursivemutex_unlock m)
