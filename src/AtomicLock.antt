-- ===== src/AtomicLock.antt =====
-- `flag_lock` of sdk/include/c++-config/atomic, the lock of an atomic value that is too large for the
-- machine, one access to its word at a time. A thread is a number; the other side of a wait on the
-- futex, a wake-up that may come at any time, is part of an action.
pub mod Contended
pub mod Exclusion
use cheriot_rtos.Base.{ℕ, Bool, true, false, ◌==◌, ◌&&◌, if◌then◌else◌, update, List, [], ◌∷◌}

pub data LockState : Type 0 where
  unlocked : LockState
  locked : LockState
  locked_with_waiters : LockState

-- Where a thread stands: before the compare-and-exchange, the exchange or the wait of `lock`, the last
-- with its local `old`; or with the lock.
pub data Pc : Type 0 where
  idle : Pc
  taking : Pc
  marking : Pc
  waiting : (old : LockState) → Pc
  holding : Pc

-- The `switch` on `old`.
unfoldable pub switch : LockState → Pc
switch unlocked = taking
switch locked = marking
switch locked_with_waiters = waiting locked_with_waiters

-- The compare-and-exchange, which leaves what it finds in `old` when it fails.
unfoldable pub exchanged : LockState → LockState × Pc
unfolding switch
exchanged unlocked = (locked, holding)
exchanged locked = (locked, switch locked)
exchanged locked_with_waiters = (locked_with_waiters, switch locked_with_waiters)

-- The wait returns at once if the word is not the expected one, and else when the thread is woken.
unfoldable pub waited : Bool → LockState → LockState → Pc
unfolding switch
waited false locked_with_waiters old = waiting old
waited woken word old = switch old

-- One step of `lock`: the new word and where the thread then is.
unfoldable pub lock_step : Bool → LockState → Pc → LockState × Pc
unfolding exchanged waited
lock_step woken word taking = exchanged word
lock_step woken word marking = (locked_with_waiters, waiting locked)
lock_step woken word (waiting old) = (word, waited woken word old)
lock_step woken word pc = (word, pc)

-- `unlock`, by the thread that has the lock: the word that it leaves.
unfoldable pub unlock_step : LockState → Pc → LockState × Pc
unlock_step word holding = (unlocked, idle)
unlock_step word pc = (word, pc)

pub record System : Type 0 where
  pub word : LockState
  pub pc : ℕ → Pc

pub data Action : Type 0 where
  lock : (t : ℕ) → Action
  go : (t : ℕ) → (woken : Bool) → Action
  unlock : (t : ℕ) → Action

abbrev pub begin : Pc → Pc
begin idle = taking
begin pc = pc

abbrev pub settle : System → ℕ → LockState × Pc → System
settle y t (word, p) = record { word = word; pc = update y.pc t p }

unfoldable pub act : Action → System → System
unfolding lock_step unlock_step
act (lock t) y = settle y t (y.word, begin (y.pc t))
act (go t woken) y = settle y t (lock_step woken y.word (y.pc t))
act (unlock t) y = settle y t (unlock_step y.word (y.pc t))

unfoldable pub run : List Action → System → System
unfolding act
run [] y = y
run (a ∷ rest) y = run rest (act a y)
