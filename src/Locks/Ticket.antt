-- ===== src/Locks/Ticket.antt =====
-- `InternalTicketLock` of sdk/lib/locks/locks.cc, one access to its two words at a time.
pub mod Inv
pub mod Exclusion
use cheriot_rtos.Base.{
  ℕ, ◌+◌, ◌%◌, ◌^◌, Bool, true, false, not, ◌==◌, if◌then◌else◌, update, List, [], ◌∷◌, add32,
}

-- Where a thread stands in `lock`, with its locals.
pub data Pc : Type 0 where
  idle : Pc
  checking : (ticket : ℕ) → Pc
  sleeping : (ticket snapshot : ℕ) → Pc
  holding : (ticket : ℕ) → Pc

-- `TicketLockState`, and the threads that use it.
pub record System : Type 0 where
  pub current : ℕ
  pub next : ℕ
  pub pc : ℕ → Pc

-- One step of a thread in `lock`; the wait on the futex may end at any time.
unfoldable pub lock : System → ℕ → Pc → System
lock y t idle = record y { next = add32 y.next 1; pc = update y.pc t (checking y.next) }
lock y t (checking ticket) = record y {
  pc = update y.pc t (if y.current == ticket then holding ticket else sleeping ticket y.current);
}
lock y t (sleeping ticket snapshot) = record y { pc = update y.pc t (checking ticket) }
lock y t (holding ticket) = y

-- `unlock`: the new state, and whether it wakes the waiters.
unfoldable pub unlock : System → System × Bool
unlock y = (record y { current = add32 y.current 1 }, not (y.next == y.current))

pub data Action : Type 0 where
  step : (t : ℕ) → Action
  release : (t : ℕ) → Action

-- Only a thread that holds the lock releases it.
unfoldable pub leave : System → ℕ → Pc → System
unfolding unlock
leave y t (holding ticket) = record ((unlock y).0) { pc = update y.pc t idle }
leave y t _ = y

unfoldable pub act : Action → System → System
unfolding lock leave
act (step t) y = lock y t (y.pc t)
act (release t) y = leave y t (y.pc t)

unfoldable pub run : List Action → System → System
unfolding act
run [] y = y
run (a ∷ rest) y = run rest (act a y)
