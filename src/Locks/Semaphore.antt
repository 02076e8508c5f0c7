-- ===== src/Locks/Semaphore.antt =====
-- The counting semaphore of sdk/lib/locks/semaphore.cc, one access to its word at a time.
pub mod Count
use cheriot_rtos.Base.{
  ℕ, ◌+◌, ◌-◌, ◌*◌, ◌/◌, ◌%◌, ◌^◌, Bool, true, false, ◌==◌, ltb, if◌then◌else◌, update, List, [],
  ◌∷◌,
}
use cheriot_rtos.Locks.Flag.{Errno, einval, Event, wait_fails}

-- `value & ~WaitersBit` and `value & WaitersBit`, for a 32-bit word.
abbrev pub available : ℕ → ℕ
available value = value % 2 ^ 31

abbrev pub has_waiters : ℕ → Bool
has_waiters value = value / 2 ^ 31 % 2 == 1

-- Where a thread stands in `semaphore_get` or `semaphore_put`, with its local `value`.
pub data Pc : Type 0 where
  idle : Pc
  getting putting : Pc
  taking : (value : ℕ) → Pc
  marking : (value : ℕ) → Pc
  sleeping : (value : ℕ) → Pc
  storing : (value : ℕ) → Pc
  got given : Pc
  failed : Errno → Pc

unfoldable pub looked : ℕ → Pc
looked value =
    if ltb 0 (available value)
    then taking value
    else if has_waiters value
    then sleeping value
    else marking value

unfoldable pub slept : Event → Bool → ℕ → Pc
slept (wait_fails r) true value = failed r
slept _ _ value = getting

module _ (max_count : ℕ) where
  -- One step of a call: the new word and where the thread then is.
  unfoldable pub step : Event → ℕ → Pc → ℕ × Pc
  unfolding looked slept
  step e word getting = (word, looked word)
  step e word (taking value) = if word == value then (value - 1, got) else (word, getting)
  step e word (marking value) =
      if word == value then (value + 2 ^ 31, sleeping (value + 2 ^ 31)) else (word, getting)
  step e word (sleeping value) = (word, slept e (word == value) value)
  step e word putting = (word, if available word == max_count then failed einval else storing word)
  step e word (storing value) =
      if word == value then (available value + 1, given) else (word, putting)
  step e word pc = (word, pc)

-- A semaphore's word, the threads that use it, and how many calls of each kind have returned 0.
pub record System : Type 0 where
  pub count : ℕ
  pub pc : ℕ → Pc
  pub gets : ℕ
  pub puts : ℕ

pub data Action : Type 0 where
  semaphore_get : (t : ℕ) → Action
  semaphore_put : (t : ℕ) → Action
  go : (t : ℕ) → Event → Action

-- A thread that is in no call starts one, and a return leaves the call.
abbrev pub start : Pc → Pc → Pc
start call idle = call
start call (failed e) = call
start call pc = pc

abbrev pub leave : Pc → Pc
leave got = idle
leave given = idle
leave p = p

-- Whether a return is one of 0 from `semaphore_get`, or from `semaphore_put`.
abbrev pub took : Pc → ℕ
took got = 1
took _ = 0

abbrev pub gave : Pc → ℕ
gave given = 1
gave _ = 0

unfoldable pub settle : System → ℕ → ℕ → Pc → System
settle y t word p = record {
  count = word;
  pc = update y.pc t (leave p);
  gets = y.gets + took p;
  puts = y.puts + gave p;
}

module _ (max_count : ℕ) where
  unfoldable pub act : Action → System → System
  unfolding step settle
  act (semaphore_get t) y = record y { pc = update y.pc t (start getting (y.pc t)) }
  act (semaphore_put t) y = record y { pc = update y.pc t (start putting (y.pc t)) }
  act (go t e) y = let (word, p) = step max_count e y.count (y.pc t) in settle y t word p

  unfoldable pub run : List Action → System → System
  unfolding act
  run [] y = y
  run (a ∷ rest) y = run rest (act a y)
