-- ===== src/Locks/Flag.antt =====
-- `InternalFlagLock` of sdk/lib/locks/locks.cc, one access to the lock word at a time. Assertions that
-- only debugging builds compile are not modelled.
pub mod Inv
pub mod Exclusion
use cheriot_rtos.Base.{
  ℕ, ◌+◌, ◌*◌, ◌/◌, ◌%◌, ◌^◌, Bool, true, false, not, ◌==◌, if◌then◌else◌, update, List, [], ◌∷◌,
}

-- The error numbers that a call returns, negated.
pub data Errno : Type 0 where
  etimedout enoent einval eoverflow : Errno

-- The bits of the word: `Locked` is bit 16, `LockedWithWaiters` bit 17, `LockedInDestructMode` bit 18.
abbrev pub locked : ℕ
locked = 2 ^ 16

abbrev pub locked_with_waiters : ℕ
locked_with_waiters = 2 ^ 17

abbrev pub locked_in_destruct_mode : ℕ
locked_in_destruct_mode = 2 ^ 18

abbrev pub has_waiters : ℕ → Bool
has_waiters word = word / 2 ^ 17 % 2 == 1

abbrev pub in_destruct_mode : ℕ → Bool
in_destruct_mode word = word / 2 ^ 18 % 2 == 1

-- What the rest of the system decides at a step: whether the timeout may still block, and how a wait
-- on the futex ends.
pub data Event : Type 0 where
  proceed : Event
  may_not_block : Event
  wait_fails : Errno → Event

-- Where a thread stands in `try_lock`, with its local `old`.
pub data Pc : Type 0 where
  idle : Pc
  trying : Pc
  adding : (old : ℕ) → Pc
  sleeping : (old : ℕ) → Pc
  holding : Pc
  failed : Errno → Pc

-- The tests after the first compare-and-exchange has failed, with the value `old` that it found.
unfoldable pub contended : Event → ℕ → Pc
contended may_not_block old = failed etimedout
contended _ old = if has_waiters old then sleeping old else adding old

unfoldable pub blocked : Event → ℕ → Pc
unfolding contended
blocked e old = if in_destruct_mode old then failed enoent else contended e old

-- The end of `lockWord.wait`: it returns at once if the word is not the expected one.
unfoldable pub slept : Event → Bool → ℕ → Pc
slept (wait_fails r) true old = failed r
slept _ _ old = trying

-- One step of `try_lock` by a thread with identifier `id`: the new word and where the thread then is.
unfoldable pub try_lock : Event → ℕ → ℕ → Pc → ℕ × Pc
unfolding blocked slept
try_lock e id word trying = if word == 0 then (locked + id, holding) else (word, blocked e word)
try_lock e id word (adding old) =
    let added = locked_with_waiters + old % 2 ^ 16 in
    if word == old then (added, sleeping added) else (word, trying)
try_lock e id word (sleeping old) = (word, slept e (word == old) old)
try_lock e id word pc = (word, pc)

-- `owner()`.
abbrev pub owner : ℕ → ℕ
owner word = word % 2 ^ 16

-- `unlock()`: the new word, and whether it wakes all waiters.
unfoldable pub unlock : ℕ → ℕ × Bool
unlock word = (word / 2 ^ 18 % 2 * 2 ^ 18, has_waiters word)

-- `upgrade_for_destruction()`: the same. The source reads the word again after it has set the bit; the two
-- accesses are one step here.
unfoldable pub upgrade_for_destruction : ℕ → ℕ × Bool
upgrade_for_destruction word =
    let word' = if in_destruct_mode word then word else word + locked_in_destruct_mode in
    (word', has_waiters word')

-- A lock and the threads that use it.
pub record System : Type 0 where
  pub lock_word : ℕ
  pub pc : ℕ → Pc

-- Who acts next: a thread calls `try_lock`, takes a step in it, releases the lock that it holds, or any
-- thread sets the lock for destruction. A thread whose call failed may call again.
pub data Action : Type 0 where
  call : (t : ℕ) → Action
  step : (t : ℕ) → Event → Action
  release : (t : ℕ) → Action
  destroy : Action

abbrev pub may_call : Pc → Bool
may_call idle = true
may_call (failed r) = true
may_call _ = false

abbrev pub is_holding : Pc → Bool
is_holding holding = true
is_holding _ = false

module _ (thread_id : ℕ → ℕ) where
  unfoldable pub act : Action → System → System
  unfolding try_lock unlock upgrade_for_destruction
  act (call t) y = if may_call (y.pc t) then record y { pc = update y.pc t trying } else y
  act (step t e) y =
      let (word, p) = try_lock e (thread_id t) y.lock_word (y.pc t) in
      record { lock_word = word; pc = update y.pc t p }
  act (release t) y =
      if is_holding (y.pc t)
      then record { lock_word = (unlock y.lock_word).0; pc = update y.pc t idle }
      else y
  act destroy y = record y { lock_word = (upgrade_for_destruction y.lock_word).0 }

  unfoldable pub run : List Action → System → System
  unfolding act
  run [] y = y
  run (a ∷ rest) y = run rest (act a y)
