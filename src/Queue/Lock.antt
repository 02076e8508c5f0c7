-- ===== src/Queue/Lock.antt =====
-- `HighBitFlagLock` of sdk/lib/queue/queue.cc: the lock in the three high bits of a counter's word, one
-- access to the word at a time.
pub mod Races
use cheriot_rtos.Base.{ℕ, ◌+◌, ◌-◌, ◌*◌, ◌/◌, ◌%◌, ◌^◌, Bool, true, false, ◌==◌, if◌then◌else◌}

-- `LockBit`, `WaitersBit` and `LockedInDestructModeBit`.
abbrev pub lock_bit : ℕ
lock_bit = 2 ^ 31

abbrev pub waiters_bit : ℕ
waiters_bit = 2 ^ 30

abbrev pub destruct_bit : ℕ
destruct_bit = 2 ^ 29

abbrev pub has : ℕ → ℕ → Bool
has bit word = word / bit % 2 == 1

-- `word | bit` and `word & ~bit`, for a single bit.
abbrev pub with_bit : ℕ → ℕ → ℕ
with_bit bit word = if has bit word then word else word + bit

abbrev pub without_bit : ℕ → ℕ → ℕ
without_bit bit word = if has bit word then word - bit else word

-- How a wait on the futex ends.
pub data Wake : Type 0 where
  woken times_out : Wake

-- Where a thread stands in `try_lock`, with its local `value`: `trying` is the condition of the loop, to
-- which `continue` goes.
pub data Pc : Type 0 where
  looping : Pc
  adding : (value : ℕ) → Pc
  sleeping : (value : ℕ) → Pc
  trying : (value : ℕ) → Pc
  holding : Pc
  failed : Pc

-- The body of the loop with the value that it loads, up to its first access to the word.
unfoldable pub looked : ℕ → Pc
looked value =
    if has destruct_bit value
    then failed
    else if has lock_bit value
    then (if has waiters_bit value then sleeping value else adding value)
    else trying value

unfoldable pub slept : Wake → Bool → ℕ → Pc
slept times_out true value = failed
slept _ _ value = trying value

-- One step of `try_lock`: the new word and where the thread then is. A compare-and-exchange that fails
-- leaves in `value` the word that it found.
unfoldable pub try_lock : Wake → ℕ → Pc → ℕ × Pc
unfolding looked slept
try_lock e word looping = (word, looked word)
try_lock e word (adding value) =
    if word == value then (with_bit waiters_bit value, sleeping value) else (word, trying word)
try_lock e word (sleeping value) = (word, slept e (word == value) value)
try_lock e word (trying value) =
    if word == value then (with_bit lock_bit value, holding) else (word, looping)
try_lock e word pc = (word, pc)

-- The second step of `unlock`, after it has loaded `value`: the new word, and whether it wakes waiters.
unfoldable pub unlock_exchange : ℕ → ℕ → ℕ × Bool
unlock_exchange value word = (without_bit lock_bit value, has waiters_bit word)

-- `upgrade_for_destruction`: the same. The source reads the word again after it has set the bit; the two
-- accesses are one step here.
unfoldable pub upgrade_for_destruction : ℕ → ℕ × Bool
upgrade_for_destruction word =
    let word' = with_bit destruct_bit word in (word', has waiters_bit word')
