-- ===== src/Queue/Lock/Races.antt =====
-- What `HighBitFlagLock` of sdk/lib/queue/queue.cc does alone, and what it does in races.
use cheriot_rtos.Base.{ℕ, ◌^◌, ◌<◌, ◌≡◌, ◌≢◌, refl, true, false, arith, ne→==, ==-refl}
use cheriot_rtos.Queue.Transfer.{counter_load}
use cheriot_rtos.Queue.Lock.{
  lock_bit, waiters_bit, destruct_bit, has, Wake, woken, looping, holding, looked, slept, try_lock,
  unlock_exchange, upgrade_for_destruction,
}

-- A free lock that is not set for destruction is taken in two steps if no other thread acts between
-- them, its counter and its waiters bit stay, and a release gives the word back.
pub try_lock-unlock_exchange :
    (word : ℕ) (e e' : Wake)
    → word < 2 ^ 32
    → has lock_bit word ≡ false
    → has destruct_bit word ≡ false
    → let loaded = try_lock e word looping in
      let taken = try_lock e' loaded.0 loaded.1 in
      (taken.1 ≡ holding)
      × (has lock_bit taken.0 ≡ true)
      × (counter_load taken.0 ≡ counter_load word)
      × ((unlock_exchange taken.0 taken.0).0 ≡ word)
unfolding try_lock looked unlock_exchange
try_lock-unlock_exchange word e e' small free alive = (
  ground (arith, ==-refl word),
  ground (arith, ==-refl word),
  ground (arith, ==-refl word),
  ground (arith, ==-refl word),
)

-- A thread that finds the lock held, without waiters, and then finds that the word has changed to one
-- in which the lock is still held (its holder has moved the counter, or another thread has added the
-- waiters bit) believes after two more steps that it holds the lock, and leaves the word as it is.
pub try_lock-held_changed :
    (value word : ℕ) (e₁ e₂ e₃ : Wake)
    → has destruct_bit value ≡ false
    → has lock_bit value ≡ true
    → has waiters_bit value ≡ false
    → has lock_bit word ≡ true
    → word ≢ value
    → let found = try_lock e₁ value looping in
      let raced = try_lock e₂ word found.1 in try_lock e₃ raced.0 raced.1 ≡ (word, holding)
unfolding try_lock looked
try_lock-held_changed value word e₁ e₂ e₃ alive held no_waiters still n =
    rw (alive, held, no_waiters, ne→== word value n, ==-refl word, still) refl

-- A thread that waits for a lock with waiters, and is woken when the word is again what it was, with
-- the lock held by another thread, believes that it holds the lock, and leaves the word as it is.
pub try_lock-held_again :
    (word : ℕ) (e₁ e₃ : Wake)
    → has destruct_bit word ≡ false
    → has lock_bit word ≡ true
    → has waiters_bit word ≡ true
    → let found = try_lock e₁ word looping in
      let waited = try_lock woken word found.1 in try_lock e₃ waited.0 waited.1 ≡ (word, holding)
unfolding try_lock looked slept
try_lock-held_again word e₁ e₃ alive held waiters =
    rw (alive, held, waiters, ==-refl word, held) refl

-- A destruction bit that is set between the two accesses of a release is lost: the word that the
-- release leaves is free and not set for destruction.
pub upgrade-lost :
    (word : ℕ)
    → word < 2 ^ 32
    → has lock_bit word ≡ true
    → has destruct_bit word ≡ false
    → let upgraded = (upgrade_for_destruction word).0 in
      let left = (unlock_exchange word upgraded).0 in
      (has destruct_bit upgraded ≡ true)
      × (has destruct_bit left ≡ false)
      × (has lock_bit left ≡ false)
unfolding upgrade_for_destruction unlock_exchange
upgrade-lost word small held alive = (ground arith, ground arith, ground arith)
