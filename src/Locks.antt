-- ===== src/Locks.antt =====
-- The locks of sdk/lib/locks, as steps on the word that a futex guards.
pub mod Condition
pub mod Once
pub mod Barrier
pub mod Flag
pub mod Ticket
pub mod Recursive
pub mod Semaphore
