-- ===== src/Sched.antt =====
-- The scheduler, sdk/core/scheduler.
pub mod Links
pub mod State
pub mod Thread
pub mod Timer
pub mod Walk
pub mod MultiWaiter
pub mod Futex
pub mod Entry
