-- ===== src/Queue.antt =====
-- The message queue library, sdk/lib/queue/queue.cc.
pub mod Counter
pub mod Lock
pub mod Transfer
pub mod Api
