-- ===== src/Tests.antt =====
-- Runs of the components at small inputs.
mod Queue
mod Allocator
mod QueueApi
mod Sched
mod Futex
mod Schedule
mod FlagLock
mod TicketLock
mod Mutex
mod EventGroup
mod Strings
mod Runtime
mod RingBuffer
mod LinkedList
mod Contention
mod SoftwareRevoker
