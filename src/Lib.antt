-- ===== src/Lib.antt =====
-- A model of the CHERIoT real-time operating system's core logic: the message queue library, the
-- scheduler's thread lists, threads, timer, futexes, multiwaiters and entry, the locks, the event groups,
-- the allocator's claims and quotas, 64-bit division, the cursors of ring buffers, the
-- intrusive lists, the software revoker, and some of the string functions.
--
-- Parts:
--   Base            shared names: Boolean tests on numbers, lists, machine words, updates of functions.
--   Queue           sdk/lib/queue/queue.cc: Queue/Counter is the wrapping counters, Queue/Transfer the loops
--                   of queue_send_multiple and queue_receive_multiple, one shared access a step, with
--                   the events of the rest of the system (wake-ups, timeouts, traps, flags set by lock
--                   contenders) as the actions of an interleaving. Queue/Lock is the lock
--                   in a counter's word, and Queue/Api the other entry points.
--   Sched           sdk/core/scheduler: Sched/Links is the circular lists of thread.h, Sched/State the fields
--                   of ThreadImpl and its statics, Sched/Thread the operations of ThreadImpl, and
--                   Sched/Timer the expiry of timeouts of timer.h. Sched/Walk is walk_thread_list,
--                   Sched/MultiWaiter is multiwait.h, and Sched/Futex and Sched/Entry are the futexes and
--                   exception_entry of main.cc. `none` is a failed assertion or a null pointer that is
--                   followed.
--   Locks           sdk/lib/locks: Locks/Flag, Locks/Ticket and Locks/Recursive are the locks of locks.cc, and
--                   Locks/Semaphore is semaphore.cc, Locks/Barrier is barrier.cc, Locks/Condition is
--                   condition_variable.cc and Locks/Once is once.cc, each as steps on the word that a futex
--                   guards.
--   EventGroup      sdk/lib/event_group/event_group.cc: the waits, and the bits that end them.
--   Strings         functions of sdk/lib/string on a memory of bytes.
--   Allocator       sdk/core/allocator/main.cc: who owns and claims a heap object, and what quotas pay for it.
--   Arith64         sdk/lib/crt/arith64.c: 64-bit division on words that are numbers below 2 ^ 64.
--   RingBuffer      sdk/include/ds/ring_buffer.h: the cursors, and the workflows of their clients.
--   LinkedList      sdk/include/ds/linked_list.h: rings of cells, and in LinkedList/Sentinel the list that a ring
--                   is seen from its sentinel.
--   SoftwareRevoker sdk/core/software_revoker/revoker.cc: the passes over the memory that clear capabilities to
--                   freed memory, and the questions of the allocator in sdk/core/allocator/revoker.h.
--   AtomicLock      sdk/include/c++-config/atomic: flag_lock, the lock of an atomic that is too large for the
--                   machine.
--   Tests           runs of the components at small inputs.
--
-- The queue's threads suspend threads by the scheduler's futexes, which Queue/Transfer sees as the
-- events `proceed` and `times_out`. The timer, the futexes and the multiwaiters wake threads by
-- `make_ready` of Sched/Thread, which takes them off the lists of Sched/Links, and exception_entry puts
-- these together with `schedule`. Waits on futexes in Queue and Locks may end at any time, as the callers
-- allow, but in Locks/Once only by a wake-up. A queue's memory comes from the allocator, a parameter; the
-- allocator's claims see its chunks through what the chunk allocator returns.
--
-- Bounds and fuel: a queue's capacity is below 2 ^ 28, as queue_allocation_size enforces, so that its
-- counters stay clear of the three lock bits. The scan of a thread list is given as fuel the number of
-- threads, and ends within the length of the list. `expire_loop` and the walks are given the number of
-- threads, and a search of a ring the number of its cells. The region of the revoker is below 2 ^ 32 words.
-- The `int` and the `ssize_t` that the queue returns are 32-bit words, negative from 2 ^ 31 on. A capacity
-- of RingBuffer that is no power of two is at most 1 more than half the range of the index type.
--
-- Not modelled: a 64-bit division by 0, the switcher and token library (assembly), the loader, device
-- registers, debug output, inspection of capabilities, and copies of other projects (number parsing and
-- printing, the memory functions, too), and so far the allocator's chunks and quarantine, the scheduler's
-- initialisation, the clocks, the thread pool and the compartment around the message queue. A call of
-- Queue/Transfer runs as the only sender or the only receiver, which is what the lock of Queue/Lock is
-- for.
pub mod Queue
pub mod Locks
pub mod EventGroup
pub mod Strings
pub mod Allocator
pub mod Arith64
pub mod RingBuffer
pub mod Sched
pub mod Base
mod Tests
pub mod LinkedList
pub mod SoftwareRevoker
pub mod AtomicLock
