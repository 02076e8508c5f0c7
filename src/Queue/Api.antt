-- ===== src/Queue/Api.antt =====
-- The entry points of sdk/lib/queue/queue.cc that make, reset, stop and inspect a queue. Sizes are those
-- of a 32-bit machine: a queue's header has 16 bytes, and `size_t` wraps at 2 ^ 32.
pub mod Create
use cheriot_rtos.Base.{
  ℕ, ◌+◌, ◌-◌, ◌*◌, ◌/◌, ◌%◌, ◌^◌, Bool, true, false, not, ◌||◌, Option, none, some, ◌==◌, leb, ltb,
  if◌then◌else◌,
}
use cheriot_rtos.Queue.Counter.{items_remaining, is_full, is_empty}
use cheriot_rtos.Queue.Lock.{upgrade_for_destruction}
use cheriot_rtos.Queue.Transfer.{counter_load, counter_store, MessageQueue, Returned, elements}

pub data Errno : Type 0 where
  einval enomem etimedout other : Errno

pub data Result (A : Type 0) : Type 0 where
  ok : A → Result A
  err : Errno → Result A

-- Some of the three reserved bits of a word is set.
abbrev pub is_reserved : ℕ → Bool
is_reserved word = not (word / 2 ^ 29 == 0)

-- `-EINVAL`, as a word of 32 bits.
abbrev pub minus_einval : ℕ
minus_einval = 2 ^ 32 - 22

-- `queue_allocation_size`: the size in bytes or `-EINVAL`, as the word of the `ssize_t` that it returns,
-- which is negative from 2 ^ 31 on.
unfoldable pub queue_allocation_size : ℕ → ℕ → ℕ
queue_allocation_size element_size element_count =
    let buffer_size = element_count * element_size in
    let alloc_size = 16 + buffer_size % 2 ^ 32 in
    if leb (2 ^ 32) buffer_size || leb (2 ^ 32) alloc_size
    then minus_einval
    else if is_reserved element_count || is_reserved (element_count * 2 % 2 ^ 32)
    then minus_einval
    else alloc_size

module _ {E : Type 0} where
  -- The constructor of `MessageQueue`, on memory that the allocator has zeroed.
  abbrev pub new_queue : (ℕ → E) → ℕ → ℕ → MessageQueue E
  new_queue zeroed element_size element_count = record {
    element_size = element_size;
    queue_size = element_count;
    producer = 0;
    consumer = 0;
    slots = zeroed;
  }

  -- What `queue_create` does with the size.
  unfoldable pub queue_create_sized : (ℕ → Option (ℕ → E)) → ℕ → ℕ → ℕ → Result (MessageQueue E)
  queue_create_sized heap_allocate element_size element_count size =
      if leb (2 ^ 31) size then err einval else (elim (heap_allocate size) [
        | none ↦ err enomem
        | some zeroed ↦ ok (new_queue zeroed element_size element_count)
      ])

  -- `queue_create`. The allocator is a parameter: it gives the elements in the new memory, if any.
  unfoldable pub queue_create : (ℕ → Option (ℕ → E)) → ℕ → ℕ → Result (MessageQueue E)
  unfolding queue_create_sized
  queue_create heap_allocate element_size element_count =
      queue_create_sized heap_allocate element_size element_count
        (queue_allocation_size element_size element_count)

  -- `queue_stop`.
  unfoldable pub queue_stop : MessageQueue E → MessageQueue E
  queue_stop q = record q {
    producer = (upgrade_for_destruction q.producer).0;
    consumer = (upgrade_for_destruction q.consumer).0;
  }

  -- `queue_destroy`. The allocator is a parameter: what `heap_can_free` and `heap_free` return, where
  -- `none` is success. The result has the queue that the other threads see.
  unfoldable pub queue_destroy :
      Option Errno → Option Errno → MessageQueue E → Option Errno × MessageQueue E
  unfolding queue_stop
  queue_destroy (some e) heap_free q = (some e, q)
  queue_destroy none heap_free q = (heap_free, queue_stop q)

  -- `queue_reset`, by whether it gets the producer's lock and then the consumer's. The locks' bits are
  -- set and cleared around it.
  unfoldable pub queue_reset : Bool → Bool → MessageQueue E → Option Errno × MessageQueue E
  queue_reset true true q = (
    some etimedout,
    record q { producer = counter_store q.producer 0; consumer = counter_store q.consumer 0 },
  )
  queue_reset _ _ q = (some etimedout, q)

  -- `queue_items_remaining`.
  unfoldable pub queue_items_remaining : MessageQueue E → ℕ
  queue_items_remaining q =
      items_remaining q.queue_size (counter_load q.producer) (counter_load q.consumer)

  -- The value that `multiwaiter_queue_send_init` waits on to change in the consumer's word.
  unfoldable pub multiwaiter_queue_send_init : MessageQueue E → ℕ
  multiwaiter_queue_send_init q =
      let producer = counter_load q.producer in
      let consumer = counter_load q.consumer in
      if is_full q.queue_size producer consumer then consumer else 2 ^ 32 - 1

  -- The value that `multiwaiter_queue_receive_init` waits on to change in the producer's word.
  unfoldable pub multiwaiter_queue_receive_init : MessageQueue E → ℕ
  multiwaiter_queue_receive_init q =
      let producer = counter_load q.producer in
      let consumer = counter_load q.consumer in
      if is_empty producer consumer then producer else 2 ^ 32 - 1

-- `queue_send` and `queue_receive` of one element: the minimum of 0 and the result.
abbrev pub single : Returned → Returned
single (elements n) = elements 0
single e = e
