-- ===== src/Queue/Api/Create.antt =====
-- What the entry points of sdk/lib/queue/queue.cc promise.
use cheriot_rtos.Base.{
  ℕ, ◌+◌, ◌*◌, ◌/◌, ◌^◌, ◌<◌, ◌≡◌, ◌&&◌, if◌then◌else◌, ltb, ◌↔◌, refl, Bool, true, false, Option,
  some, arith,
}
use cheriot_rtos.Queue.Counter.{items_remaining, is_full, is_empty}
use cheriot_rtos.Queue.Transfer.{MessageQueue, head, System}
use cheriot_rtos.Queue.Transfer.Fifo.{IsStart}
use cheriot_rtos.Queue.Api.{
  etimedout, ok, minus_einval, queue_allocation_size, queue_create, queue_create_sized, queue_reset,
  queue_items_remaining, multiwaiter_queue_send_init, multiwaiter_queue_receive_init,
}

-- If the elements and the header fit in 32 bits and the counters, which run to twice the number of
-- elements, stay clear of the three reserved bits, `queue_allocation_size` returns the size of header and
-- elements as a 32-bit word, and otherwise -EINVAL; the word is a number that is not negative exactly if
-- the size fits in 31 bits and the counters stay clear.
pub queue_allocation_size_lem :
    (element_size element_count : ℕ)
    → let size = queue_allocation_size element_size element_count in
      let bytes = 16 + element_count * element_size in
      (size
        ≡ (if ltb bytes (2 ^ 32) && ltb (2 * element_count) (2 ^ 29) then bytes else minus_einval))
      × ((size < 2 ^ 31) ↔ ((bytes < 2 ^ 31) × (2 * element_count < 2 ^ 29)))
unfolding queue_allocation_size
queue_allocation_size_lem element_size element_count =
    (ground arith, (λ h. ground arith, λ h. ground arith))

module _ {E : Type 0} where
  abbrev pub calls : MessageQueue E → (ℕ → E) → ℕ → (ℕ → E) → ℕ → System E
  calls q source sent target wanted = record {
    queue = q;
    sender = record { buffer = source; count = sent; ret = 0; should_wake = false; pc = head };
    receiver = record { buffer = target; count = wanted; ret = 0; should_wake = false; pc = head };
  }

  sized-IsStart :
      (heap_allocate : ℕ → Option (ℕ → E)) (element_size element_count size : ℕ)
      (q : MessageQueue E) (source target : ℕ → E) (sent wanted : ℕ)
      → 0 < element_count
      → (size < 2 ^ 31 → 2 * element_count < 2 ^ 29)
      → queue_create_sized heap_allocate element_size element_count size ≡ ok q
      → IsStart element_count 0 0 (calls q source sent target wanted)
  unfolding queue_create_sized
  sized-IsStart heap_allocate element_size element_count size q source target sent wanted pos fits
        made =
      let signed : size < 2 ^ 31 = ground (arith, made) in
      let small = fits signed in
      record {
        capacity = record { positive = pos; small = small };
        size = ground (arith, made);
        behind = omega arith;
        near = omega arith;
        producer = ground (arith, made);
        consumer = ground (arith, made);
        send_head = refl;
        receive_head = refl;
        send_ret = refl;
        receive_ret = refl;
      }

  -- A queue that `queue_create` has made for at least one element is ready for calls that send and
  -- receive any number of elements: it is empty, and of a capacity that its counters can bear.
  pub queue_create-IsStart :
      (heap_allocate : ℕ → Option (ℕ → E)) (element_size element_count : ℕ) (q : MessageQueue E)
      (source target : ℕ → E) (sent wanted : ℕ)
      → 0 < element_count
      → queue_create heap_allocate element_size element_count ≡ ok q
      → IsStart element_count 0 0 (calls q source sent target wanted)
  unfolding queue_create
  queue_create-IsStart heap_allocate element_size element_count q source target sent wanted pos
        made =
      sized-IsStart heap_allocate element_size element_count _ q source target sent wanted pos
        (λ signed. ((queue_allocation_size_lem element_size element_count).1.0 signed).1) made

  -- `queue_reset` reports a timeout whether or not it gets its locks; with both of them it empties the
  -- queue and keeps the reserved bits of both words, and otherwise it changes nothing.
  pub queue_reset_lem :
      (q : MessageQueue E) (producer_locked consumer_locked : Bool)
      → let emptied = (queue_reset true true q).1 in
        ((queue_reset producer_locked consumer_locked q).0 ≡ some etimedout)
        × (queue_items_remaining emptied ≡ 0)
        × (emptied.producer / 2 ^ 29 ≡ q.producer / 2 ^ 29)
        × (emptied.consumer / 2 ^ 29 ≡ q.consumer / 2 ^ 29)
        × ((queue_reset producer_locked false q).1 ≡ q)
        × ((queue_reset false consumer_locked q).1 ≡ q)
  unfolding queue_reset queue_items_remaining items_remaining
  queue_reset_lem q true true = (refl, ground arith, omega arith, omega arith, refl, refl)
  queue_reset_lem q true false = (refl, ground arith, omega arith, omega arith, refl, refl)
  queue_reset_lem q false true = (refl, ground arith, omega arith, omega arith, refl, refl)
  queue_reset_lem q false false = (refl, ground arith, omega arith, omega arith, refl, refl)

  -- While the reserved bits of its words are clear, a multiwaiter waits for a word of the queue to
  -- change (rather than finding it different from the value at once) exactly if a send would block as
  -- the queue is full, and the same of a receive from an empty queue.
  pub multiwaiter_queue_init_lem :
      (q : MessageQueue E)
      → q.producer < 2 ^ 29
      → q.consumer < 2 ^ 29
      → ((multiwaiter_queue_send_init q ≡ q.consumer)
          ↔ (is_full q.queue_size q.producer q.consumer ≡ true))
        × ((multiwaiter_queue_receive_init q ≡ q.producer)
            ↔ (is_empty q.producer q.consumer ≡ true))
  unfolding multiwaiter_queue_send_init multiwaiter_queue_receive_init is_full is_empty
  multiwaiter_queue_init_lem q p c = (
    ((λ h. ground (arith, h)), (λ h. ground (arith, h))),
    ((λ h. ground (arith, h)), (λ h. ground (arith, h))),
  )
