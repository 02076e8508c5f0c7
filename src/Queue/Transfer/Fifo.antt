-- ===== src/Queue/Transfer/Fifo.antt =====
-- A queue of sdk/lib/queue/queue.cc is first in, first out, whatever the interleaving of its sender,
-- its receiver and the threads that wait for their locks.
use cheriot_rtos.Base.{
  ℕ, ◌+◌, ◌-◌, ◌*◌, ◌%◌, ◌≤◌, ◌<◌, ◌≡◌, ltb, if◌then◌else◌, ap, ap₂, ◌∙◌, arith, sym, subst, List,
}
use cheriot_rtos.Queue.Counter.{items_remaining}
use cheriot_rtos.Queue.Counter.Laws.{IsCapacity, items_remaining-mod}
use cheriot_rtos.Queue.Transfer.{
  counter_load, finished, head, ended, System, Action, run, returned, int_of,
}
use cheriot_rtos.Queue.Transfer.Inv.{Inv, SendAt, ReceiveAt}
use cheriot_rtos.Queue.Transfer.Inv.Steps.{run-Inv}

module _ {E : Type 0} where
  -- A queue at rest, `p0` of whose elements were ever sent and `c0` received, and two calls on it that
  -- have just taken their locks.
  pub record IsStart (n p0 c0 : ℕ) (y : System E) : Type 0 where
    pub capacity : IsCapacity n
    pub size : y.queue.queue_size ≡ n
    pub behind : c0 ≤ p0
    pub near : p0 ≤ c0 + n
    pub producer : counter_load y.queue.producer ≡ p0 % (2 * n)
    pub consumer : counter_load y.queue.consumer ≡ c0 % (2 * n)
    pub send_head : y.sender.pc ≡ head
    pub receive_head : y.receiver.pc ≡ head
    pub send_ret : y.sender.ret ≡ 0
    pub receive_ret : y.receiver.ret ≡ 0

  -- The elements in the order in which they are sent, by their number: those in the queue, then those
  -- of the sender's buffer.
  abbrev pub stream : ℕ → ℕ → System E → ℕ → E
  stream n p0 y a = if ltb a p0 then y.queue.slots (a % n) else y.sender.buffer (a - p0)

  IsStart-Inv :
      {n p0 c0 : ℕ} {y : System E}
      → IsStart n p0 c0 y
      → Inv n p0 c0 y.sender.count y.receiver.count (stream n p0 y) y.queue y.sender y.receiver
  IsStart-Inv {n} {p0} {c0} {y} st = record {
    capacity = capacity;
    size = size;
    asked = omega arith;
    wanted = omega arith;
    behind = omega arith;
    near = omega arith;
    producer = producer ∙ ap (λ t. t % (2 * n)) (omega arith);
    consumer = consumer ∙ ap (λ t. t % (2 * n)) (omega arith);
    held = λ a ge lt. ground arith;
    source = λ i. ground (arith, ap y.sender.buffer (e i));
    taken = λ i lt. absurd (omega arith);
    sender =
        subst
          (SendAt n (stream n p0 y) (p0 + y.sender.ret) (c0 + y.receiver.ret) y.queue.slots
            y.sender.count)
          (sym send_head) tt;
    receiver =
        subst
          (ReceiveAt n (stream n p0 y) (p0 + y.sender.ret) (c0 + y.receiver.ret) y.receiver.buffer
            y.receiver.ret y.receiver.count)
          (sym receive_head) tt;
  }
    where
      open st use {
        capacity, size, behind, near, producer, consumer, send_head, receive_head, send_ret,
        receive_ret,
      }

      e : (i : ℕ) → p0 + i - p0 ≡ i
      e i = omega arith

  -- After any interleaving of a sender, a receiver and the threads that contend for their locks, the
  -- receiver's buffer holds the first elements of the stream in order, the slots from the consumer's
  -- index on hold the next ones, and `items_remaining` counts them: none is lost, repeated or
  -- reordered, and at most `n` are in the queue.
  pub run-fifo :
      (n p0 c0 : ℕ) (y : System E) (actions : List Action)
      → IsStart n p0 c0 y
      → let z = run actions y in
        let items =
          items_remaining n (counter_load z.queue.producer) (counter_load z.queue.consumer) in
        ((i : ℕ) → i < z.receiver.ret → z.receiver.buffer i ≡ stream n p0 y (c0 + i))
        × ((i : ℕ)
            → i < items
            → z.queue.slots ((c0 + z.receiver.ret + i) % n)
              ≡ stream n p0 y (c0 + z.receiver.ret + i))
        × (c0 + z.receiver.ret + items ≡ p0 + z.sender.ret)
        × (items ≤ n)
  run-fifo n p0 c0 y actions st = (
    inv.taken,
    (λ i lt. inv.held (c0 + inv_ret + i) (omega arith) (omega (arith, counted, inv.near))),
    omega (arith, counted, inv.behind),
    omega (arith, counted, inv.near),
  )
    where
      inv :
          Inv n p0 c0 y.sender.count y.receiver.count
            (stream n p0 y)
            (run actions y).queue
            (run actions y).sender
            (run actions y).receiver
      inv = run-Inv n p0 c0 _ _ (stream n p0 y) actions y (IsStart-Inv st)

      inv_ret : ℕ
      inv_ret = (run actions y).receiver.ret

      counted :
          items_remaining n
            (counter_load (run actions y).queue.producer)
            (counter_load (run actions y).queue.consumer)
          ≡ p0 + (run actions y).sender.ret - (c0 + (run actions y).receiver.ret)
      counted =
          ap₂ (items_remaining n) inv.producer inv.consumer
          ∙ items_remaining-mod n _ _ inv.capacity inv.behind inv.near

  -- A send whose loop is done returns the number of elements that it was asked for, as an `int`: the number
  -- itself if it is below 2 ^ 31, and otherwise, for a number below 2 ^ 32, the negative number that is
  -- 2 ^ 32 less.
  pub run-send_returned :
      (n p0 c0 : ℕ) (y : System E) (actions : List Action)
      → IsStart n p0 c0 y
      → (run actions y).sender.pc ≡ ended finished
      → returned (run actions y).sender finished ≡ int_of y.sender.count
  unfolding returned
  run-send_returned n p0 c0 y actions st done = ap int_of (
      omega (
        arith,
        inv.asked,
        subst
            (SendAt n (stream n p0 y) (p0 + z.sender.ret) (c0 + z.receiver.ret) z.queue.slots
              z.sender.count)
            done inv.sender,
      ))
    where
      z : System E
      z = run actions y

      inv : Inv n p0 c0 y.sender.count y.receiver.count (stream n p0 y) z.queue z.sender z.receiver
      inv = run-Inv n p0 c0 _ _ (stream n p0 y) actions y (IsStart-Inv st)

  -- A receive whose loop is done returns the number of elements that it was asked for, as an `int`.
  pub run-receive_returned :
      (n p0 c0 : ℕ) (y : System E) (actions : List Action)
      → IsStart n p0 c0 y
      → (run actions y).receiver.pc ≡ ended finished
      → returned (run actions y).receiver finished ≡ int_of y.receiver.count
  unfolding returned
  run-receive_returned n p0 c0 y actions st done = ap int_of (
      omega (
        arith,
        inv.wanted,
        subst
            (ReceiveAt n (stream n p0 y) (p0 + z.sender.ret) (c0 + z.receiver.ret) z.receiver.buffer
              z.receiver.ret z.receiver.count)
            done inv.receiver,
      ))
    where
      z : System E
      z = run actions y

      inv : Inv n p0 c0 y.sender.count y.receiver.count (stream n p0 y) z.queue z.sender z.receiver
      inv = run-Inv n p0 c0 _ _ (stream n p0 y) actions y (IsStart-Inv st)
