-- ===== src/Queue/Transfer.antt =====
-- `queue_send_multiple` and `queue_receive_multiple` of sdk/lib/queue/queue.cc, between the acquisition
-- of their locks and their release, one shared access at a time. At most one sender and one receiver
-- run, as the lock in each counter's word is to ensure.
pub mod Room
pub mod Inv
pub mod Fifo
use cheriot_rtos.Base.{
  ℕ, ◌+◌, ◌-◌, ◌*◌, ◌/◌, ◌%◌, ◌^◌, min, Bool, ◌&&◌, ◌||◌, ◌==◌, leb, ltb, if◌then◌else◌, List, [],
  ◌∷◌,
}
use cheriot_rtos.Queue.Counter.{add_and_wrap, is_full, is_empty, index_at_counter}

-- `counter & ~reserved_bits()`, and `(old & reserved_bits()) | value` for a value that leaves the three
-- reserved high bits clear.
abbrev pub counter_load : ℕ → ℕ
counter_load word = word % 2 ^ 29

abbrev pub counter_store : ℕ → ℕ → ℕ
counter_store old value = old / 2 ^ 29 * 2 ^ 29 + value

-- What the rest of the system decides at a step: that a blocked thread is woken, or times out, and
-- after how many elements a copy traps.
pub data Event : Type 0 where
  proceed : Event
  times_out : Event
  traps : ℕ → Event

-- How a call ends: the loop is done, the wait timed out, or the copy trapped.
pub data Outcome : Type 0 where
  finished timed_out permission : Outcome

-- Where a call stands in its loop, with the locals that are live there: `mine` is the counter that the
-- call owns, `theirs` the word that it loaded from the other side.
pub data Pc : Type 0 where
  head : Pc
  loaded : (mine : ℕ) → Pc
  checking : (mine theirs : ℕ) → Pc
  copied : (mine amount : ℕ) → Pc
  published : (mine : ℕ) → Pc
  ended : Outcome → Pc

module _ {E : Type 0} where
  -- memcpy of `amount` elements.
  abbrev pub copy : (ℕ → E) → ℕ → (ℕ → E) → ℕ → ℕ → ℕ → E
  copy to at from start amount x =
      if leb at x && ltb x (at + amount) then from (start + (x - at)) else to x

-- `struct MessageQueue`. A slot stands for the `elementSize` bytes of one element.
pub record MessageQueue (E : Type 0) : Type 0 where
  pub element_size : ℕ
  pub queue_size : ℕ
  pub producer : ℕ
  pub consumer : ℕ
  pub slots : ℕ → E

-- The caller's buffer (`src` or `dst`, in elements) and the locals of a call.
pub record Call (E : Type 0) : Type 0 where
  pub buffer : ℕ → E
  pub count : ℕ
  pub ret : ℕ
  pub should_wake : Bool
  pub pc : Pc

-- The number of elements that one round copies: up to the other side's index, or to the end of the
-- buffer if that index is not ahead.
unfoldable pub elements_to_copy : ℕ → ℕ → ℕ → ℕ → ℕ
elements_to_copy size count start other =
    let limit = if leb other start then size else other in min count (limit - start)

module _ {E : Type 0} (q : MessageQueue E) (s : Call E) where
  -- `consumer->wait` or `producer->wait`: it sleeps only while the word is the one loaded before.
  unfoldable pub wait : Event → ℕ → ℕ → ℕ → MessageQueue E × Call E
  wait times_out word mine value =
      if word == value
      then (q, record s { pc = ended timed_out })
      else (q, record s { pc = loaded mine })
  wait _ word mine value = (q, record s { pc = loaded mine })

  -- The `memcpy` into the queue at index `start`.
  unfoldable pub copy_in : Event → ℕ → ℕ → ℕ → MessageQueue E × Call E
  copy_in (traps n) p start amount = (
    record q { slots = copy q.slots start s.buffer s.ret (min n amount) },
    record s { pc = ended permission },
  )
  copy_in _ p start amount = (
    record q { slots = copy q.slots start s.buffer s.ret amount },
    record s { pc = copied p amount },
  )

  -- The `memcpy` out of the queue from index `start`.
  unfoldable pub copy_out : Event → ℕ → ℕ → ℕ → MessageQueue E × Call E
  copy_out (traps n) c start amount = (
    q,
    record s { buffer = copy s.buffer s.ret q.slots start (min n amount); pc = ended permission },
  )
  copy_out _ c start amount =
      (q, record s { buffer = copy s.buffer s.ret q.slots start amount; pc = copied c amount })

  -- One step of `queue_send_multiple`.
  unfoldable pub send_step : Event → Pc → MessageQueue E × Call E
  send_step e head =
      if s.count == 0
      then (q, record s { pc = ended finished })
      else (q, record s { pc = loaded (counter_load q.producer) })
  send_step e (loaded p) = (q, record s { pc = checking p q.consumer })
  send_step e (checking p value) =
      let start = index_at_counter q.queue_size p in
      let other = index_at_counter q.queue_size (counter_load value) in
      if is_full q.queue_size p (counter_load value)
      then wait e q.consumer p value
      else copy_in e p start (elements_to_copy q.queue_size s.count start other)
  send_step e (copied p amount) = (
    record q { producer = counter_store q.producer (add_and_wrap q.queue_size p amount) },
    record s { ret = s.ret + amount; count = s.count - amount; pc = published p },
  )
  send_step e (published p) = (
    q,
    record s { should_wake = s.should_wake || is_empty p (counter_load q.consumer); pc = head },
  )
  send_step e (ended o) = (q, s)

  -- One step of `queue_receive_multiple`.
  unfoldable pub receive_step : Event → Pc → MessageQueue E × Call E
  receive_step e head =
      if s.count == 0
      then (q, record s { pc = ended finished })
      else (q, record s { pc = loaded (counter_load q.consumer) })
  receive_step e (loaded c) = (q, record s { pc = checking c q.producer })
  receive_step e (checking c value) =
      let start = index_at_counter q.queue_size c in
      let other = index_at_counter q.queue_size (counter_load value) in
      if is_empty (counter_load value) c
      then wait e q.producer c value
      else copy_out e c start (elements_to_copy q.queue_size s.count start other)
  receive_step e (copied c amount) = (
    record q { consumer = counter_store q.consumer (add_and_wrap q.queue_size c amount) },
    record s { ret = s.ret + amount; count = s.count - amount; pc = published c },
  )
  receive_step e (published c) = (
    q,
    record s {
      should_wake = s.should_wake || is_full q.queue_size (counter_load q.producer) c;
      pc = head;
    },
  )
  receive_step e (ended o) = (q, s)

-- The queue with its sender and its receiver.
pub record System (E : Type 0) : Type 0 where
  pub queue : MessageQueue E
  pub sender : Call E
  pub receiver : Call E

-- Who acts next. Contenders for a lock, and `queue_stop`, change the reserved bits of a word at any time.
pub data Action : Type 0 where
  send : Event → Action
  receive : Event → Action
  flag_producer : (bits : ℕ) → Action
  flag_consumer : (bits : ℕ) → Action

abbrev pub set_flags : ℕ → ℕ → ℕ
set_flags word bits = bits * 2 ^ 29 + counter_load word

unfoldable pub act : {E : Type 0} → Action → System E → System E
unfolding send_step receive_step
act (send e) y =
    let (q, s) = send_step y.queue y.sender e y.sender.pc in record y { queue = q; sender = s }
act (receive e) y =
    let (q, r) = receive_step y.queue y.receiver e y.receiver.pc in
    record y { queue = q; receiver = r }
act (flag_producer bits) y = record y {
  queue = record (y.queue) { producer = set_flags y.queue.producer bits };
}
act (flag_consumer bits) y = record y {
  queue = record (y.queue) { consumer = set_flags y.queue.consumer bits };
}

-- Any interleaving is a list of actions.
unfoldable pub run : {E : Type 0} → List Action → System E → System E
unfolding act
run [] y = y
run (a ∷ rest) y = run rest (act a y)

-- The `int` that a call returns: the number of elements, a negated error, or another negative number.
pub data Returned : Type 0 where
  elements : ℕ → Returned
  negative : ℕ → Returned
  etimedout : Returned
  eperm : Returned

-- `ret` is an `int`: a count of elements is added to it modulo 2 ^ 32, and is negative from 2 ^ 31 on.
abbrev pub int_of : ℕ → Returned
int_of ret =
    if ltb (ret % 2 ^ 32) (2 ^ 31)
    then elements (ret % 2 ^ 32)
    else negative (2 ^ 32 - ret % 2 ^ 32)

unfoldable pub returned : {E : Type 0} → Call E → Outcome → Returned
returned s finished = int_of s.ret
returned s timed_out = if s.ret % 2 ^ 32 == 0 then etimedout else int_of s.ret
returned s permission = eperm
