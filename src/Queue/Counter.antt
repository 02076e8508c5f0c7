-- ===== src/Queue/Counter.antt =====
-- The wrapping counters of a message queue (sdk/lib/queue/queue.cc): `size` is the queue's capacity,
-- and both counters run from 0 up to twice that.
pub mod Laws
use cheriot_rtos.Base.{
  ℕ, zero, suc, ◌+◌, ◌-◌, ◌*◌, Bool, ◌==◌, leb, ltb, if◌then◌else◌, add32, sub32,
}

unfoldable pub increment_and_wrap : ℕ → ℕ → ℕ
increment_and_wrap size counter =
    let next = add32 counter 1 in if (2 * size) == next then 0 else next

unfoldable pub add_and_wrap : ℕ → ℕ → ℕ → ℕ
add_and_wrap size counter addend =
    let sum = add32 counter addend in if leb (2 * size) sum then sub32 sum (2 * size) else sum

-- `(2 * size) - consumer + producer`, or `producer - consumer`, in 32 bits.
unfoldable pub items_remaining : ℕ → ℕ → ℕ → ℕ
items_remaining size producer consumer =
    if ltb producer consumer
    then add32 (sub32 (2 * size) consumer) producer
    else sub32 producer consumer

unfoldable pub is_full : ℕ → ℕ → ℕ → Bool
unfolding items_remaining
is_full size producer consumer = items_remaining size producer consumer == size

unfoldable pub is_empty : ℕ → ℕ → Bool
is_empty producer consumer = producer == consumer

-- `CheckIsFull<Size>::add`, the loop that increments `displacement` times.
unfoldable pub add : ℕ → ℕ → ℕ → ℕ
unfolding increment_and_wrap
add size start zero = start
add size start (suc displacement) = add size (increment_and_wrap size start) displacement

unfoldable pub index_at_counter : ℕ → ℕ → ℕ
index_at_counter queue_size counter =
    if leb queue_size counter then sub32 counter queue_size else counter
