-- ===== src/Tests/Queue.antt =====
-- A queue of two elements: its counters, and a sender of three elements beside a receiver of three.
use cheriot_rtos.Base.{ℕ, ◌+◌, ◌%◌, ◌≤◌, ◌<◌, ◌≡◌, refl, arith, false, List, [], ◌∷◌}
use cheriot_rtos.Queue.Counter.{add_and_wrap, items_remaining, is_full, is_empty, index_at_counter}
use cheriot_rtos.Queue.Counter.Laws.{IsCapacity}
use cheriot_rtos.Queue.Transfer.{
  counter_load, proceed, finished, head, ended, System, Action, send, receive, flag_producer, run,
  elements_to_copy, copy_in, copy_out, wait, returned, elements,
}
use cheriot_rtos.Queue.Transfer.Fifo.{IsStart, stream, run-fifo, run-send_returned}

two : IsCapacity 2
two = record { positive = omega arith; small = omega arith }

-- The sender's elements are 5, 6, 7; one element, 4, is in the queue's last slot.
abbrev start : System ℕ
start = record {
  queue = record {
    element_size = 4;
    queue_size = 2;
    producer = 2;
    consumer = 1;
    slots = λ i. 3 + i;
  };
  sender = record { buffer = λ i. 5 + i; count = 3; ret = 0; should_wake = false; pc = head };
  receiver = record { buffer = λ i. 0; count = 3; ret = 0; should_wake = false; pc = head };
}

start-IsStart : IsStart 2 2 1 start
start-IsStart = record {
  capacity = two;
  size = refl;
  behind = omega arith;
  near = omega arith;
  producer = refl;
  consumer = refl;
  send_head = refl;
  receive_head = refl;
  send_ret = refl;
  receive_ret = refl;
}

-- A round of one side.
abbrev sends : List Action → List Action
sends rest = send proceed ∷ send proceed ∷ send proceed ∷ send proceed ∷ send proceed ∷ rest

abbrev receives : List Action → List Action
receives rest =
    receive proceed ∷ receive proceed ∷ receive proceed ∷ receive proceed ∷ receive proceed ∷ rest

abbrev actions : List Action
actions =
    flag_producer 1
    ∷ sends (receives (receives (sends (sends (receives (send proceed ∷ receive proceed ∷ []))))))

sender_done : (run actions start).sender.pc ≡ ended finished
unfolding run elements_to_copy copy_in copy_out wait is_full is_empty add_and_wrap index_at_counter
    items_remaining
sender_done = refl

receiver_done : (run actions start).receiver.pc ≡ ended finished
unfolding run elements_to_copy copy_in copy_out wait is_full is_empty add_and_wrap index_at_counter
    items_remaining
receiver_done = refl

run-fifo_example :
    let z = run actions start in
    let items = items_remaining 2 (counter_load z.queue.producer) (counter_load z.queue.consumer) in
    ((i : ℕ) → i < z.receiver.ret → z.receiver.buffer i ≡ stream 2 2 start (1 + i))
    × ((i : ℕ)
        → i < items
        → z.queue.slots ((1 + z.receiver.ret + i) % 2) ≡ stream 2 2 start (1 + z.receiver.ret + i))
    × (1 + z.receiver.ret + items ≡ 2 + z.sender.ret)
    × (items ≤ 2)
run-fifo_example = run-fifo 2 2 1 start actions start-IsStart

run-send_returned_example : returned (run actions start).sender finished ≡ elements 3
run-send_returned_example = run-send_returned 2 2 1 start actions start-IsStart sender_done
