-- ===== src/Tests/QueueApi.antt =====
-- The lock in a queue's words in races, and the making, resetting and inspection of a queue.
use cheriot_rtos.Base.{◌-◌, ℕ, ◌+◌, ◌*◌, ◌^◌, ◌<◌, ◌≡◌, ◌↔◌, refl, arith, true, false, Option, some}
use cheriot_rtos.Queue.Lock.{
  lock_bit, destruct_bit, has, woken, looping, holding, try_lock, unlock_exchange,
  upgrade_for_destruction,
}
use cheriot_rtos.Queue.Lock.Races.{try_lock-held_changed, try_lock-held_again, upgrade-lost}
use cheriot_rtos.Queue.Transfer.{MessageQueue}
use cheriot_rtos.Queue.Transfer.Fifo.{IsStart}
use cheriot_rtos.Queue.Api.{
  ok, minus_einval, queue_allocation_size, queue_create, queue_create_sized, new_queue,
}
use cheriot_rtos.Queue.Api.Create.{calls, queue_allocation_size_lem, queue_create-IsStart}

-- The holder moves its counter from 5 to 6.
try_lock-held_changed_example :
    let found = try_lock woken (2 ^ 31 + 5) looping in
    let raced = try_lock woken (2 ^ 31 + 6) found.1 in
    try_lock woken raced.0 raced.1 ≡ (2 ^ 31 + 6, holding)
try_lock-held_changed_example =
    try_lock-held_changed (2 ^ 31 + 5) (2 ^ 31 + 6) woken woken woken refl refl refl refl
      (omega arith)

try_lock-held_again_example :
    let found = try_lock woken (2 ^ 31 + 2 ^ 30 + 5) looping in
    let waited = try_lock woken (2 ^ 31 + 2 ^ 30 + 5) found.1 in
    try_lock woken waited.0 waited.1 ≡ (2 ^ 31 + 2 ^ 30 + 5, holding)
try_lock-held_again_example = try_lock-held_again (2 ^ 31 + 2 ^ 30 + 5) woken woken refl refl refl

upgrade-lost_example :
    let upgraded = (upgrade_for_destruction (2 ^ 31 + 5)).0 in
    let left = (unlock_exchange (2 ^ 31 + 5) upgraded).0 in
    (has destruct_bit upgraded ≡ true)
    × (has destruct_bit left ≡ false)
    × (has lock_bit left ≡ false)
upgrade-lost_example = upgrade-lost (2 ^ 31 + 5) (omega arith) refl refl

queue_allocation_size_lem_example :
    (queue_allocation_size (2 ^ 32 - 38) 1 ≡ minus_einval)
    × ((queue_allocation_size (2 ^ 32 - 38) 1 < 2 ^ 31)
        ↔ ((16 + 1 * (2 ^ 32 - 38) < 2 ^ 31) × (2 * 1 < 2 ^ 29)))
queue_allocation_size_lem_example = queue_allocation_size_lem (2 ^ 32 - 38) 1

abbrev allocate : ℕ → Option (ℕ → ℕ)
allocate size = some (λ i. 0)

abbrev new : MessageQueue ℕ
new = new_queue (λ i. 0) 4 2

created : queue_create allocate 4 2 ≡ ok new
unfolding queue_create queue_allocation_size queue_create_sized
created = refl

queue_create-IsStart_example : IsStart 2 0 0 (calls new (λ i. i) 3 (λ i. 0) 3)
queue_create-IsStart_example =
    queue_create-IsStart allocate 4 2 new (λ i. i) (λ i. 0) 3 3 (omega arith) created

abbrev used : MessageQueue ℕ
used = record new { producer = 2; consumer = 0 }
