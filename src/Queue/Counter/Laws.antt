-- ===== src/Queue/Counter/Laws.antt =====
-- The counters of sdk/lib/queue/queue.cc against unbounded counts: a counter is the number of elements
-- ever sent, or received, modulo twice the capacity.
use native.Mathlib.Nat.{mod-lt, mod-eq_of_lt, mod-add-mod, mod-eq-sub-mod, div-add-mod}
use native.Mathlib.Nat.{mul-add-mod_self_left}
use cheriot_rtos.Base.{
  ℕ, zero, suc, ◌+◌, ◌-◌, ◌*◌, ◌/◌, ◌%◌, ◌^◌, ◌≤◌, ◌<◌, ◌≡◌, sym, ap, ◌∙◌, true, ◌↔◌, arith, dec_le,
}
use cheriot_rtos.Queue.Counter.{
  increment_and_wrap, add_and_wrap, items_remaining, is_full, is_empty, add, index_at_counter,
}

-- The sizes that `queue_allocation_size` lets through.
pub record IsCapacity (size : ℕ) : Type 0 where
  pub positive : 0 < size
  pub small : 2 * size < 2 ^ 29

-- A number below twice `m` is reduced modulo `m` by one subtraction.
pub mod_once : (a m : ℕ) → m ≤ a → a < 2 * m → a % m ≡ a - m
mod_once a m h k = mod-eq-sub-mod {n = a} {m = m} h ∙ mod-eq_of_lt {n = a - m} {m = m} (omega arith)

-- A sum below twice the modulus, from the reduced first summand.
mod_sum :
    (total k m : ℕ)
    → 0 < m
    → k ≤ m
    → (m ≤ total % m + k → (total + k) % m ≡ total % m + k - m)
      × (total % m + k < m → (total + k) % m ≡ total % m + k)
mod_sum total k m pos h =
    let below : total % m < m = mod-lt total pos in
    (
      λ ge. sym (mod-add-mod total m k) ∙ mod_once (total % m + k) m ge (omega arith),
      λ lt. sym (mod-add-mod total m k) ∙ mod-eq_of_lt {n = total % m + k} {m = m} lt,
    )

-- Adding to a counter adds to the count that it stands for.
pub add_and_wrap-mod :
    (size total k : ℕ)
    → IsCapacity size
    → k ≤ 2 * size
    → add_and_wrap size (total % (2 * size)) k ≡ (total + k) % (2 * size)
unfolding add_and_wrap
add_and_wrap-mod size total k v h =
    let below : total % (2 * size) < 2 * size = mod-lt total (omega arith) in
    ground (arith, mod_sum total k (2 * size) (omega arith) h)

increment_and_wrap-mod :
    (size total : ℕ)
    → IsCapacity size
    → increment_and_wrap size (total % (2 * size)) ≡ (total + 1) % (2 * size)
unfolding increment_and_wrap
increment_and_wrap-mod size total v =
    let below : total % (2 * size) < 2 * size = mod-lt total (omega arith) in
    ground (arith, mod_sum total 1 (2 * size) (omega arith) (omega arith))

-- Stepping a counter `d` times, as the compile-time check of queue.cc does, adds `d` to its count.
pub add-mod :
    (size total d : ℕ)
    → IsCapacity size
    → add size (total % (2 * size)) d ≡ (total + d) % (2 * size)
unfolding add
add-mod size total zero v = ap (λ t. t % (2 * size)) (omega arith)
add-mod size total (suc d) v =
    ap (λ c. add size c d) (increment_and_wrap-mod size total v)
    ∙ add-mod size (total + 1) d v
    ∙ ap (λ t. t % (2 * size)) (omega arith)

items_remaining_of_add :
    (size received k : ℕ)
    → IsCapacity size
    → k ≤ size
    → items_remaining size ((received + k) % (2 * size)) (received % (2 * size)) ≡ k
unfolding items_remaining
items_remaining_of_add size received k v h =
    let below : received % (2 * size) < 2 * size = mod-lt received (omega arith) in
    ground (arith, mod_sum received k (2 * size) (omega arith) (omega arith))

-- The distance between two counters is the difference of the counts that they stand for.
pub items_remaining-mod :
    (size sent received : ℕ)
    → IsCapacity size
    → received ≤ sent
    → sent ≤ received + size
    → items_remaining size (sent % (2 * size)) (received % (2 * size)) ≡ sent - received
items_remaining-mod size sent received v le near =
    ap (λ t. items_remaining size (t % (2 * size)) (received % (2 * size))) (omega arith)
    ∙ items_remaining_of_add size received (sent - received) v (omega arith)

-- A queue is full exactly when it holds `size` elements, and empty exactly when it holds none, for
-- every capacity: what the compile-time check of queue.cc tries for seven capacities.
pub is_full-is_empty-mod :
    (size sent received : ℕ)
    → IsCapacity size
    → received ≤ sent
    → sent ≤ received + size
    → let p = sent % (2 * size) in
      let c = received % (2 * size) in
      ((is_full size p c ≡ true) ↔ (sent ≡ received + size))
      × ((is_empty p c ≡ true) ↔ (sent ≡ received))
unfolding is_full is_empty
is_full-is_empty-mod size sent received v le near =
    let items = items_remaining-mod size sent received v le near in
    let below : received % (2 * size) < 2 * size = mod-lt received (omega arith) in
    let e : (received + (sent - received)) % (2 * size) ≡ sent % (2 * size) =
      ap (λ t. t % (2 * size)) (omega arith) in
    let sums = mod_sum received (sent - received) (2 * size) (omega arith) (omega arith) in
    (
      (λ h. ground arith, λ h. ground arith),
      (λ h. ground arith, λ h. ground (arith, ap (λ t. t % (2 * size)) h)),
    )

two_residues : (size total : ℕ) → 0 < size → total % size ≡ total % (2 * size) % size
two_residues size total pos =
    ap (λ t. t % size) (sym (div-add-mod total (2 * size)) ∙ regroup)
    ∙ mul-add-mod_self_left size (2 * (total / (2 * size))) (total % (2 * size))
  where
    regroup :
        2 * size * (total / (2 * size)) + total % (2 * size)
        ≡ size * (2 * (total / (2 * size))) + total % (2 * size)
    regroup = omega arith

-- The slot that a counter names is its count modulo the capacity.
pub index_at_counter-mod :
    (size total : ℕ) → IsCapacity size → index_at_counter size (total % (2 * size)) ≡ total % size
unfolding index_at_counter
index_at_counter-mod size total v =
    let below : total % (2 * size) < 2 * size = mod-lt total (omega arith) in
    elim (dec_le size (total % (2 * size))) [
      | yes ge ↦ ground (arith, two_residues size total, mod_once (total % (2 * size)) size ge)
      | no lt ↦ ground (
        arith,
        two_residues size total,
        mod-eq_of_lt {n = total % (2 * size)} {m = size} (omega arith),
      )
    ]
