-- ===== src/Queue/Transfer/Room.antt =====
-- The room that one round of `queue_send_multiple` or `queue_receive_multiple` finds: the copy stays
-- inside the buffer, and within the free or filled slots. Counts are unbounded here.
use native.Mathlib.Nat.{mod-lt, mod-eq_of_lt, div-add-mod, mul-add-mod_self_left, add_assoc}
use cheriot_rtos.Base.{
  ℕ, ◌+◌, ◌*◌, ◌/◌, ◌%◌, ◌≤◌, ◌<◌, ◌≡◌, ◌≢◌, sym, ap, ◌∙◌, arith, dec_le, ◌⊎◌, inl, inr,
}
use cheriot_rtos.Queue.Transfer.{elements_to_copy}

-- The quotient of the later count is at least that of the earlier.
div_mono : (n a b : ℕ) → 0 < n → a ≤ b → n * (a / n) ≤ n * (b / n)
div_mono n a b pos h = grind arith

-- At most a lap apart, two counts lie on the same lap or on neighbouring ones.
laps :
    (n a b : ℕ)
    → 0 < n
    → a ≤ b
    → b ≤ a + n
    → (n * (b / n) ≡ n * (a / n)) ⊎ (n * (b / n) ≡ n * (a / n) + n)
laps n a b pos le near = elim (dec_le (b / n) (a / n)) [
  | yes same ↦ inl (grind (arith, div_mono n a b pos le))
  | no other ↦ elim (dec_le (b / n) (a / n + 1)) [
    | yes next ↦ inr (grind arith)
    | no far ↦ absurd (grind (arith, mod-lt a pos, mod-lt b pos, div-add-mod a n, div-add-mod b n))
  ]
]

-- Indices of one round do not wrap.
pub mod-add_of_room : (n a j : ℕ) → 0 < n → a % n + j < n → (a + j) % n ≡ a % n + j
mod-add_of_room n a j pos h =
    ap (λ t. t % n) (ap (λ t. t + j) (sym (div-add-mod a n)) ∙ add_assoc _ (a % n) j)
    ∙ mul-add-mod_self_left n (a / n) (a % n + j)
    ∙ mod-eq_of_lt h

-- Two counts less than a lap apart name two slots.
pub mod_ne : (n a b : ℕ) → 0 < n → a < b → b < a + n → a % n ≢ b % n
mod_ne n a b pos lt near e =
    omega (arith, laps n a b pos (omega arith) (omega arith), div-add-mod a n, div-add-mod b n)

-- The sender's round: `received` is the count that it read from the consumer's word.
pub send_room :
    (n count sent received : ℕ)
    → 0 < n
    → received ≤ sent
    → sent < received + n
    → let k = elements_to_copy n count (sent % n) (received % n) in
      (sent % n + k ≤ n) × (sent + k ≤ received + n) × (k ≤ count) × (0 < count → 0 < k)
unfolding elements_to_copy
send_room n count sent received pos le room = ground (
  arith,
  laps n received sent pos le (omega arith),
  div-add-mod sent n,
  div-add-mod received n,
  mod-lt sent pos,
  mod-lt received pos,
)

-- The receiver's round: `sent` is the count that it read from the producer's word.
pub receive_room :
    (n count received sent : ℕ)
    → 0 < n
    → received < sent
    → sent ≤ received + n
    → let k = elements_to_copy n count (received % n) (sent % n) in
      (received % n + k ≤ n) × (received + k ≤ sent) × (k ≤ count) × (0 < count → 0 < k)
unfolding elements_to_copy
receive_room n count received sent pos lt near = ground (
  arith,
  laps n received sent pos (omega arith) near,
  div-add-mod sent n,
  div-add-mod received n,
  mod-lt sent pos,
  mod-lt received pos,
)
