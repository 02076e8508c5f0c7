-- ===== src/Tests/RingBuffer.antt =====
-- A ring of three slots, whose capacity is no power of two.
use cheriot_rtos.Base.{ℕ, ◌≡◌, arith, false, List, [], ◌∷◌}
use cheriot_rtos.RingBuffer.{
  Shape, Ring, reset, Op, produce, consume, nothing, no_room, done, element, replies,
}
use cheriot_rtos.RingBuffer.Index.{IsShape}
use cheriot_rtos.RingBuffer.Refine.{replies-list, reset-Holds}

abbrev three : Shape
three = record { capacity = 3; width = 8; power_of_two = false }

three-IsShape : IsShape three
three-IsShape = record {
  positive = omega arith;
  wide = omega arith;
  small = λ other. omega arith;
  whole = λ h. ground (arith, h);
}

abbrev fresh : Ring ℕ
fresh = record { cursors = reset three; slots = λ i. 0 }

abbrev ops : List (Op ℕ)
ops = consume ∷ produce 5 ∷ produce 6 ∷ produce 7 ∷ produce 8 ∷ consume ∷ produce 9 ∷ consume ∷ []

replies-list_example :
    replies three ops fresh
    ≡ nothing ∷ done ∷ done ∷ done ∷ no_room ∷ element 5 ∷ done ∷ element 6 ∷ []
replies-list_example =
    replies-list three three-IsShape ops fresh [] (reset-Holds three three-IsShape (λ i. 0))
