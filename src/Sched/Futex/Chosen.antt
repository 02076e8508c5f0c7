-- ===== src/Sched/Futex/Chosen.antt =====
-- The threads that `futex_wake` of sdk/core/scheduler/main.cc is to wake, of those that wait.
use cheriot_rtos.Base.{
  ℕ, zero, suc, Bool, false, Bool-cases, inl, inr, ◌||◌, List, [], ◌∷◌, All, if◌then◌else◌,
}

-- The first `n` elements that pass a test, and the list without them.
module _ (passes : ℕ → Bool) where
  abbrev pub chosen : ℕ → List ℕ → List ℕ
  chosen zero xs = []
  chosen (suc n) [] = []
  chosen (suc n) (x ∷ xs) = if passes x then x ∷ chosen n xs else chosen (suc n) xs

  abbrev pub left_over : ℕ → List ℕ → List ℕ
  left_over zero xs = xs
  left_over (suc n) [] = []
  left_over (suc n) (x ∷ xs) = if passes x then left_over n xs else x ∷ left_over (suc n) xs

  abbrev pub any : List ℕ → Bool
  any [] = false
  any (x ∷ xs) = passes x || any xs

  pub All-chosen : (P : ℕ → Type 0) (n : ℕ) (xs : List ℕ) → All P xs → All P (chosen n xs)
  All-chosen P zero xs h = tt
  All-chosen P (suc n) [] h = tt
  All-chosen P (suc n) (x ∷ xs) h = elim (Bool-cases (passes x)) [
    | inl yes_x ↦ rw yes_x (h.0, All-chosen P n xs h.1)
    | inr no_x ↦ rw no_x (All-chosen P (suc n) xs h.1)
  ]
