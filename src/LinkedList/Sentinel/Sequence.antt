-- ===== src/LinkedList/Sentinel/Sequence.antt =====
-- The sentinel's list of sdk/include/ds/linked_list.h is a sequence: each operation does to the ring what
-- it is to do to the sequence.
use cheriot_rtos.Base.{ℕ, sym, subst, List, [], ◌∷◌, ◌++◌}
use cheriot_rtos.LinkedList.{Cells}
use cheriot_rtos.LinkedList.Route.{IsRing}
use cheriot_rtos.LinkedList.Remove.{remove-whole}
use cheriot_rtos.LinkedList.Sentinel.{append, append_emplace, prepend, unsafe_take_first, take_all}
use cheriot_rtos.LinkedList.Sentinel
use cheriot_rtos.LinkedList.Sentinel.Refine.{
  IsAway, append-IsRing, cell_reset-IsRing, append_emplace-IsRing, prepend-IsRing,
  unsafe_take_first-IsRing, take_all-remove, take_all-IsRing, take_first-nil,
}

-- The operations on a sentinel's list that change it.
pub data Operation : Type 0 where
  reset_list : Operation
  append_cell : ℕ → Operation
  append_new : ℕ → Operation
  prepend_cell : ℕ → Operation
  take_first : Operation
  take_every : Operation

abbrev pub operate : Cells → ℕ → Operation → Cells
operate s z reset_list = Sentinel.reset s z
operate s z (append_cell e) = append s z e
operate s z (append_new e) = append_emplace s z e
operate s z (prepend_cell e) = prepend s z e
operate s z take_first = (unsafe_take_first s z).cells
operate s z take_every = (take_all s z).cells

-- What they do to the sequence.
abbrev pub listed : List ℕ → Operation → List ℕ
listed xs reset_list = []
listed xs (append_cell e) = xs ++ e ∷ []
listed xs (append_new e) = xs ++ e ∷ []
listed xs (prepend_cell e) = e ∷ xs
listed [] take_first = []
listed (x ∷ xs) take_first = xs
listed xs take_every = []

-- What they ask of a cell: that it is not in the list, and a ring of its own unless it is emplaced.
abbrev pub IsAllowed : Cells → ℕ → List ℕ → Operation → Type 0
IsAllowed s z xs reset_list = Unit
IsAllowed s z xs (append_cell e) = IsRing s (e ∷ []) × IsAway e (z ∷ xs)
IsAllowed s z xs (append_new e) = IsAway e (z ∷ xs)
IsAllowed s z xs (prepend_cell e) = IsRing s (e ∷ []) × IsAway e (z ∷ xs)
IsAllowed s z xs take_first = Unit
IsAllowed s z xs take_every = Unit

-- Each operation on the list of a sentinel, where it is allowed, leaves a ring of the sentinel and the
-- cells that the operation leaves in the sequence: appending adds to its end, emplacing a cell does the
-- same, prepending adds to its front, taking the first removes it, and taking all and a reset empty it.
pub operate-listed :
    (s : Cells) (z : ℕ) (xs : List ℕ) (op : Operation)
    → IsRing s (z ∷ xs)
    → IsAllowed s z xs op
    → IsRing (operate s z op) (z ∷ listed xs op)
unfolding Sentinel.reset
operate-listed s z xs reset_list ring ok = cell_reset-IsRing s z
operate-listed s z xs (append_cell e) ring ok = append-IsRing s z e xs ring ok.0 ok.1
operate-listed s z xs (append_new e) ring ok = append_emplace-IsRing s z e xs ring ok
operate-listed s z xs (prepend_cell e) ring ok = prepend-IsRing s z e xs ring ok.0 ok.1
operate-listed s z [] take_first ring ok = take_first-nil s z ring
operate-listed s z (x ∷ xs) take_first ring ok = (unsafe_take_first-IsRing s z x xs ring).1
operate-listed s z [] take_every ring ok =
    subst (λ r. IsRing r.cells (z ∷ [])) (sym (take_all-remove s z)) (remove-whole s z [] ring).1
operate-listed s z (x ∷ xs) take_every ring ok = (take_all-IsRing s z x xs ring).1
