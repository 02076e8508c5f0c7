-- ===== src/LinkedList/Sentinel.antt =====
-- `Sentinel` of sdk/include/ds/linked_list.h: the list of the cells of a ring but one, the sentinel, which
-- is given by its number.
pub mod Refine
pub mod Sequence
use cheriot_rtos.Base.{ℕ, Bool, Option}
use cheriot_rtos.LinkedList.{
  Cells, Removal, Visit, cell_reset, is_singleton, insert_before, emplace_before, unsafe_remove,
  unsafe_remove_link,
}
use cheriot_rtos.LinkedList

unfoldable pub reset : Cells → ℕ → Cells
reset s sentinel = cell_reset s sentinel

unfoldable pub is_empty : Cells → ℕ → Bool
is_empty s sentinel = is_singleton s sentinel

unfoldable pub append : Cells → ℕ → ℕ → Cells
append s sentinel elem = insert_before s sentinel elem

unfoldable pub append_emplace : Cells → ℕ → ℕ → Cells
append_emplace s sentinel elem = emplace_before s sentinel elem

unfoldable pub prepend : Cells → ℕ → ℕ → Cells
prepend s sentinel elem = insert_before s elem sentinel

unfoldable pub first : Cells → ℕ → ℕ
first s sentinel = s.next sentinel

unfoldable pub last : Cells → ℕ → ℕ
last s sentinel = s.prev sentinel

unfoldable pub unsafe_take_first : Cells → ℕ → Removal
unsafe_take_first s sentinel =
    let f = s.next sentinel in record { handle = f; cells = unsafe_remove_link s sentinel f }

unfoldable pub take_all : Cells → ℕ → Removal
take_all s sentinel =
    let removal = unsafe_remove s sentinel sentinel in
    record { handle = removal.handle; cells = cell_reset removal.cells sentinel }

unfoldable pub search : ℕ → (ℕ → Cells → Visit) → Cells → ℕ → Option (Bool × Cells)
search fuel f s sentinel = LinkedList.search fuel f s sentinel
