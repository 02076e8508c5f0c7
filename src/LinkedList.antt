-- ===== src/LinkedList.antt =====
-- The intrusive doubly linked rings of sdk/include/ds/linked_list.h. A cell is a number, and the links of
-- all cells are two functions: `cell_next` and `cell_prev` are read and written at the moment the source
-- follows the proxy. A callback of `search` may write the cells, and the pointer it is passed.
pub mod Route
pub mod Insert
pub mod Remove
pub mod Emplace
pub mod Search
pub mod Sentinel
use cheriot_rtos.Base.{
  ℕ, zero, suc, Bool, true, false, Option, none, some, ◌==◌, ◌&&◌, if◌then◌else◌, update,
}

pub record Cells : Type 0 where
  pub prev : ℕ → ℕ
  pub next : ℕ → ℕ

-- `e->cell_next() = v` and `e->cell_prev() = v`.
abbrev pub set_next : Cells → ℕ → ℕ → Cells
set_next s e v = record s { next = update s.next e v }

abbrev pub set_prev : Cells → ℕ → ℕ → Cells
set_prev s e v = record s { prev = update s.prev e v }

unfoldable pub cell_reset : Cells → ℕ → Cells
cell_reset s e = set_prev (set_next s e e) e e

unfoldable pub is_singleton : Cells → ℕ → Bool
is_singleton s e = e == s.prev e

unfoldable pub is_singleton_check : Cells → ℕ → Bool
is_singleton_check s e = (e == s.next e) && (e == s.prev e)

unfoldable pub is_doubleton : Cells → ℕ → Bool
is_doubleton s e = s.prev e == s.next e

unfoldable pub is_well_formed : Cells → ℕ → Bool
is_well_formed s e = (e == s.next (s.prev e)) && (e == s.prev (s.next e))

-- Four writes, each of which reads the cells as the one before left them.
unfoldable pub insert_before : Cells → ℕ → ℕ → Cells
insert_before s curr elem =
    let s₁ = set_next s (s.prev curr) (s.next elem) in
    let s₂ = set_prev s₁ (s₁.next elem) (s₁.prev curr) in
    let s₃ = set_prev s₂ curr elem in set_next s₃ elem curr

-- `prev` is a proxy of the link of `curr`, and not a copy.
unfoldable pub emplace_before : Cells → ℕ → ℕ → Cells
emplace_before s curr elem =
    let s₁ = set_next s elem curr in
    let s₂ = set_prev s₁ elem (s₁.prev curr) in
    let s₃ = set_next s₂ (s₂.prev curr) elem in set_prev s₃ curr elem

unfoldable pub emplace_after : Cells → ℕ → ℕ → Cells
emplace_after s curr elem =
    let s₁ = set_prev s elem curr in
    let s₂ = set_next s₁ elem (s₁.next curr) in
    let s₃ = set_prev s₂ (s₂.next curr) elem in set_next s₃ curr elem

-- What an operation returns, and the cells as it leaves them.
pub record Removal : Type 0 where
  pub handle : ℕ
  pub cells : Cells

unfoldable pub unsafe_remove : Cells → ℕ → ℕ → Removal
unsafe_remove s el er =
    let s₁ = set_prev s (s.next er) (s.prev el) in
    let s₂ = set_next s₁ (s₁.prev el) (s₁.next er) in record { handle = s₂.prev el; cells = s₂ }

unfoldable pub unsafe_remove_link : Cells → ℕ → ℕ → Cells
unsafe_remove_link s before rem =
    let s₁ = set_next s before (s.next rem) in set_prev s₁ (s₁.next rem) before

unfoldable pub remove : Cells → ℕ → ℕ → Removal
unfolding unsafe_remove
remove s el er =
    let removal = unsafe_remove s el er in
    let s₁ = set_prev removal.cells el er in
    record { handle = removal.handle; cells = set_next s₁ er el }

-- What a callback of `search` leaves: its answer, the pointer it was passed, and the cells.
pub record Visit : Type 0 where
  pub stop : Bool
  pub elem : ℕ
  pub cells : Cells

-- `search` of a span; `none` is fuel that runs out.
unfoldable pub search_span : ℕ → (ℕ → Cells → Visit) → Cells → ℕ → ℕ → Option (Bool × Cells)
search_span zero f s from to = none
search_span (suc fuel) f s from to =
    let visit = f from s in
    let rest = search_span fuel f visit.cells (visit.cells.next visit.elem) to in
    if from == to then some (false, s) else if visit.stop then some (true, visit.cells) else rest

unfoldable pub search : ℕ → (ℕ → Cells → Visit) → Cells → ℕ → Option (Bool × Cells)
unfolding search_span
search fuel f s elem = search_span fuel f s (s.next elem) elem
