-- ===== src/LinkedList/Emplace.antt =====
-- What the comments of sdk/include/ds/linked_list.h promise of its operations: emplacing a cell is
-- resetting and inserting it, and removing what was inserted undoes the insertion.
use cheriot_rtos.Base.{ℕ, ◌≡◌, ◌≢◌, sym, ap₂, ◌∙◌, fun_ext, update, update_self, arith}
use cheriot_rtos.LinkedList.{
  Cells, cell_reset, insert_before, emplace_before, emplace_after, remove,
}
use cheriot_rtos.LinkedList.Insert.{insert_before-links}
use cheriot_rtos.LinkedList.Remove.{cleft, remove-links}

-- Emplacing a cell that is neither `curr` nor the one before it leaves the same links as resetting it
-- and inserting it before `curr`.
pub emplace_before-insert_before :
    (s : Cells) (curr elem : ℕ)
    → curr ≢ elem
    → s.prev curr ≢ elem
    → emplace_before s curr elem ≡ insert_before (cell_reset s elem) curr elem
unfolding emplace_before insert_before cell_reset
emplace_before-insert_before s curr elem h k =
    ap₂ (λ p n. record { prev = p; next = n }) (fun_ext λ u. ground arith)
      (fun_ext λ u. ground arith)

pub emplace_after-insert_before :
    (s : Cells) (curr elem : ℕ)
    → curr ≢ elem
    → s.next curr ≢ elem
    → emplace_after s curr elem ≡ insert_before (cell_reset s elem) elem curr
unfolding emplace_after insert_before cell_reset
emplace_after-insert_before s curr elem h k =
    ap₂ (λ p n. record { prev = p; next = n }) (fun_ext λ u. ground arith)
      (fun_ext λ u. ground arith)

-- Inserting a ring before `curr` and removing the inserted span, from the cell behind `elem` to `elem`,
-- gives every link back, and returns the cell before `curr`, when the cells beside the two are linked to
-- them and the two rings are not one.
pub insert_before-remove :
    (s : Cells) (curr elem : ℕ)
    → s.next (s.prev curr) ≡ curr
    → s.prev (s.next elem) ≡ elem
    → s.prev curr ≢ elem
    → s.next elem ≢ curr
    → remove (insert_before s curr elem) (s.next elem) elem
      ≡ record { handle = s.prev curr; cells = s }
insert_before-remove s curr elem before after far near =
    let n = s.next elem in
    let p = s.prev curr in
    let t : Cells = record {
      prev = update (update s.prev n p) curr elem;
      next = update (update s.next p n) elem curr;
    } in
    let next_elem : t.next elem ≡ curr = update_self (update s.next p n) elem curr in
    let prev_n : t.prev n ≡ p = ground arith in
    rw (insert_before-links s curr elem far) (
      remove-links t n elem (λ e. near (sym e ∙ next_elem))
      ∙ ap₂ (λ z w. record { handle = z; cells = cleft t n elem z w }) prev_n next_elem
      ∙ ap₂ (λ f g. record { handle = p; cells = record { prev = f; next = g } })
          (fun_ext λ u. ground arith) (fun_ext λ u. ground arith))
