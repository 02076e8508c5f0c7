-- ===== src/Tests/LinkedList.antt =====
-- A sentinel, cell 0, and cells that are rings of their own until they are inserted.
use cheriot_rtos.Base.{ℕ, ◌≡◌, refl, false, some, [], ◌∷◌, All, ltb, arith}
use cheriot_rtos.LinkedList.{Cells, insert_before, remove, search}
use cheriot_rtos.LinkedList.Route.{IsRing, IsRing-rotate}
use cheriot_rtos.LinkedList.Remove.{remove-cleaves}
use cheriot_rtos.LinkedList.Emplace.{insert_before-remove}
use cheriot_rtos.LinkedList.Search.{removing, search-removes}
use cheriot_rtos.LinkedList.Sentinel.{append}
use cheriot_rtos.LinkedList.Sentinel.Sequence.{prepend_cell, operate, operate-listed}

abbrev loose : Cells
loose = record { prev = λ i. i; next = λ i. i }

loose-IsRing : (e : ℕ) → IsRing loose (e ∷ [])
loose-IsRing e = ((tt, tt), tt, (refl, refl))

-- The sentinel, with cells 1, 2 and 3 behind it.
abbrev listed_cells : Cells
listed_cells = append (append (append loose 0 1) 0 2) 0 3

listed_cells-IsRing : IsRing listed_cells (0 ∷ 1 ∷ 2 ∷ 3 ∷ [])
unfolding append insert_before
listed_cells-IsRing = ground arith

loose_4 : IsRing listed_cells (4 ∷ [])
unfolding append insert_before
loose_4 = ground arith

operate-listed_example : IsRing (operate listed_cells 0 (prepend_cell 4)) (0 ∷ 4 ∷ 1 ∷ 2 ∷ 3 ∷ [])
operate-listed_example =
    operate-listed listed_cells 0 (1 ∷ 2 ∷ 3 ∷ []) (prepend_cell 4) listed_cells-IsRing
      (loose_4, omega arith)

remove-cleaves_example :
    ((remove listed_cells 1 2).handle ≡ 0)
    × IsRing (remove listed_cells 1 2).cells (1 ∷ 2 ∷ [])
    × IsRing (remove listed_cells 1 2).cells (3 ∷ 0 ∷ [])
remove-cleaves_example =
    remove-cleaves listed_cells 1 3 (2 ∷ []) (0 ∷ [])
      (IsRing-rotate listed_cells 0 1 [] (2 ∷ 3 ∷ []) listed_cells-IsRing)

insert_before-remove_example :
    remove (insert_before listed_cells 0 4) 4 4 ≡ record { handle = 3; cells = listed_cells }
unfolding append insert_before
insert_before-remove_example =
    insert_before-remove listed_cells 0 4 refl refl (omega arith) (omega arith)

search-removes_example :
    (t : Cells) × (search 4 (removing (λ i. ltb i 3)) listed_cells 0 ≡ some (false, t))
    × IsRing t (0 ∷ 3 ∷ [])
    × All (λ x. IsRing t (x ∷ [])) (1 ∷ 2 ∷ [])
search-removes_example =
    search-removes (λ i. ltb i 3) listed_cells 0 (1 ∷ 2 ∷ 3 ∷ []) listed_cells-IsRing
