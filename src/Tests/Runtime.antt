-- ===== src/Tests/Runtime.antt =====
-- Divisions of the compiler runtime.
use cheriot_rtos.Base.{◌^◌, ◌≡◌, arith, some}
use cheriot_rtos.Arith64.{divmoddi4}
use cheriot_rtos.Arith64.Divide.{divmoddi4_lem}

divmoddi4_lem_example : divmoddi4 (2 ^ 40) 7 ≡ some (157073089682, 2)
divmoddi4_lem_example = divmoddi4_lem (2 ^ 40) 7 (omega arith) (omega arith)
