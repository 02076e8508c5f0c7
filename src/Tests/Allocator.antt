-- ===== src/Tests/Allocator.antt =====
-- An object of 40 bytes that capability 1 owns, and that capability 2 claims.
use cheriot_rtos.Base.{
  ℕ, ◌≤◌, ◌≡◌, refl, arith, true, false, Option, some, none, List, [], ◌∷◌, All, ◌==◌, ltb,
  if◌then◌else◌,
}
use cheriot_rtos.Allocator.{Heap, HeapOp, claims, frees, heap_claim, heap_free, heap_run}
use cheriot_rtos.Allocator.Conserve.{holding, IsSolvent, IsPaid, heap_run-conserves}

-- A chunk for a claim takes 24 bytes of the quota.
abbrev claim_block : ℕ → Option ℕ
claim_block quota = if ltb quota 24 then none else some 24

abbrev owned : Heap
owned = record {
  quotas = λ id. if id == 1 then 60 else 100;
  chunk = record { size = 40; owner_id = 1; claims = [] };
  live = true;
}

-- The owner frees the object, which stays until the claim is dropped.
abbrev uses : List HeapOp
uses = claims claim_block 2 ∷ frees true true false 1 ∷ frees false true false 2 ∷ []

uses_end :
    ((heap_run uses owned).live ≡ false)
    × ((heap_run (claims claim_block 2 ∷ []) owned).quotas 2 ≡ 36)
unfolding heap_claim heap_free
uses_end = (refl, refl)

claim_block-le : (quota block : ℕ) → claim_block quota ≡ some block → block ≤ quota
claim_block-le quota block e = ground (arith, e)

uses-IsPaid : All IsPaid uses
uses-IsPaid = ((omega arith, claim_block-le), (omega arith, (omega arith, tt)))

owned-IsSolvent : IsSolvent owned
owned-IsSolvent = record { small = λ id n. ground arith; free = λ gone id n. ground (arith, gone) }

heap_run-conserves_example :
    (holding (heap_run uses owned) 2 ≡ 100)
    × ((heap_run uses owned).live ≡ false → (heap_run uses owned).quotas 2 ≡ 100)
heap_run-conserves_example =
    heap_run-conserves uses owned uses-IsPaid owned-IsSolvent 2 (omega arith)
