-- ===== src/Allocator/Conserve.antt =====
-- No quota is lost or gained by claims and frees of a heap object of sdk/core/allocator/main.cc.
use cheriot_rtos.Base.{
  ℕ, ◌+◌, ◌^◌, ◌≤◌, ◌<◌, ◌≡◌, ◌≢◌, refl, sym, ap, ap₂, ◌∙◌, subst, Bool, Bool-cases, inl, inr, true,
  false, ◌&&◌, some, List, [], ◌∷◌, All, ◌==◌, update, update_self, update_ne, arith, ℕ_discrete,
}
use cheriot_rtos.Allocator.{
  Claim, Chunk, Capability, claim_drop, Outcome, is_empty, stays, owner_free, claim_free,
  heap_free_chunk, Heap, capability_of, heap_claim, heap_free, HeapOp, claims, frees, heap_step,
  heap_run,
}
use cheriot_rtos.Allocator.Quotas.{
  charge, claims_charge, IsFair, claim_add-IsFair, heap_free_chunk-IsFair,
}

-- The quota of a capability and what it has paid for.
abbrev pub holding : Heap → ℕ → ℕ
holding h id = h.quotas id + charge id h.chunk

-- No holding exceeds a machine word, and an object that is gone is paid for by nobody.
pub record IsSolvent (h : Heap) : Type 0 where
  pub small : (id : ℕ) → 0 ≢ id → holding h id < 2 ^ 32
  pub free : h.live ≡ false → (id : ℕ) → 0 ≢ id → charge id h.chunk ≡ 0

-- The capability has an identifier, and a chunk for a claim is taken out of the quota.
abbrev pub IsPaid : HeapOp → Type 0
IsPaid (claims space id) = (0 ≢ id) × ((quota block : ℕ) → space quota ≡ some block → block ≤ quota)
IsPaid (frees is_precise really_free free_all id) = 0 ≢ id

-- What is given to the chunk allocator has no owner and no claim.
no_claims : (id size : ℕ) (cs : List Claim) → is_empty cs ≡ true → claims_charge id size cs ≡ 0
no_claims id size [] h = refl
no_claims id size (c ∷ cs) h = ground (arith, h)

unpaid :
    (id : ℕ) (chunk : Chunk)
    → 0 ≢ id
    → chunk.owner_id ≡ 0
    → is_empty chunk.claims ≡ true
    → charge id chunk ≡ 0
unpaid id chunk n e none_left = ground (arith, n, e, no_claims id chunk.size chunk.claims none_left)

owner_free-charge :
    (cap : Capability) (chunk : Chunk) (id : ℕ)
    → 0 ≢ id
    → stays (owner_free 0 cap chunk).ret ≡ false
    → charge id (owner_free 0 cap chunk).chunk ≡ 0
unfolding owner_free
owner_free-charge cap chunk id n gone = elim (Bool-cases (is_empty chunk.claims)) [
  | inl last ↦ rw (last, owner_free) (unpaid id (record chunk { owner_id = 0 }) n refl last)
  | inr more ↦ absurd (ground (arith, more, gone))
]

claim_free-charge :
    (o : Outcome Bool) (id : ℕ)
    → 0 ≢ id
    → stays (claim_free 0 o).ret ≡ false
    → charge id (claim_free 0 o).chunk ≡ 0
unfolding claim_free
claim_free-charge o id n gone = unpaid id o.chunk n (ground (arith, gone)) (ground (arith, gone))

released-charge :
    (cap : Capability) (chunk : Chunk) (is_precise really_free free_all : Bool) (id : ℕ)
    → 0 ≢ id
    → stays (heap_free_chunk 0 cap chunk is_precise really_free free_all).ret ≡ false
    → charge id (heap_free_chunk 0 cap chunk is_precise really_free free_all).chunk ≡ 0
unfolding heap_free_chunk
released-charge cap chunk is_precise really_free free_all id n =
    elim (Bool-cases (is_precise && (chunk.owner_id == cap.identifier))) [
      | inl own ↦ elim (Bool-cases really_free) [
        | inl free ↦ rw (own, free) (owner_free-charge cap chunk id n)
        | inr query ↦ rw (own, query) (λ gone. ground (arith, gone))
      ]
      | inr other ↦ rw other (claim_free-charge (claim_drop cap chunk really_free free_all) id n)
    ]

-- A fair change by one capability keeps all holdings.
fair-holding :
    (h : Heap) (id : ℕ) (cap' : Capability) (chunk' : Chunk) (live' : Bool)
    → IsFair (capability_of id h) h.chunk cap' chunk'
    → (j : ℕ) → 0 ≢ j
    → update h.quotas id cap'.quota j + charge j chunk' ≡ holding h j
fair-holding h id cap' chunk' live' fair j n = elim (ℕ_discrete id j) [
  | yes same ↦
      subst (λ k. update h.quotas id cap'.quota k + charge k chunk' ≡ holding h k) same
        (ap (λ q. q + charge id chunk') (update_self h.quotas id cap'.quota) ∙ fair.balance)
  | no apart ↦ ap₂ (λ q c. q + c) (update_ne h.quotas id j cap'.quota apart) (fair.others j apart n)
]

-- One operation keeps the holdings.
heap_step-holding :
    (op : HeapOp) (h : Heap)
    → IsPaid op
    → IsSolvent h
    → (j : ℕ) → 0 ≢ j
    → holding (heap_step op h) j ≡ holding h j
unfolding heap_claim heap_free
heap_step-holding (claims space id) h (n, paid) solvent j m = elim (Bool-cases (h.live)) [
  | inl here ↦
      rw (here, heap_claim)
        (fair-holding h id _ _ true
          (claim_add-IsFair (capability_of id h) h.chunk n (solvent.small id n) space paid) j m)
  | inr gone ↦ rw (gone, heap_claim) refl
]
heap_step-holding (frees is_precise really_free free_all id) h n solvent j m =
    elim (Bool-cases (h.live)) [
      | inl here ↦
          rw (here, heap_free)
            (fair-holding h id _ _ true
              (heap_free_chunk-IsFair (capability_of id h) h.chunk n (solvent.small id n) is_precise
                really_free free_all)
              j m)
      | inr gone ↦ rw (gone, heap_free) refl
    ]

heap_step-free :
    (op : HeapOp) (h : Heap)
    → IsSolvent h
    → (heap_step op h).live ≡ false
    → (j : ℕ) → 0 ≢ j
    → charge j (heap_step op h).chunk ≡ 0
unfolding heap_claim heap_free
heap_step-free (claims space id) h solvent = elim (Bool-cases (h.live)) [
  | inl here ↦ rw (here, heap_claim) (λ gone. ground (arith, gone, here))
  | inr gone ↦ rw (gone, heap_claim) (λ e. solvent.free gone)
]
heap_step-free (frees is_precise really_free free_all id) h solvent = elim (Bool-cases (h.live)) [
  | inl here ↦
      rw (here, heap_free)
        (λ gone j n.
          released-charge (capability_of id h) h.chunk is_precise really_free free_all j n gone)
  | inr gone ↦ rw (gone, heap_free) (λ e. solvent.free gone)
]

heap_step-IsSolvent :
    (op : HeapOp) (h : Heap) → IsPaid op → IsSolvent h → IsSolvent (heap_step op h)
heap_step-IsSolvent op h paid solvent = record {
  small = λ id n.
      subst (λ k. k < 2 ^ 32) (sym (heap_step-holding op h paid solvent id n)) (solvent.small id n);
  free = heap_step-free op h solvent;
}

-- Whatever claims and frees of an object follow one another, by any capabilities with identifiers, with
-- claims found or made, refused for want of quota or memory, dropped or freed, if the chunk for a claim is
-- taken out of the claimer's quota, `mspace_free` succeeds and no capability has more than a word: what a
-- capability has of quota and what it pays for, as the owner and by its claims, add up to the same; and
-- when the object has been freed, no capability pays for it, so that each has got back all of it.
pub heap_run-conserves :
    (ops : List HeapOp) (h : Heap)
    → All IsPaid ops
    → IsSolvent h
    → (id : ℕ) → 0 ≢ id
    → (holding (heap_run ops h) id ≡ holding h id)
      × ((heap_run ops h).live ≡ false → (heap_run ops h).quotas id ≡ holding h id)
heap_run-conserves [] h paid solvent id n = (refl, λ gone. omega (arith, solvent.free gone id n))
heap_run-conserves (op ∷ ops) h paid solvent id n =
    let same = heap_step-holding op h paid.0 solvent id n in
    let (kept_all, returned) =
      heap_run-conserves ops (heap_step op h) paid.1 (heap_step-IsSolvent op h paid.0 solvent) id
        n in
    (kept_all ∙ same, λ gone. returned gone ∙ same)
